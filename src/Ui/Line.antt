-- ===== src/Ui/Line.antt =====
-- `read_line` of client/ui.c against the lines of the input.
use chat_project.Prelude.{
  ℕ, zero, suc, ◌-◌, ◌≡◌, ◌≢◌, refl, ◌∙◌, Bool, true, false, none, some, [], ◌∷◌, ap, ◌==◌, take,
  if◌then◌else◌, arith, Bool-cases, inl, inr, ne→eqb,
}
use chat_project.Memory.{Bytes, c_str}
use chat_project.Memory.Windows.{IsText}
use chat_project.Ui.{newline, take_line, drain, ends_in_newline, chop, read_line, is_empty}

-- The reference: the first line without its newline, and what follows it.
abbrev pub line_of : Bytes → Bytes
line_of [] = []
line_of (c ∷ input) = if c == newline then [] else c ∷ line_of input

-- What the code does with the line `out` that fgets has read.
abbrev finish : Bytes × Bytes → Bytes × Bytes
finish (out, rest) = if ends_in_newline out then (chop out, rest) else (out, drain rest)

abbrev put_front : ℕ → Bytes × Bytes → Bytes × Bytes
put_front c (line, rest) = (c ∷ line, rest)

finish-cons :
    (c : ℕ) (out rest : Bytes)
    → (c == newline) ≡ false
    → finish (c ∷ out, rest) ≡ put_front c (finish (out, rest))
finish-cons c [] rest other = rw other
finish-cons c (d ∷ out) rest other = elim (Bool-cases (ends_in_newline (d ∷ out))) [
  | inl ends ↦ rw ends
  | inr more ↦ rw more
]

finish-take_line :
    (n : ℕ) (input : Bytes) → finish (take_line n input) ≡ (take n (line_of input), drain input)
unfolding take_line drain
finish-take_line zero input = refl
finish-take_line (suc n) [] = refl
finish-take_line (suc n) (c ∷ input) = elim (Bool-cases (c == newline)) [
  | inl ends ↦ rw (ends, take_line) (rw ends)
  | inr more ↦ rw more (
      finish-cons c (take_line n input).0 (take_line n input).1 more
      ∙ ap (put_front c) (finish-take_line n input))
]

some_if :
    (b : Bool) (x y : Bytes × Bytes) → (if b then some x else some y) ≡ some (if b then x else y)
some_if true x y = refl
some_if false x y = refl

c_str-take_line :
    (n : ℕ) (input : Bytes)
    → IsText (line_of input)
    → c_str (take_line n input).0 ≡ (take_line n input).0
unfolding take_line c_str
c_str-take_line zero input text = refl
c_str-take_line (suc n) [] text = refl
c_str-take_line (suc n) (c ∷ input) text = elim (Bool-cases (c == newline)) [
  | inl ends ↦ let nul : (c == 0) ≡ false = ground arith in rw (ends, nul)
  | inr more ↦
      let parts : (c ≢ 0) × IsText (line_of input) = (rw more at text) in
      let nul : (c == 0) ≡ false = ne→eqb c 0 parts.0 in
      rw (more, nul) (ap (λ s. c ∷ s) (c_str-take_line n input parts.1))
]

-- From an input that is not at its end and whose first line has no NUL, `read_line` with room for `cap`
-- bytes takes exactly that line, newline included; the string is the line without its newline, cut to
-- `cap - 1` bytes. At the end of the input it returns -1.
pub read_line-line_of :
    (cap : ℕ) (input : Bytes)
    → IsText (line_of input)
    → read_line cap input
      ≡ (if is_empty input then none else some (take (cap - 1) (line_of input), drain input))
unfolding read_line
read_line-line_of cap [] text = refl
read_line-line_of cap (c ∷ input) text =
    let out = take_line (cap - 1) (c ∷ input) in
    rw (c_str-take_line (cap - 1) (c ∷ input) text) (
      some_if (ends_in_newline out.0) (chop out.0, out.1) (out.0, drain out.1)
      ∙ ap some (finish-take_line (cap - 1) (c ∷ input)))
