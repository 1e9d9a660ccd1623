-- ===== src/ChatWindow/Chat.antt =====
-- client/chat_sender.c and client/chat_receiver.c together: what is typed into the one is printed by
-- the other.
use mathlib.Core.Path.{subst}
use chat_project.Prelude.{
  ℕ, zero, suc, ◌+◌, ◌≤◌, ◌<◌, ◌≡◌, refl, ◌∙◌, ap, sym, Bool, true, false, Option, none, some, List,
  [], ◌∷◌, ◌++◌, ◌==◌, length, length-append, take_all, arith, Bool-cases, inl, inr, ne→eqb,
  if◌then◌else◌,
}
use chat_project.Memory.{Bytes, c_str}
use chat_project.Memory.Windows.{IsText}
use chat_project.Ui.{newline, take_line}
use chat_project.ChatWindow.{payload, sender_loop, receiver_loop}

c_str_text : (s : Bytes) → IsText s → c_str s ≡ s
unfolding c_str
c_str_text [] text = refl
c_str_text (c ∷ s) text =
    let nul : (c == 0) ≡ false = ne→eqb c 0 text.0 in rw nul (ap (λ r. c ∷ r) (c_str_text s text.1))

append-IsText : (s t : Bytes) → IsText s → IsText t → IsText (s ++ t)
append-IsText [] t text_s text_t = text_t
append-IsText (c ∷ s) t text_s text_t = (text_s.0, append-IsText s t text_s.1 text_t)

-- What `take_line` makes of a text.
record Cut (n : ℕ) (input line rest : Bytes) : Type 0 where
  whole : line ++ rest ≡ input
  line_text : IsText line
  rest_text : IsText rest
  short : length line ≤ n

take_line-Cut :
    (n : ℕ) (input : Bytes) → IsText input → Cut n input (take_line n input).0 (take_line n input).1
unfolding take_line
take_line-Cut zero input text = record {
  whole = refl;
  line_text = tt;
  rest_text = text;
  short = omega arith;
}
take_line-Cut (suc n) [] text = record {
  whole = refl;
  line_text = tt;
  rest_text = tt;
  short = omega arith;
}
take_line-Cut (suc n) (c ∷ input) text = elim (Bool-cases (c == newline)) [
  | inl nl ↦
      rw nl
        (record { whole = refl; line_text = (text.0, tt); rest_text = text.1; short = omega arith })
  | inr other ↦
      let cut = take_line-Cut n input text.1 in
      rw other (record {
        whole = ap (λ s. c ∷ s) cut.whole;
        line_text = (text.0, cut.line_text);
        rest_text = cut.rest_text;
        short = omega (arith, cut.short);
      })
]

take_line-nonempty : (n c : ℕ) (input : Bytes) → 0 < length (take_line (suc n) (c ∷ input)).0
unfolding take_line
take_line-nonempty n c input = elim (Bool-cases (c == newline)) [
  | inl nl ↦ rw nl (omega arith)
  | inr other ↦ rw other (omega arith)
]

-- A line as the windows show it.
abbrev pub tag : Option Bytes → Bytes → Bytes
tag none line = line
tag (some username) line = username ++ 58 ∷ 32 ∷ line

abbrev pub tagged : Option Bytes → List Bytes → List Bytes
tagged username [] = []
tagged username (p ∷ ps) = tag username p ∷ tagged username ps

abbrev pub joined : List Bytes → Bytes
joined [] = []
joined (p ∷ ps) = p ++ joined ps

-- All datagrams arrive, in their order.
abbrev pub arrived : List Bytes → List (Option Bytes)
arrived [] = []
arrived (p ∷ ps) = some p ∷ arrived ps

-- The user names that the server knows: at most 32 bytes, without NUL.
abbrev pub Fits : Option Bytes → Type 0
Fits none = Unit
Fits (some username) = (length username ≤ 32) × IsText username

-- The lines of the input, each with its newline.
abbrev pub put_first : ℕ → List Bytes → List Bytes
put_first c [] = (c ∷ []) ∷ []
put_first c (l ∷ ls) = (c ∷ l) ∷ ls

abbrev pub lines : Bytes → List Bytes
lines [] = []
lines (c ∷ s) = if c == newline then (c ∷ []) ∷ lines s else put_first c (lines s)

-- Every line fits the sender's buffer.
abbrev pub AreShort : List Bytes → Type 0
AreShort [] = Unit
AreShort (l ∷ ls) = (length l ≤ 1023) × AreShort ls

abbrev IsFirstShort : ℕ → List Bytes → Type 0
IsFirstShort n [] = Unit
IsFirstShort n (l ∷ ls) = length l ≤ n

put_first-IsFirstShort :
    (n c : ℕ) (ls : List Bytes) → IsFirstShort (suc n) (put_first c ls) → IsFirstShort n ls
put_first-IsFirstShort n c [] short = tt
put_first-IsFirstShort n c (l ∷ ls) short = omega (arith, short)

put_first-long : (c : ℕ) (ls : List Bytes) → IsFirstShort 0 (put_first c ls) → ⊥
put_first-long c [] short = omega (arith, short)
put_first-long c (l ∷ ls) short = omega (arith, short)

-- With room for the first line, `take_line` cuts it off.
take_line-lines :
    (n c : ℕ) (s : Bytes)
    → IsFirstShort n (lines (c ∷ s))
    → lines (c ∷ s) ≡ (take_line n (c ∷ s)).0 ∷ lines (take_line n (c ∷ s)).1
unfolding take_line
take_line-lines zero c s short = elim (Bool-cases (c == newline)) [
  | inl nl ↦ absurd (omega (arith, (rw nl at short)))
  | inr other ↦ absurd (put_first-long c (lines s) (rw other at short))
]
take_line-lines (suc zero) c [] short = elim (Bool-cases (c == newline)) [
  | inl nl ↦ rw nl
  | inr other ↦ rw other
]
take_line-lines (suc (suc n)) c [] short = elim (Bool-cases (c == newline)) [
  | inl nl ↦ rw nl
  | inr other ↦ rw other
]
take_line-lines (suc n) c (d ∷ s) short = elim (Bool-cases (c == newline)) [
  | inl nl ↦ rw nl
  | inr other ↦
      let shorter = put_first-IsFirstShort n c (lines (d ∷ s)) (rw other at short) in
      rw other (ap (put_first c) (take_line-lines n d s shorter))
]

AreShort-first : (ls : List Bytes) → AreShort ls → IsFirstShort 1023 ls
AreShort-first [] short = tt
AreShort-first (l ∷ ls) short = short.0

-- What is typed is one datagram for each line, and is printed.
pub record Delivered (run : Option (List Bytes)) (username : Option Bytes) (input : Bytes)
    : Type 0 where
  pub sent : run ≡ some (tagged username (lines input))
  pub whole : joined (lines input) ≡ input
  pub printed :
      receiver_loop (arrived (tagged username (lines input)))
      ≡ (joined (tagged username (lines input)), false)

payload-tag :
    (username : Option Bytes) (line : Bytes)
    → Fits username
    → length line ≤ 1023
    → payload username line ≡ tag username line
unfolding payload
payload-tag none line fits short = refl
payload-tag (some username) line fits short =
    take_all 1058 (username ++ 58 ∷ 32 ∷ line)
      (omega (arith, length-append username (58 ∷ 32 ∷ line), fits.0, short))

length-tag :
    (username : Option Bytes) (line : Bytes)
    → Fits username
    → length line ≤ 1023
    → length (tag username line) ≤ 1500
length-tag none line fits short = omega arith
length-tag (some username) line fits short =
    omega (arith, length-append username (58 ∷ 32 ∷ line), fits.0, short)

tag-IsText :
    (username : Option Bytes) (line : Bytes)
    → Fits username
    → IsText line
    → IsText (tag username line)
tag-IsText none line fits text = text
tag-IsText (some username) line fits text =
    append-IsText username (58 ∷ 32 ∷ line) fits.1 (ground arith, (ground arith, text))

receiver_loop-first :
    (p : Bytes) (arrivals : List (Option Bytes)) (printed : Bytes)
    → IsText p
    → length p ≤ 1500
    → receiver_loop arrivals ≡ (printed, false)
    → receiver_loop (some p ∷ arrivals) ≡ (p ++ printed, false)
unfolding receiver_loop
receiver_loop-first p arrivals printed text short rest =
    rw (take_all 1500 p short, c_str_text p text, rest)

-- What is typed into a sender's window, a text without NUL in lines of at most 1023 bytes, newline
-- included, goes out as one datagram for each line if every `sendto` succeeds, each behind the user's
-- name if there is one, of at most 32 bytes without NUL. If all the datagrams arrive in their order, a
-- receiver prints them uncut and goes on waiting.
pub sender_loop-Delivered :
    (fuel : ℕ) (sendto_ok : ℕ → Bool) (k : ℕ) (username : Option Bytes) (input : Bytes)
    → length input < fuel
    → ((i : ℕ) → sendto_ok i ≡ true)
    → Fits username
    → IsText input
    → AreShort (lines input)
    → Delivered (sender_loop fuel sendto_ok k username input) username input
unfolding sender_loop receiver_loop
sender_loop-Delivered zero sendto_ok k username input enough sends fits text short =
    absurd (omega arith)
sender_loop-Delivered (suc fuel) sendto_ok k username [] enough sends fits text short = record {
  sent = refl;
  whole = refl;
  printed = refl;
}
sender_loop-Delivered (suc fuel) sendto_ok k username (c ∷ input) enough sends fits text short =
    let (line, rest) = take_line 1023 (c ∷ input) in
    let cut = take_line-Cut 1023 (c ∷ input) text in
    let split : lines (c ∷ input) ≡ line ∷ lines rest =
      take_line-lines 1023 c input (AreShort-first (lines (c ∷ input)) short) in
    let later : AreShort (lines rest) = (subst AreShort split short).1 in
    let some_bytes = take_line-nonempty 1022 c input in
    let lengths : length line + length rest ≡ suc (length input) =
      sym (length-append line rest) ∙ ap length cut.whole in
    let d =
      sender_loop-Delivered fuel sendto_ok (suc k) username rest
        (omega (arith, lengths, some_bytes, enough)) sends fits cut.rest_text later in
    record {
      sent =
          rw
            (
              c_str_text line cut.line_text,
              payload-tag username line fits cut.short,
              sends k,
              d.sent,
            )
            (ap (λ ls. some (tagged username ls)) (sym split));
      whole = ap joined split ∙ ap (λ s. line ++ s) d.whole ∙ cut.whole;
      printed =
          subst
            (λ ls.
              receiver_loop (arrived (tagged username ls)) ≡ (joined (tagged username ls), false))
            (sym split)
            (receiver_loop-first (tag username line) (arrived (tagged username (lines rest)))
              (joined (tagged username (lines rest))) (tag-IsText username line fits cut.line_text)
              (length-tag username line fits cut.short) d.printed);
    }
