-- ===== src/Memory/Windows.antt =====
-- Accesses to a buffer whose first part is known: writes extend that part, reads find it again.
use chat_project.Prelude.{
  ℕ, zero, suc, ◌+◌, ◌≤◌, ◌<◌, ◌≡◌, ◌≢◌, refl, sym, ap, ◌∙◌, [], ◌∷◌, ◌++◌, arith, length, set,
  take, drop, length-append, length-drop, length-take, drop-append, take-append, lt→ltb, le→leb,
  get_elem?-lt, get_elem?-take, take-drop-take, append_assoc,
}
use chat_project.Memory.{Bytes, ok, load, store, copy_out, copy_in, c_str}

-- The buffer `buf` after its first bytes have been overwritten by `p`.
abbrev pub written : Bytes → Bytes → Bytes
written p buf = p ++ drop (length p) buf

pub length-written : (p buf : Bytes) → length p ≤ length buf → length (written p buf) ≡ length buf
length-written p buf h =
    omega (arith, length-append p (drop (length p) buf), length-drop (length p) buf)

set-append : (p r : Bytes) (x : ℕ) → 0 < length r → set (p ++ r) (length p) x ≡ p ++ (x ∷ drop 1 r)
set-append [] [] x h = elim h [ ]
set-append [] (y ∷ r) x h = refl
set-append (c ∷ p) r x h = ap (λ t. c ∷ t) (set-append p r x h)

drop-drop : (i j k : ℕ) (xs : Bytes) → k ≡ i + j → drop j (drop i xs) ≡ drop k xs
drop-drop zero j k xs e = ap (λ t. drop t xs) (let q : j ≡ k = omega arith in q)
drop-drop (suc i) zero zero [] e = refl
drop-drop (suc i) zero (suc k) [] e = refl
drop-drop (suc i) (suc j) zero [] e = refl
drop-drop (suc i) (suc j) (suc k) [] e = refl
drop-drop (suc i) j zero (x ∷ xs) e = absurd (omega arith)
drop-drop (suc i) j (suc k) (x ∷ xs) e = drop-drop i j k xs (omega arith)

-- `buf[i] = b` just behind the written part extends it.
pub store-written :
    (p buf : Bytes) (i b : ℕ)
    → i ≡ length p
    → length p < length buf
    → store (written p buf) i b ≡ ok (written (p ++ b ∷ []) buf)
unfolding store
store-written p buf i b e h =
    rw (e, lt→ltb (length p) (length (written p buf)) (omega (arith, length-written p buf)))
      (ap ok (
        set-append p (drop (length p) buf) b (omega (arith, length-drop (length p) buf))
        ∙ ap (λ t. p ++ (b ∷ t))
            (drop-drop (length p) 1 (length (p ++ b ∷ [])) buf (length-append p (b ∷ [])))
        ∙ sym (append_assoc p (b ∷ []) _)))

-- `memcpy` just behind the written part extends it.
pub copy_in-written :
    (p buf : Bytes) (i : ℕ) (s : Bytes)
    → i ≡ length p
    → length p + length s ≤ length buf
    → copy_in (written p buf) i s ≡ ok (written (p ++ s) buf)
unfolding copy_in
copy_in-written p buf i s e h =
    rw
      (
        e,
        le→leb (length p + length s) (length (written p buf)) (omega (arith, length-written p buf)),
        take-append p (drop (length p) buf) (length p) refl,
      )
      (ap ok (ap (λ t. p ++ (s ++ t)) rest ∙ sym (append_assoc p s _)))
  where
    rest : drop (length p + length s) (written p buf) ≡ drop (length (p ++ s)) buf
    rest =
        sym (drop-drop (length p) (length s) (length p + length s) (written p buf) refl)
        ∙ ap (drop (length s)) (drop-append p (drop (length p) buf) (length p) refl)
        ∙ drop-drop (length p) (length s) (length (p ++ s)) buf (length-append p s)

-- `buf[i]` behind a known prefix.
pub load-append :
    (p : Bytes) (b : ℕ) (r : Bytes) (i : ℕ) → i ≡ length p → load (p ++ b ∷ r) i ≡ ok b
unfolding load
load-append [] b r zero e = refl
load-append [] b r (suc i) e = absurd (omega arith)
load-append (c ∷ p) b r zero e = absurd (omega arith)
load-append (c ∷ p) b r (suc i) e = load-append p b r i (omega arith)

pub load-append_right : (p q : Bytes) (i j : ℕ) → i ≡ length p + j → load (p ++ q) i ≡ load q j
unfolding load
load-append_right [] q i j e = ap (load q) (let f : i ≡ j = omega arith in f)
load-append_right (c ∷ p) q zero j e = absurd (omega arith)
load-append_right (c ∷ p) q (suc i) j e = load-append_right p q i j (omega arith)

-- `memcpy` out of the buffer behind a known prefix.
pub copy_out-append :
    (p s r : Bytes) (i n : ℕ) → i ≡ length p → n ≡ length s → copy_out (p ++ (s ++ r)) i n ≡ ok s
unfolding copy_out
copy_out-append p s r i n e f = rw (
  le→leb (i + n) (length (p ++ (s ++ r)))
      (omega (arith, length-append p (s ++ r), length-append s r)),
  drop-append p (s ++ r) i e,
  take-append s r n f,
)

-- An access inside the buffer does not fault, and one below `n` reads only the first `n` bytes.
pub load_total : (buf : Bytes) (i : ℕ) → i < length buf → (b : ℕ) × (load buf i ≡ ok b)
unfolding load
load_total buf i h = let (b, e) = get_elem?-lt buf i h in (b, rw (e, load))

pub load-take : (n : ℕ) (buf : Bytes) (i : ℕ) → i < n → load (take n buf) i ≡ load buf i
unfolding load
load-take n buf i h = rw (get_elem?-take n buf i h, load)

pub copy_out_lem :
    (buf : Bytes) (i n : ℕ) → i + n ≤ length buf → copy_out buf i n ≡ ok (take n (drop i buf))
unfolding copy_out
copy_out_lem buf i n h = rw (le→leb (i + n) (length buf) h)

pub copy_out-take :
    (m : ℕ) (buf : Bytes) (i n : ℕ)
    → i + n ≤ m
    → m ≤ length buf
    → copy_out (take m buf) i n ≡ copy_out buf i n
copy_out-take m buf i n h k =
    copy_out_lem (take m buf) i n (omega (arith, length-take m buf))
    ∙ ap ok (take-drop-take n i m buf h)
    ∙ sym (copy_out_lem buf i n (omega arith))

-- The C string of NUL-terminated text is the text.
abbrev pub IsText : Bytes → Type 0
IsText [] = Unit
IsText (c ∷ cs) = (c ≢ 0) × IsText cs

pub c_str-append_nul : (s : Bytes) → IsText s → c_str (s ++ 0 ∷ []) ≡ s
unfolding c_str
c_str-append_nul [] h = refl
c_str-append_nul (c ∷ cs) h = ground (arith, c_str-append_nul cs h.1, h.0)
