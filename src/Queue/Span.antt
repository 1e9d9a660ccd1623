-- ===== src/Queue/Span.antt =====
-- Positions in a circular buffer of shared/adt/genqueue.c: steps round the buffer do not meet.
use chat_project.Prelude.{
  ℕ, zero, suc, ◌+◌, ◌-◌, ◌%◌, ◌≤◌, ◌<◌, ◌≡◌, ◌≢◌, refl, ap, ◌∙◌, some, List, [], ◌∷◌, ◌++◌, arith,
  length, get_elem?,
}
use native.Mathlib.Nat.{mod-add-mod, mod-eq_of_lt, mod-eq-sub-mod}
use native.Mathlib.Decide.{dec_lt}

-- One step round from below the capacity.
mod_cases : (n cap : ℕ) → n < cap + cap → cap ≤ n → n % cap ≡ n - cap
mod_cases n cap h k =
    mod-eq-sub-mod {n = n} {m = cap} k ∙ mod-eq_of_lt {n = n - cap} {m = cap} (omega arith)

-- Different distances below the capacity lead to different positions.
pub mod_ne : (cap h i j : ℕ) → h < cap → i < j → j < cap → (h + i) % cap ≢ (h + j) % cap
mod_ne cap h i j hh hij hj e = elim (dec_lt (h + i) cap) [
  | yes p ↦ elim (dec_lt (h + j) cap) [
    | yes q ↦ omega (arith, mod-eq_of_lt p, mod-eq_of_lt q)
    | no q ↦ omega (arith, mod-eq_of_lt p, mod_cases (h + j) cap (omega arith) (omega arith))
  ]
  | no p ↦ omega (
    arith,
    mod_cases (h + i) cap (omega arith) (omega arith),
    mod_cases (h + j) cap (omega arith) (omega arith),
  )
]

pub mod_shift : (cap h i : ℕ) → ((h + 1) % cap + i) % cap ≡ (h + suc i) % cap
mod_shift cap h i = rw mod-add-mod (ap (λ k. k % cap) (omega arith))

module _ {ℓ} {A : Type ℓ} where
  pub get_elem?-append_lt :
      (xs ys : List A) (i : ℕ) → i < length xs → get_elem? (xs ++ ys) i ≡ get_elem? xs i
  get_elem?-append_lt [] ys i h = elim h [ ]
  get_elem?-append_lt (x ∷ xs) ys zero h = refl
  get_elem?-append_lt (x ∷ xs) ys (suc i) h = get_elem?-append_lt xs ys i (omega arith)

  pub get_elem?-append_length :
      (xs : List A) (y : A) (i : ℕ) → i ≡ length xs → get_elem? (xs ++ y ∷ []) i ≡ some y
  get_elem?-append_length [] y zero h = refl
  get_elem?-append_length [] y (suc i) h = absurd (omega arith)
  get_elem?-append_length (x ∷ xs) y zero h = absurd (omega arith)
  get_elem?-append_length (x ∷ xs) y (suc i) h = get_elem?-append_length xs y i (omega arith)
