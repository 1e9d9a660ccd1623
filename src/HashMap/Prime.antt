-- ===== src/HashMap/Prime.antt =====
-- The table size of shared/adt/HashMap.c: trial division, and the search for the next prime.
pub mod Laws
use chat_project.Prelude.{
  ℕ, zero, suc, ◌+◌, ◌*◌, ◌%◌, ◌^◌, Bool, true, false, Option, none, some, ltb, leb, ◌==◌, ◌||◌,
  if◌then◌else◌,
}

abbrev size_mod : ℕ
size_mod = 2 ^ 64

-- The loop over `i`, six apart; `i * i` is a product of `size_t`. Without fuel it gives up.
unfoldable pub trial_division : ℕ → ℕ → ℕ → Option Bool
trial_division zero num i = none
trial_division (suc fuel) num i = elim (leb ((i * i) % size_mod) num) [
  | true ↦ elim (num % i == 0 || num % (i + 2) == 0) [
    | true ↦ some false
    | false ↦ trial_division fuel num (i + 6)
  ]
  | false ↦ some true
]

unfoldable pub is_prime : ℕ → ℕ → Option Bool
is_prime fuel num =
    if leb num 1
    then some false
    else if num == 2 || num == 3
    then some true
    else if num % 2 == 0 || num % 3 == 0
    then some false
    else trial_division fuel num 5

-- `while (0 == IsPrime(prime)) prime++;`
unfoldable pub get_next_prime : ℕ → ℕ → Option ℕ
get_next_prime zero prime = none
get_next_prime (suc fuel) prime = elim (is_prime (suc prime) prime) [
  | none ↦ none
  | some true ↦ some prime
  | some false ↦ get_next_prime fuel (prime + 1)
]
