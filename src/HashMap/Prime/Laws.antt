-- ===== src/HashMap/Prime/Laws.antt =====
-- Trial division by 2, 3 and the numbers next to multiples of six decides primality, and the search
-- ends at the first prime.
use chat_project.Prelude.{
  ℕ, zero, suc, ◌+◌, ◌-◌, ◌*◌, ◌/◌, ◌%◌, ◌^◌, ◌≤◌, ◌<◌, ◌≡◌, ◌≢◌, inl, inr, refl, sym, ap, ◌∙◌,
  Bool, true, false, some, leb, ◌==◌, ◌||◌, arith, Bool-cases, leb→le, eqb→eq,
}
use mathlib.Core.Path.{subst}
use native.Mathlib.Nat.{div-add-mod}
use native.Mathlib.Decide.{dec_lt, ℕ_discrete}
use chat_project.HashMap.Prime.{trial_division, is_prime, get_next_prime}

-- No number from 2 up to below `i` divides `n`.
abbrev NoDivisor : ℕ → ℕ → Type 0
NoDivisor n i = (d : ℕ) → 1 < d → d < i → n % d ≢ 0

abbrev pub IsPrime : ℕ → Type 0
IsPrime n = (1 < n) × NoDivisor n n

-- A multiple of a multiple is a multiple.
mul-mod : (a b : ℕ) → 0 < b → (a * b) % b ≡ 0
mul-mod a b h = grind arith

mod-eq-zero_trans : (n d p : ℕ) → 0 < p → d % p ≡ 0 → n % d ≡ 0 → n % p ≡ 0
mod-eq-zero_trans n d p h e f =
    let q = n / d in
    let r = d / p in
    let d_eq : p * r ≡ d = omega (arith, div-add-mod d p) in
    let n_eq : d * q ≡ n = omega (arith, div-add-mod n d) in
    let p_eq : (r * q) * p ≡ n = omega (arith, ap (λ t. t * q) d_eq) in
    ap (λ t. t % p) (sym p_eq) ∙ mul-mod (r * q) p h

divisor-ge : (n i d : ℕ) → NoDivisor n i → 1 < d → n % d ≡ 0 → i ≤ d
divisor-ge n i d none_below lo e = elim (dec_lt d i) [
  | yes p ↦ absurd (none_below d lo p e)
  | no p ↦ omega arith
]

mul_mono : (a b c d : ℕ) → a ≤ c → b ≤ d → a * b ≤ c * d
mul_mono a b c d h k =
    let step : a * b ≤ c * b = grind arith in let step' : c * b ≤ c * d = grind arith in omega arith

cofactor-gt : (n d q : ℕ) → d * q ≡ n → d < n → 1 < q
cofactor-gt n d zero e h = absurd (grind arith)
cofactor-gt n d (suc zero) e h = absurd (grind arith)
cofactor-gt n d (suc (suc q)) e h = omega arith

-- A number with no divisor below `i` and below `i * i` is prime.
IsPrime-of_square : (n i : ℕ) → 1 < n → NoDivisor n i → n < i * i → IsPrime n
IsPrime-of_square n i big none_below small = (big, λ d lo hi e. go d lo hi e)
  where
    go : (d : ℕ) → 1 < d → d < n → n % d ≡ 0 → ⊥
    go d lo hi e =
        let q = n / d in
        let n_eq : d * q ≡ n = omega (arith, div-add-mod n d) in
        let q_gt = cofactor-gt n d q n_eq hi in
        let q_divides : n % q ≡ 0 = ap (λ t. t % q) (sym n_eq) ∙ mul-mod d q (omega arith) in
        let prod =
          mul_mono i i d q (divisor-ge n i d none_below lo e)
            (divisor-ge n i q none_below q_gt q_divides) in
        omega arith

-- The numbers between two candidates are multiples of 2 or of 3.
NoDivisor-next :
    (n i : ℕ)
    → i % 6 ≡ 5
    → n % 2 ≢ 0
    → n % 3 ≢ 0
    → NoDivisor n i
    → n % i ≢ 0
    → n % (i + 2) ≢ 0
    → NoDivisor n (i + 6)
NoDivisor-next n i six two three below at_i at_next d lo hi e = elim (dec_lt d i) [
  | yes p ↦ below d lo p e
  | no p ↦ elim (ℕ_discrete (d % 2) 0) [
    | yes even ↦ two (mod-eq-zero_trans n d 2 (omega arith) even e)
    | no odd ↦ elim (ℕ_discrete (d % 3) 0) [
      | yes third ↦ three (mod-eq-zero_trans n d 3 (omega arith) third e)
      | no other ↦ elim (ℕ_discrete d i) [
        | yes q ↦ at_i (rw q at e)
        | no q ↦ let r : d ≡ i + 2 = omega arith in at_next (rw r at e)
      ]
    ]
  ]
]

found_divisor :
    (n i : ℕ) → 5 ≤ i → i + 2 < n → IsPrime n → (n % i == 0 || n % (i + 2) == 0) ≡ true → ⊥
found_divisor n i five inside prime hit = elim (Bool-cases (n % i == 0)) [
  | inl e ↦ prime.1 i (omega arith) (omega arith) (eqb→eq (n % i) 0 e)
  | inr e ↦ prime.1 (i + 2) (omega arith) inside (eqb→eq (n % (i + 2)) 0 (rw e at hit))
]

trial_division_step :
    (fuel n i : ℕ)
    → (i * i) % 2 ^ 64 ≡ i * i
    → leb (i * i) n ≡ true
    → (n % i == 0 || n % (i + 2) == 0) ≡ false
    → trial_division (suc fuel) n i ≡ trial_division fuel n (i + 6)
unfolding trial_division
trial_division_step fuel n i wrap go miss = rw (wrap, go, miss, trial_division)

-- The loop from `i` on gives an answer, and says whether the number is prime.
trial_division-IsPrime :
    (fuel n i : ℕ)
    → n < 2 ^ 31
    → 1 < n
    → n % 2 ≢ 0
    → n % 3 ≢ 0
    → i % 6 ≡ 5
    → i ≤ n + 6
    → NoDivisor n i
    → n - i < fuel
    → (b : Bool) × (trial_division fuel n i ≡ some b)
      × (b ≡ true → IsPrime n)
      × (IsPrime n → b ≡ true)
unfolding trial_division
trial_division-IsPrime zero n i small big two three six near below enough = absurd (omega arith)
trial_division-IsPrime (suc fuel) n i small big two three six near below enough =
    let five : 5 ≤ i = omega arith in
    let bound = mul_mono i i (2 ^ 31 + 5) (2 ^ 31 + 5) (omega arith) (omega arith) in
    let wrap : (i * i) % 2 ^ 64 ≡ i * i = omega arith in
    let grows = mul_mono 5 i i i five (omega arith) in
    elim (Bool-cases (leb (i * i) n)) [
      | inr stop ↦ (
        true,
        rw (wrap, stop, trial_division),
        λ _. IsPrime-of_square n i big below (ground arith),
        λ _. refl,
      )
      | inl go ↦
          let square : i * i ≤ n = leb→le (i * i) n go in
          elim (Bool-cases (n % i == 0 || n % (i + 2) == 0)) [
            | inl hit ↦ (
              false,
              rw (wrap, go, hit, trial_division),
              λ e. cc,
              λ prime. absurd (found_divisor n i five (omega arith) prime hit),
            )
            | inr miss ↦
                let (b, run, sound, complete) =
                  trial_division-IsPrime fuel n (i + 6) small big two three (omega arith)
                    (omega arith)
                    (NoDivisor-next n i six two three below (λ e. ground (arith, miss))
                      (λ e. ground (arith, miss)))
                    (omega arith) in
                (b, trial_division_step fuel n i wrap go miss ∙ run, sound, complete)
          ]
    ]

first_primes : (n d : ℕ) → (n == 2 || n == 3) ≡ true → 1 < d → d < n → n % d ≡ 0 → ⊥
first_primes n d first lo hi e =
    let at_three : (n ≡ 3) × (d ≡ 2) = ground arith in
    let e' = rw at_three.0 at e in let e'' = rw at_three.1 at e' in absurd (omega arith)

small_divisor : (n : ℕ) → 3 < n → IsPrime n → (n % 2 == 0 || n % 3 == 0) ≡ true → ⊥
small_divisor n big prime hit =
    let two = prime.1 2 (omega arith) (omega arith) in
    let three = prime.1 3 (omega arith) (omega arith) in ground (arith, hit)

below_five : (n d : ℕ) → n % 2 ≢ 0 → n % 3 ≢ 0 → 1 < d → d < 5 → n % d ≡ 0 → ⊥
below_five n d two three lo hi e = elim (ℕ_discrete d 2) [
  | yes p ↦ two (rw p at e)
  | no p ↦ elim (ℕ_discrete d 3) [
    | yes q ↦ three (rw q at e)
    | no q ↦ two (mod-eq-zero_trans n d 2 (omega arith) (omega arith) e)
  ]
]

-- The answer of `is_prime`, with the fuel that the search gives it, is whether the number is prime.
pub is_prime-IsPrime :
    (n : ℕ)
    → n < 2 ^ 31
    → (b : Bool) × (is_prime (suc n) n ≡ some b) × (b ≡ true → IsPrime n) × (IsPrime n → b ≡ true)
unfolding is_prime
is_prime-IsPrime n small = elim (Bool-cases (leb n 1)) [
  | inl tiny ↦ (false, rw tiny, λ e. cc, λ prime. absurd (ground (arith, prime.0)))
  | inr big ↦ elim (Bool-cases (n == 2 || n == 3)) [
    | inl first ↦ (
      true,
      rw (big, first),
      λ _. (ground arith, λ d lo hi e. first_primes n d first lo hi e),
      λ _. refl,
    )
    | inr later ↦
        let two_lt : 3 < n = ground arith in
        elim (Bool-cases (n % 2 == 0 || n % 3 == 0)) [
          | inl hit ↦ (
            false,
            rw (big, later, hit),
            λ e. cc,
            λ prime. absurd (small_divisor n two_lt prime hit),
          )
          | inr miss ↦
              let two : n % 2 ≢ 0 = λ e. ground (arith, miss) in
              let three : n % 3 ≢ 0 = λ e. ground (arith, miss) in
              let (b, run, sound, complete) =
                trial_division-IsPrime (suc n) n 5 small (omega arith) two three (omega arith)
                  (omega arith) (λ d lo hi e. below_five n d two three lo hi e) (omega arith) in
              (b, rw (big, later, miss) run, sound, complete)
        ]
  ]
]

-- If there is a prime at or after `n`, below 2^31, and the fuel reaches it, the search returns the first prime
-- at or after `n`.
pub get_next_prime-IsPrime :
    (fuel n p : ℕ)
    → IsPrime p
    → p < 2 ^ 31
    → n ≤ p
    → p - n < fuel
    → (q : ℕ) × (get_next_prime fuel n ≡ some q)
      × IsPrime q
      × (n ≤ q)
      × ((r : ℕ) → n ≤ r → r < q → ¬ IsPrime r)
unfolding get_next_prime
get_next_prime-IsPrime zero n p prime small le enough = absurd (omega arith)
get_next_prime-IsPrime (suc fuel) n p prime small le enough =
    let (b, run, sound, complete) = is_prime-IsPrime n (omega arith) in
    elim (Bool-cases b) [
      | inl here ↦
          (n, rw (run, here, get_next_prime), sound here, omega arith, λ r lo hi e. omega arith)
      | inr other ↦
          let n_not : n ≢ p = λ e. (let q = complete (rw e prime) in cc) in
          let (q, found, q_prime, q_ge, first) =
            get_next_prime-IsPrime fuel (n + 1) p prime small (omega arith) (omega arith) in
          (
            q,
            rw (run, other, get_next_prime) found,
            q_prime,
            omega arith,
            λ r lo hi e. elim (ℕ_discrete r n) [
              | yes same ↦ (let z = complete (rw same at e) in cc)
              | no differs ↦ first r (omega arith) hi e
            ],
          )
    ]

-- If there is a prime after a number that is none itself, below 2^31, and the fuel reaches it, the search
-- returns the first prime after the number.
pub get_next_prime-IsNext :
    (fuel n p : ℕ)
    → ¬ IsPrime n
    → IsPrime p
    → p < 2 ^ 31
    → n < p
    → p - n < fuel
    → (q : ℕ) × (get_next_prime fuel n ≡ some q)
      × IsPrime q
      × (n < q)
      × ((r : ℕ) → n < r → r < q → ¬ IsPrime r)
get_next_prime-IsNext fuel n p composite prime small lt enough =
    let (q, run, q_prime, le, first) =
      get_next_prime-IsPrime fuel n p prime small (omega arith) enough in
    let differs : n ≢ q = λ e. composite (subst IsPrime (sym e) q_prime) in
    (q, run, q_prime, omega (arith, le, differs), λ r lo hi. first r (omega arith) hi)
