-- ===== src/HashMap/Create.antt =====
-- The creation of a map of shared/adt/HashMap.c.
use chat_project.Prelude.{
  ℕ, zero, suc, ◌-◌, ◌≤◌, ◌<◌, ◌≡◌, refl, sym, ◌∙◌, Bool, true, none, some, [], arith, ◌^◌,
  replicate, length-replicate, get_or-replicate, ne→eqb,
}
use chat_project.HashMap.{HashMap, create}
use chat_project.HashMap.Chains.{IsKey}
use chat_project.HashMap.Buckets.{total, view, IsValid}
use mathlib.Core.Option.{some-injective}
use chat_project.HashMap.Prime.{is_prime, trial_division}
use chat_project.HashMap.Prime.Laws.{IsPrime, is_prime-IsPrime, get_next_prime-IsPrime}

total-replicate {ℓ} : (K V : Type ℓ) (n : ℕ) → total {K = K} {V = V} (replicate n none) ≡ 0
total-replicate K V zero = refl
total-replicate K V (suc n) = omega (arith, total-replicate K V n)

module _ {ℓ} {K V : Type ℓ} where
  -- If the search for a prime has fuel enough for a prime below 2^31 and no allocation fails, a map of
  -- a positive capacity is created: it is valid and empty, and has a prime number of buckets, at
  -- least its capacity; it compares keys with the function it is given.
  pub create-IsValid :
      (fuel capacity p : ℕ) (hash : K → ℕ) (equal : K → K → Bool)
      → IsKey hash equal
      → 0 < capacity
      → IsPrime p
      → p < 2 ^ 31
      → capacity ≤ p
      → p - capacity < fuel
      → (m : HashMap K V) × (create fuel capacity (some hash) (some equal) [] ≡ some (some m, []))
        × IsValid m
        × ((q : K) → view m q ≡ none)
        × IsPrime m.capacity
        × (capacity ≤ m.capacity)
        × (m.keys_equal_func ≡ equal)
  unfolding create
  create-IsValid fuel capacity p hash equal laws pos prime small le enough =
      let (q, run, q_prime, q_ge, _) =
        get_next_prime-IsPrime fuel capacity p prime small le enough in
      (
        record {
          buckets = replicate q none;
          capacity = q;
          size = 0;
          hash_func = hash;
          keys_equal_func = equal;
        },
        rw (ne→eqb capacity 0 (omega arith), run),
        record {
          laws = laws;
          wide = sym (length-replicate q none);
          roomy = omega arith;
          counted = sym (total-replicate K V q);
          once = λ k i. rw get_or-replicate (omega arith);
          at_home = λ k i away. rw get_or-replicate;
        },
        λ k. unfold view in rw get_or-replicate,
        q_prime,
        q_ge,
        refl,
      )

is_prime_101 : is_prime 102 101 ≡ some true
unfolding is_prime trial_division
is_prime_101 = refl

-- The number of buckets that both managers get.
pub IsPrime-101 : IsPrime 101
IsPrime-101 =
    let (b, run, prime, _) = is_prime-IsPrime 101 (omega arith) in
    prime (some-injective b true (sym run ∙ is_prime_101))
