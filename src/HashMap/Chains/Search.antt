-- ===== src/HashMap/Chains/Search.antt =====
-- What the search through a chain and the removal at an iterator do to the lookup of a key.
use chat_project.Prelude.{
  ℕ, suc, ◌+◌, ◌≤◌, ◌≡◌, refl, ap, Bool, true, Option, none, some, [], ◌∷◌, ◌++◌, if◌then◌else◌,
  arith, length, inl, inr, Bool-cases,
}
use chat_project.HashMap.Chains.{
  Chain, FoundAt, find_in_list, remove_itr, IsIn, IsKey, to_nat, value_of, occurs,
}

module _ {ℓ} {K : Type ℓ} {hash : K → ℕ} {equal : K → K → Bool} (laws : IsKey hash equal) where
  equal_congr : (a b c : K) → equal a b ≡ true → equal a c ≡ equal b c
  equal_congr a b c e =
      ground (arith, laws.symmetric a b, laws.transitive a b c, laws.transitive b a c)

  equal_congr_right : (a b c : K) → equal b c ≡ true → equal a b ≡ equal a c
  equal_congr_right a b c e =
      ground (arith, laws.symmetric b c, laws.transitive a b c, laws.transitive a c b)

module _ {ℓ} {K V : Type ℓ} {hash : K → ℕ} {equal : K → K → Bool} (laws : IsKey hash equal) where
  pub value_of-absent : (c : Chain K V) (q : K) → occurs equal c q ≡ 0 → value_of equal c q ≡ none
  value_of-absent [] q h = refl
  value_of-absent (e ∷ c) q h = ground (arith, value_of-absent c q)

  pub occurs-absent :
      (c : Chain K V) (k q : K)
      → value_of equal c k ≡ none
      → equal q k ≡ true
      → occurs equal c q ≡ 0
  occurs-absent [] k q h same = refl
  occurs-absent ((a, v) ∷ c) k q h same =
      ground (arith, occurs-absent c k q, equal_congr laws q k a same)

  pub value_of-append :
      (c : Chain K V) (k : K) (v : V) (q : K)
      → value_of equal c k ≡ none
      → value_of equal (c ++ (k, v) ∷ []) q ≡ (if equal q k then some v else value_of equal c q)
  value_of-append [] k v q h = refl
  value_of-append ((a, w) ∷ c) k v q h =
      ground (arith, value_of-append c k v q, equal_congr laws q k a)

  pub occurs-append :
      (c : Chain K V) (k : K) (v : V) (q : K)
      → occurs equal (c ++ (k, v) ∷ []) q ≡ occurs equal c q + to_nat (equal q k)
  occurs-append [] k v q = omega arith
  occurs-append (e ∷ c) k v q = omega (arith, occurs-append c k v q)

  -- A search that finds nothing shows that the key is absent.
  pub find_in_list-none :
      (c : Chain K V) (k : K) (i : ℕ) → find_in_list equal c k i ≡ none → value_of equal c k ≡ none
  unfolding find_in_list
  find_in_list-none [] k i h = refl
  find_in_list-none ((a, w) ∷ c) k i h = ground (arith, find_in_list-none c k (i + 1))

  abbrev pair_of_hit : Option (FoundAt K V) → Option (K × V)
  pair_of_hit none = none
  pair_of_hit (some hit) = some hit.pair

  -- `c'` is `c` without the one pair `found` that has the key `k`.
  pub record IsWithout (c c' : Chain K V) (k : K) (found : K × V) : Type ℓ where
    pub found_value : value_of equal c k ≡ some found.1
    pub found_key : equal k found.0 ≡ true
    pub stands : IsIn c found
    pub shorter : length c ≡ length c' + 1
    pub fewer : (q : K) → occurs equal c' q ≤ occurs equal c q
    pub lookup :
        (q : K)
        → occurs equal c q ≤ 1
        → value_of equal c' q ≡ (if equal q k then none else value_of equal c q)

  -- A search that finds a pair stores an iterator at which the removal takes out that pair.
  pub find_in_list-some :
      (c : Chain K V) (k : K) (i : ℕ) {hit : FoundAt K V}
      → find_in_list equal c k i ≡ some hit
      → (j : ℕ) × (hit.itr ≡ i + j) × IsWithout c (remove_itr c j) k hit.pair
  unfolding find_in_list remove_itr
  find_in_list-some [] k i h = cc
  find_in_list-some ((a, w) ∷ c) k i {hit} h = elim (Bool-cases (equal k a)) [
    | inl same ↦ (
      0,
      ground arith,
      record {
        found_value = ground arith;
        found_key = ground arith;
        stands = (0, ap pair_of_hit (rw (same, find_in_list) at h));
        shorter = omega arith;
        fewer = λ q. omega arith;
        lookup = λ q once. ground (arith, equal_congr_right laws q k a same, value_of-absent c q);
      },
    )
    | inr other ↦
        let (j, at, w) =
          find_in_list-some c k (i + 1) {hit = hit} (rw (other, find_in_list) at h) in
        (
          suc j,
          omega arith,
          record {
            found_value = ground (arith, w.found_value);
            found_key = w.found_key;
            stands = (suc w.stands.0, w.stands.1);
            shorter = omega (arith, w.shorter);
            fewer = λ q. omega (arith, w.fewer q);
            lookup = λ q once. ground (arith, w.lookup q, equal_congr laws q k a);
          },
        )
  ]
