-- ===== src/HashMap/Remove.antt =====
-- The removal of shared/adt/HashMap.c on a valid map.
use mathlib.Core.Path.{subst}
use mathlib.Core.Option.{some-injective}
use chat_project.Prelude.{
  true, ◌+◌, ◌-◌, ◌≡◌, refl, sym, Option, none, some, if◌then◌else◌, arith, inl, inr, Option-cases,
}
use chat_project.HashMap.{HashMap, MapResult, bucket, get_bucket_index, remove_at, remove}
use chat_project.HashMap.Chains.{Chain, find_in_list, remove_itr, to_nat}
use chat_project.HashMap.Chains.Search.{
  occurs-absent, value_of-absent, find_in_list-none, find_in_list-some, IsWithout,
}
use chat_project.HashMap.Buckets.{
  chain_at, view, Stored, IsValid, with_chain, get_bucket_index_congr, length-chain_at,
  with_chain-IsValid, view-with_chain,
}
use chat_project.HashMap.Find.{is_success, found_result}

module _ {ℓ} {K V : Type ℓ} where
  abbrev pub pair_value : Option (K × V) → Option V
  pair_value none = none
  pair_value (some p) = some p.1

  -- What a removal of `k` has done.
  pub record Removed (m : HashMap K V) (k : K) (r : MapResult) (out : Option (K × V))
      (m' : HashMap K V) : Type ℓ where
    pub valid : IsValid m'
    pub reads : (q : K) → view m' q ≡ (if m.keys_equal_func q k then none else view m q)
    pub sized : m.size ≡ m'.size + to_nat (is_success r)
    pub same_keys : m'.keys_equal_func ≡ m.keys_equal_func
    pub result : r ≡ (found_result (view m k)).0
    pub value : pair_value out ≡ view m k
    pub stored : (p : K × V) → out ≡ some p → Stored m p × (m.keys_equal_func k p.0 ≡ true)

  missing-Removed :
      (m : HashMap K V) (k : K) (v : IsValid m)
      → view m k ≡ none
      → Removed m k MapResult.key_not_found_error none m
  unfolding view
  missing-Removed m k v gone =
      let c = chain_at m (get_bucket_index m k) in
      record {
        valid = v;
        reads = λ q. ground (
          arith,
          get_bucket_index_congr v q k,
          occurs-absent v.laws c k q,
          value_of-absent v.laws c q,
        );
        sized = omega arith;
        same_keys = refl;
        result = rw gone;
        value = sym gone;
        stored = λ p e. cc;
      }

  taken-Removed :
      (m : HashMap K V) (v : IsValid m) (k : K) (c : Chain K V) (found : K × V)
      → IsWithout v.laws (chain_at m (get_bucket_index m k)) c k found
      → Removed m k MapResult.success (some found) (with_chain v k c (m.size - 1))
  unfolding view
  taken-Removed m v k c found w =
      let n = length-chain_at v k in
      record {
        valid =
            with_chain-IsValid v k c (m.size - 1) (omega (arith, w.shorter))
              (λ q. omega (arith, w.fewer q));
        reads =
            view-with_chain v k c (m.size - 1) none
              (λ q. w.lookup q (v.once q (get_bucket_index m k)));
        sized = omega (arith, w.shorter);
        same_keys = refl;
        result = rw w.found_value;
        value = sym w.found_value;
        stored = λ p e.
            let same : found ≡ p = some-injective _ _ e in
            subst (λ t. Stored m t × (m.keys_equal_func k t.0 ≡ true)) same
              ((get_bucket_index m k, w.stands), w.found_key);
      }

  remove_at-Removed :
      (m : HashMap K V) (v : IsValid m) (k : K)
      → let (r, out, m') = remove_at m (get_bucket_index m k) k in Removed m k r out m'
  unfolding remove_at
  remove_at-Removed m v k = elim (Option-cases (bucket m (get_bucket_index m k))) [
    | inl e ↦ rw (e, remove_at) (missing-Removed m k v (unfold view in rw e))
    | inr (c, e) ↦ elim (Option-cases (find_in_list m.keys_equal_func c k 0)) [
      | inl miss ↦
          rw (e, miss, remove_at)
            (missing-Removed m k v (unfold view in rw e (find_in_list-none v.laws c k 0 miss)))
      | inr (hit, got) ↦
          let (j, at, w) = find_in_list-some v.laws c k 0 got in
          let here : hit.itr ≡ j = omega arith in
          rw (e, got, here, remove_at) (taken-Removed m v k (remove_itr c j) hit.pair (rw e w))
    ]
  ]

  -- A removal keeps a valid map valid, returns the pair that the map stores under an equal key, that very
  -- key and value, or that there is none, and changes no other key; a key that was there is counted out.
  pub remove-Removed :
      (m : HashMap K V) (k : K)
      → IsValid m
      → let (r, out, map') = remove (some m) (some k) in
        (m' : HashMap K V) × (map' ≡ some m') × Removed m k r out m'
  unfolding remove
  remove-Removed m k v = (_, refl, remove_at-Removed m v k)
