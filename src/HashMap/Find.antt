-- ===== src/HashMap/Find.antt =====
-- The lookup of shared/adt/HashMap.c on a valid map.
use chat_project.Prelude.{
  ℕ, ◌≡◌, Bool, true, false, Option, none, some, arith, inl, inr, Option-cases,
}
use chat_project.HashMap.{HashMap, MapResult, bucket, get_bucket_index, find_at, find}
use chat_project.HashMap.Chains.{find_in_list, value_of}
use chat_project.HashMap.Chains.Search.{find_in_list-none, find_in_list-some}
use chat_project.HashMap.Buckets.{chain_at, view, IsValid}

abbrev pub is_success : MapResult → Bool
is_success MapResult.success = true
is_success _ = false

abbrev pub is_some {ℓ} : {A : Type ℓ} → Option A → Bool
is_some none = false
is_some (some a) = true

abbrev pub found_result {ℓ} : {V : Type ℓ} → Option V → MapResult × Option V
found_result none = (MapResult.key_not_found_error, none)
found_result (some v) = (MapResult.success, some v)

module _ {ℓ} {K V : Type ℓ} where
  find_at-value_of :
      (m : HashMap K V) (i : ℕ) (k : K)
      → IsValid m
      → find_at m i k ≡ found_result (value_of m.keys_equal_func (chain_at m i) k)
  unfolding find_at
  find_at-value_of m i k v = elim (Option-cases (bucket m i)) [
    | inl e ↦ rw (e, find_at)
    | inr (c, e) ↦ elim (Option-cases (find_in_list m.keys_equal_func c k 0)) [
      | inl miss ↦ rw (e, miss, find_at) (ground (arith, find_in_list-none v.laws c k 0))
      | inr (hit, got) ↦
          let (j, at, w) = find_in_list-some v.laws c k 0 got in
          rw (e, got, find_at) (ground (arith, w.found_value))
    ]
  ]

  -- In a valid map a lookup returns the value of the abstract map, or that the key is not there.
  pub find-view :
      (m : HashMap K V) (k : K) → IsValid m → find (some m) (some k) ≡ found_result (view m k)
  unfolding find view
  find-view m k v = find_at-value_of m (get_bucket_index m k) k v
