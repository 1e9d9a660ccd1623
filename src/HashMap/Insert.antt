-- ===== src/HashMap/Insert.antt =====
-- The insertion of shared/adt/HashMap.c on a valid map, whatever allocations fail.
use chat_project.Prelude.{
  ◌+◌, ◌≡◌, ◌⊎◌, refl, ap, ◌∙◌, Bool, true, false, ◌&&◌, none, some, [], ◌∷◌, ◌++◌, if◌then◌else◌,
  arith, length-append, inl, inr, Bool-cases, Option-cases, set,
}
use chat_project.Malloc.{Mem, malloc, failures, failures-malloc_ok, failures-malloc_null}
use chat_project.HashMap.{
  HashMap, MapResult, bucket, get_bucket_index, push_pair, insert_at, insert,
}
use chat_project.HashMap.Chains.{find_in_list, to_nat}
use chat_project.HashMap.Chains.Search.{
  value_of-append, occurs-append, occurs-absent, find_in_list-none, find_in_list-some,
}
use chat_project.HashMap.Buckets.{
  chain_at, view, IsValid, with_chain, chain_at-with_chain, get_bucket_index-with_chain,
  with_chain-IsValid, view-with_chain,
}
use chat_project.HashMap.Find.{is_success, is_some}

abbrev pub is_allocation_error : MapResult → Bool
is_allocation_error MapResult.allocation_error = true
is_allocation_error _ = false

module _ {ℓ} {K V : Type ℓ} where
  -- What an insertion of `x` under `k` has done; its calls of malloc take the outcomes from `mem` to
  -- `mem'`.
  pub record Inserted (m : HashMap K V) (k : K) (x : V) (mem : Mem) (r : MapResult)
      (m' : HashMap K V) (mem' : Mem) : Type ℓ where
    pub valid : IsValid m'
    pub reads :
        (q : K) → view m' q ≡ (if is_success r && m.keys_equal_func q k then some x else view m q)
    pub sized : m'.size ≡ m.size + to_nat (is_success r)
    pub same_keys : m'.keys_equal_func ≡ m.keys_equal_func
    pub refused : is_some (view m k) ≡ true → r ≡ MapResult.key_duplicate_error
    pub tried :
        is_some (view m k) ≡ false → (r ≡ MapResult.success) ⊎ (r ≡ MapResult.allocation_error)
    pub spent : failures mem ≡ failures mem' + to_nat (is_allocation_error r)

  refused-Inserted :
      (m : HashMap K V) (k : K) (x : V) (mem mem' : Mem)
      → IsValid m
      → view m k ≡ none
      → failures mem ≡ failures mem' + 1
      → Inserted m k x mem MapResult.allocation_error m mem'
  refused-Inserted m k x mem mem' v absent count = record {
    spent = count;
    valid = v;
    reads = λ q. refl;
    sized = omega arith;
    same_keys = refl;
    refused = λ here. ground (arith, absent);
    tried = λ _. inr refl;
  }

  duplicate-Inserted :
      (m : HashMap K V) (k : K) (x : V) (mem : Mem)
      → IsValid m
      → (old : V) → view m k ≡ some old
      → Inserted m k x mem MapResult.key_duplicate_error m mem
  duplicate-Inserted m k x mem v old here = record {
    spent = omega arith;
    valid = v;
    reads = λ q. refl;
    sized = omega arith;
    same_keys = refl;
    refused = λ _. refl;
    tried = λ absent. ground (arith, here);
  }

  -- The chain with the new pair at its tail.
  appended-Inserted :
      (m : HashMap K V) (v : IsValid m) (k : K) (x : V) (mem mem' : Mem)
      → view m k ≡ none
      → failures mem ≡ failures mem'
      → Inserted m k x mem MapResult.success
          (with_chain v k (chain_at m (get_bucket_index m k) ++ (k, x) ∷ []) (m.size + 1))
          mem'
  unfolding view
  appended-Inserted m v k x mem mem' absent count =
      let c = chain_at m (get_bucket_index m k) in
      record {
        valid =
            with_chain-IsValid v k (c ++ (k, x) ∷ []) (m.size + 1)
              (omega (arith, length-append c ((k, x) ∷ [])))
              (λ q. ground (arith, occurs-append v.laws c k x q, occurs-absent v.laws c k q));
        reads =
            view-with_chain v k (c ++ (k, x) ∷ []) (m.size + 1) (some x)
              (λ q. value_of-append v.laws c k x q absent);
        sized = refl;
        same_keys = refl;
        refused = λ here. ground (arith, absent);
        tried = λ _. inl refl;
        spent = omega (arith, count);
      }

  push_pair-Inserted :
      (m : HashMap K V) (v : IsValid m) (k : K) (x : V) (mem : Mem)
      → view m k ≡ none
      → let (r, m', mem') =
          push_pair m (get_bucket_index m k) (chain_at m (get_bucket_index m k)) k x mem in
        Inserted m k x mem r m' mem'
  unfolding push_pair
  push_pair-Inserted m v k x mem absent =
      let mem1 = (malloc mem).1 in
      let mem2 = (malloc mem1).1 in
      elim (Bool-cases (malloc mem).0) [
        | inr full ↦
            rw full (refused-Inserted m k x mem mem1 v absent (failures-malloc_null mem full))
        | inl pair_ok ↦
            let first = failures-malloc_ok mem pair_ok in
            elim (Bool-cases (malloc mem1).0) [
              | inr full ↦
                  rw (pair_ok, full)
                    (refused-Inserted m k x mem mem2 v absent
                      (first ∙ failures-malloc_null mem1 full))
              | inl node_ok ↦
                  rw (pair_ok, node_ok)
                    (appended-Inserted m v k x mem mem2 absent
                      (first ∙ failures-malloc_ok mem1 node_ok))
            ]
      ]

  -- The bucket that was NULL holds an empty list now.
  opened : HashMap K V → K → HashMap K V
  opened m k = record m { buckets = set m.buckets (get_bucket_index m k) (some []) }

  opened-IsValid :
      (m : HashMap K V) (v : IsValid m) (k : K)
      → bucket m (get_bucket_index m k) ≡ none
      → IsValid (opened m k) × ((q : K) → view (opened m k) q ≡ view m q)
  unfolding opened view
  opened-IsValid m v k e = (
    with_chain-IsValid v k [] m.size (rw e (omega arith)) (λ q. omega arith),
    λ q.
        rw (chain_at-with_chain v k [] m.size (get_bucket_index (opened m k) q))
          (ground (arith, e, get_bucket_index-with_chain v k [] m.size q)),
  )

  opened-chain :
      (m : HashMap K V) (v : IsValid m) (k : K) → chain_at (opened m k) (get_bucket_index m k) ≡ []
  unfolding opened
  opened-chain m v k = chain_at-with_chain v k [] m.size (get_bucket_index m k) ∙ ground arith

  opened-Inserted :
      (m : HashMap K V) (k : K) (x : V) (mem mem1 : Mem) (r : MapResult) (m' : HashMap K V)
      (mem' : Mem)
      → ((q : K) → view (opened m k) q ≡ view m q)
      → failures mem ≡ failures mem1
      → Inserted (opened m k) k x mem1 r m' mem'
      → Inserted m k x mem r m' mem'
  unfolding opened
  opened-Inserted m k x mem mem1 r m' mem' same count w = record {
    spent = count ∙ w.spent;
    valid = w.valid;
    reads = λ q.
        w.reads q ∙ ap (λ t. if is_success r && m.keys_equal_func q k then some x else t) (same q);
    sized = w.sized;
    same_keys = w.same_keys;
    refused = λ here. w.refused (ap is_some (same k) ∙ here);
    tried = λ absent. w.tried (ap is_some (same k) ∙ absent);
  }

  push_opened-Inserted :
      (m : HashMap K V) (v : IsValid m) (k : K) (x : V) (mem mem1 : Mem)
      → bucket m (get_bucket_index m k) ≡ none
      → failures mem ≡ failures mem1
      → let (r, m', mem') = push_pair (opened m k) (get_bucket_index m k) [] k x mem1 in
        Inserted m k x mem r m' mem'
  unfolding get_bucket_index opened push_pair
  push_opened-Inserted m v k x mem mem1 e count =
      let (v', same) = opened-IsValid m v k e in
      let gone : view m k ≡ none = (unfold view in rw e) in
      let absent = same k ∙ gone in
      opened-Inserted m k x mem mem1 _ _ _ same count
        (rw (opened-chain m v k) at (push_pair-Inserted (opened m k) v' k x mem1 absent))

  insert_at-Inserted :
      (m : HashMap K V) (v : IsValid m) (k : K) (x : V) (mem : Mem)
      → let (r, m', mem') = insert_at m (get_bucket_index m k) k x mem in
        Inserted m k x mem r m' mem'
  unfolding insert_at
  insert_at-Inserted m v k x mem = elim (Option-cases (bucket m (get_bucket_index m k))) [
    | inl e ↦ elim (Bool-cases (malloc mem).0) [
      | inr full ↦
          rw (e, full, insert_at)
            (refused-Inserted m k x mem (malloc mem).1 v (unfold view in rw e)
              (failures-malloc_null mem full))
      | inl list_ok ↦
          rw (e, list_ok, insert_at)
            (unfold opened in
              push_opened-Inserted m v k x mem (malloc mem).1 e (failures-malloc_ok mem list_ok))
    ]
    | inr (c, e) ↦ elim (Option-cases (find_in_list m.keys_equal_func c k 0)) [
      | inl miss ↦
          rw (e, miss, insert_at)
            (rw e at (
              push_pair-Inserted m v k x mem
                (unfold view in rw e (find_in_list-none v.laws c k 0 miss))))
      | inr (hit, got) ↦
          let (j, at, w) = find_in_list-some v.laws c k 0 got in
          rw (e, got, insert_at)
            (duplicate-Inserted m k x mem v hit.pair.1 (unfold view in rw e w.found_value))
    ]
  ]

  -- An insertion keeps a valid map valid. A key that is there is refused and nothing changes. Otherwise
  -- the pair is added and no call of malloc has failed, or exactly one has, the insertion answers so and
  -- nothing changes.
  pub insert-Inserted :
      (m : HashMap K V) (k : K) (x : V) (mem : Mem)
      → IsValid m
      → let (r, out, mem') = insert (some m) (some k) x mem in
        (m' : HashMap K V) × (out ≡ some m') × Inserted m k x mem r m' mem'
  unfolding insert
  insert-Inserted m k x mem v = (_, refl, insert_at-Inserted m v k x mem)
