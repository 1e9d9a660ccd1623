-- ===== src/HashMap.antt =====
-- The generic hash map of shared/adt/HashMap.c: separate chaining over lists that are created when
-- first used. A chain is the sequence of its pairs, and a list iterator is a position in it. A NULL
-- map or key is `none`. An operation that allocates takes the outcomes of the next calls of malloc.
pub mod Prime
pub mod Chains
pub mod Buckets
pub mod Find
pub mod Stored
pub mod Insert
pub mod Remove
pub mod Create
pub mod Walk
mod Tests
use chat_project.Prelude.{
  ℕ, zero, suc, ◌+◌, ◌-◌, ◌%◌, Bool, true, false, Option, none, some, List, [], ◌∷◌, ◌++◌, ◌==◌,
  if◌then◌else◌, set, replicate, get_or,
}
use chat_project.Malloc.{Mem, malloc}
use chat_project.HashMap.Prime.{get_next_prime}
use chat_project.HashMap.Chains.{Chain, FoundAt, find_in_list, remove_itr}

pub data MapResult : Type 0 where
  success uninitialized_error key_null_error : MapResult
  key_duplicate_error key_not_found_error allocation_error : MapResult

-- `struct HashMap`; a NULL bucket is `none`.
pub record HashMap {ℓ} (K V : Type ℓ) : Type ℓ where
  pub buckets : List (Option (Chain K V))
  pub capacity : ℕ
  pub size : ℕ
  pub hash_func : K → ℕ
  pub keys_equal_func : K → K → Bool

module _ {ℓ} {K V : Type ℓ} where
  -- `fuel` bounds the search for the next prime: `none` inside means that it ran out.
  unfoldable pub create :
      ℕ → ℕ → Option (K → ℕ) → Option (K → K → Bool) → Mem → Option (Option (HashMap K V) × Mem)
  create fuel capacity (some hash) (some equal) mem =
      if capacity == 0
      then some (none, mem)
      else let (map_ok, mem1) = malloc mem in
        if map_ok
        then elim (get_next_prime fuel capacity) [
          | none ↦ none
          | some prime ↦
              let (buckets_ok, mem2) = malloc mem1 in
              if buckets_ok
              then some (
                some (record {
                  buckets = replicate prime none;
                  capacity = prime;
                  size = 0;
                  hash_func = hash;
                  keys_equal_func = equal;
                }),
                mem2,
              )
              else some (none, mem2)
        ]
        else some (none, mem1)
  create fuel capacity _ _ mem = some (none, mem)

  unfoldable pub get_bucket_index : HashMap K V → K → ℕ
  get_bucket_index m key = m.hash_func key % m.capacity

  -- `_map->buckets[index]`; the invariant keeps the index in range.
  abbrev pub bucket : HashMap K V → ℕ → Option (Chain K V)
  bucket m index = get_or m.buckets index none

  -- The pair and its list node are allocated, and the pair goes to the tail of the chain.
  unfoldable pub push_pair :
      HashMap K V → ℕ → Chain K V → K → V → Mem → MapResult × HashMap K V × Mem
  push_pair m index chain key value mem =
      let (pair_ok, mem1) = malloc mem in
      if pair_ok
      then (let (node_ok, mem2) = malloc mem1 in
          if node_ok
          then (
            MapResult.success,
            record m {
              buckets = set m.buckets index (some (chain ++ (key, value) ∷ []));
              size = m.size + 1;
            },
            mem2,
          )
          else (MapResult.allocation_error, m, mem2))
      else (MapResult.allocation_error, m, mem1)

  unfoldable pub insert_at : HashMap K V → ℕ → K → V → Mem → MapResult × HashMap K V × Mem
  insert_at m index key value mem = elim (bucket m index) [
    | none ↦
        let (list_ok, mem1) = malloc mem in
        if list_ok
        then push_pair (record m { buckets = set m.buckets index (some []) }) index [] key value
            mem1
        else (MapResult.allocation_error, m, mem1)
    | some chain ↦ elim (find_in_list m.keys_equal_func chain key 0) [
      | some hit ↦ (MapResult.key_duplicate_error, m, mem)
      | none ↦ push_pair m index chain key value mem
    ]
  ]

  unfoldable pub insert :
      Option (HashMap K V) → Option K → V → Mem → MapResult × Option (HashMap K V) × Mem
  insert none key value mem = (MapResult.uninitialized_error, none, mem)
  insert (some m) none value mem = (MapResult.key_null_error, some m, mem)
  insert (some m) (some key) value mem =
      let (r, m', mem') = insert_at m (get_bucket_index m key) key value mem in (r, some m', mem')

  -- The removed key and value are what goes to `_pKey` and `_pValue`.
  unfoldable pub remove_at : HashMap K V → ℕ → K → MapResult × Option (K × V) × HashMap K V
  remove_at m index key = elim (bucket m index) [
    | none ↦ (MapResult.key_not_found_error, none, m)
    | some chain ↦ elim (find_in_list m.keys_equal_func chain key 0) [
      | none ↦ (MapResult.key_not_found_error, none, m)
      | some hit ↦ (
        MapResult.success,
        some hit.pair,
        record m {
          buckets = set m.buckets index (some (remove_itr chain hit.itr));
          size = m.size - 1;
        },
      )
    ]
  ]

  unfoldable pub remove :
      Option (HashMap K V) → Option K → MapResult × Option (K × V) × Option (HashMap K V)
  remove none key = (MapResult.uninitialized_error, none, none)
  remove (some m) none = (MapResult.key_null_error, none, some m)
  remove (some m) (some key) =
      let (r, out, m') = remove_at m (get_bucket_index m key) key in (r, out, some m')

  unfoldable pub find_at : HashMap K V → ℕ → K → MapResult × Option V
  find_at m index key = elim (bucket m index) [
    | none ↦ (MapResult.key_not_found_error, none)
    | some chain ↦ elim (find_in_list m.keys_equal_func chain key 0) [
      | none ↦ (MapResult.key_not_found_error, none)
      | some hit ↦ (MapResult.success, some hit.pair.1)
    ]
  ]

  unfoldable pub find : Option (HashMap K V) → Option K → MapResult × Option V
  find none key = (MapResult.uninitialized_error, none)
  find (some m) none = (MapResult.key_null_error, none)
  find (some m) (some key) = find_at m (get_bucket_index m key) key

  unfoldable pub size : Option (HashMap K V) → ℕ
  size none = 0
  size (some m) = m.size
