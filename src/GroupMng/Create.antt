-- ===== src/GroupMng/Create.antt =====
-- The creation of a group in server/group_mng.c, whatever allocations fail.
use chat_project.Prelude.{
  ℕ, ◌+◌, ◌<◌, ◌≡◌, ◌⊎◌, true, false, Option, none, some, List, [], ◌∷◌, ◌++◌, length,
  if◌then◌else◌, ◌&&◌,
}
use chat_project.Memory.{Bytes}
use chat_project.Malloc.{Mem, malloc, failures}
use chat_project.HashMap
use chat_project.HashMap.{HashMap}
use chat_project.HashMap.Buckets.{IsValid}
use chat_project.HashMap.Find.{is_some}
use chat_project.HashUtils.Laws.{equal_keys}
use chat_project.FreeMcQueue.{McastPair, pool_size}
use chat_project.FreeMcQueue
use chat_project.FreeMcQueue.Pool.{HasFree, head_of, tail_of, return-HasFree}
use chat_project.Protocol.{ChatStatus, is_ok}
use chat_project.GroupMng.{GroupMng, Group, deref, give_back}
use chat_project.GroupMng.Laws.{group_of}

-- The manager is in order, and the free addresses are `xs`.
pub record IsInOrder (mng : GroupMng) (xs : List McastPair) : Type 0 where
  pub valid : IsValid mng.groups_by_name
  pub strings : mng.groups_by_name.keys_equal_func ≡ equal_keys
  pub free : HasFree mng.ip_pool xs

abbrev pub first_group : Bytes → McastPair → Group
first_group name pair = record {
  name = name;
  mcast_ip = pair.ip;
  mcast_port = pair.port;
  member_count = 1;
}

-- The pair is free again behind the others, and `n` calls of malloc have failed, or it is lost, and one
-- more has.
abbrev pub GivenBack : GroupMng → List McastPair → McastPair → ℕ → Mem → Mem → Type 0
GivenBack mng xs pair n mem mem' =
    (IsInOrder mng (xs ++ pair ∷ []) × (failures mem ≡ failures mem' + n))
    ⊎ (IsInOrder mng xs × (failures mem ≡ failures mem' + n + 1))

-- What the creation of a group has done with the free addresses `xs`; its calls of malloc take the
-- outcomes from `mem` to `mem'`.
pub record Created (mng : GroupMng) (xs : List McastPair) (name : Bytes) (mem : Mem)
    (status : ChatStatus) (out : Option ℕ) (mng' : GroupMng) (mem' : Mem) : Type 0 where
  pub lookup :
      (q : Bytes)
      → group_of mng' q ≡ (if is_ok status && equal_keys q name then out else group_of mng q)
  pub taken : is_some (group_of mng name) ≡ true → (status ≡ ChatStatus.group_exists) × (mng' ≡ mng)
  pub none_free :
      is_some (group_of mng name) ≡ false
      → head_of xs ≡ none
      → (status ≡ ChatStatus.server_full) × IsInOrder mng' xs
  pub made :
      status ≡ ChatStatus.st_ok
      → (pair : McastPair) × (head_of xs ≡ some pair)
        × IsInOrder mng' (tail_of xs)
        × (p : ℕ) × (out ≡ some p)
        × (deref mng' p ≡ some (first_group name pair))
        × (failures mem ≡ failures mem')
  pub failed :
      status ≡ ChatStatus.protocol
      → (pair : McastPair) × (head_of xs ≡ some pair) × GivenBack mng' (tail_of xs) pair 1 mem mem'

-- A pair that is given back is free again, unless the call of malloc for it fails.
pub give_back-IsInOrder :
    (mng : GroupMng) (xs : List McastPair) (pair : McastPair) (mem : Mem)
    → IsInOrder mng xs
    → length xs < pool_size
    → IsInOrder (give_back mng pair mem).0 (if (malloc mem).0 then xs ++ pair ∷ [] else xs)
give_back-IsInOrder mng xs pair mem w room =
    let (done, free) = return-HasFree mng.ip_pool xs pair mem w.free room in
    record { valid = w.valid; strings = w.strings; free = rw done at free }
