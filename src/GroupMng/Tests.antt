-- ===== src/GroupMng/Tests.antt =====
-- The groups of server/group_mng.c with one group in an index of one bucket.
use chat_project.Prelude.{ℕ, zero, suc, ◌≤◌, ◌≡◌, ◌≢◌, refl, some, [], ◌∷◌, arith}
use chat_project.Memory.{Bytes}
use chat_project.HashMap.{HashMap, get_bucket_index}
use chat_project.HashMap.Chains.{occurs}
use chat_project.HashMap.Buckets.{view, IsValid, chain_at}
use chat_project.HashUtils.{hash_string_djb2, str_eq, string_keys_equal}
use chat_project.HashUtils.Laws.{hash_key, equal_keys, hash_key-IsKey}
use chat_project.FreeMcQueue.{pair_of, codes}
use chat_project.FreeMcQueue.Tests.{two_free, two_free-HasFree}
use chat_project.Protocol.{ChatStatus}
use chat_project.GroupMng.{GroupMng, Group, join_group, leave_group}
use chat_project.GroupMng.Laws.{group_of, leave_group-join_group}
use chat_project.GroupMng.Leave.{Dissolved, leave_group-Dissolved}

-- One name in one bucket, which leads to the first of the store.
abbrev pub one_name : Bytes → HashMap Bytes ℕ
one_name name = record {
  buckets = some ((name, 0) ∷ []) ∷ [];
  capacity = 1;
  size = 1;
  hash_func = hash_key;
  keys_equal_func = equal_keys;
}

one_name-once : (name q : Bytes) (i : ℕ) → occurs equal_keys (chain_at (one_name name) i) q ≤ 1
one_name-once name q zero = ground arith
one_name-once name q (suc i) = omega arith

one_name-at_home :
    (name q : Bytes) (i : ℕ)
    → get_bucket_index (one_name name) q ≢ i
    → occurs equal_keys (chain_at (one_name name) i) q ≡ 0
unfolding get_bucket_index
one_name-at_home name q zero h = absurd (h (omega arith))
one_name-at_home name q (suc i) h = refl

pub one_name-IsValid : (name : Bytes) → IsValid (one_name name)
one_name-IsValid name = record {
  laws = hash_key-IsKey;
  wide = refl;
  roomy = omega arith;
  counted = refl;
  once = one_name-once name;
  at_home = one_name-at_home name;
}

abbrev chess : Bytes
chess = codes "chess"

abbrev chess_group : Group
chess_group = record {
  name = chess;
  mcast_ip = (pair_of 1).ip;
  mcast_port = 6000;
  member_count = 2;
}

abbrev one_group : GroupMng
one_group = record {
  groups_by_name = one_name chess;
  ip_pool = two_free;
  store = some chess_group ∷ [];
}

chess_found : group_of one_group chess ≡ some 0
unfolding view get_bucket_index hash_string_djb2 string_keys_equal str_eq
chess_found = refl

leave_group-join_group_example :
    ((join_group one_group chess).0 ≡ ChatStatus.st_ok)
    × ((join_group one_group chess).1 ≡ some 0)
    × (leave_group (join_group one_group chess).2 chess [] ≡ (ChatStatus.st_ok, one_group, []))
leave_group-join_group_example =
    leave_group-join_group one_group chess [] 0 chess_group (one_name-IsValid chess) chess_found
      refl (omega arith)

abbrev lone_group : Group
lone_group = record chess_group { member_count = 1 }

abbrev lone_manager : GroupMng
lone_manager = record one_group { store = some lone_group ∷ [] }

leave_group-Dissolved_example :
    ((leave_group lone_manager chess []).0 ≡ ChatStatus.st_ok)
    × Dissolved lone_manager
        (pair_of 3 ∷ pair_of 4 ∷ [])
        chess
        0
        lone_group
        []
        (leave_group lone_manager chess []).1
leave_group-Dissolved_example =
    leave_group-Dissolved lone_manager (pair_of 3 ∷ pair_of 4 ∷ []) chess 0 lone_group []
      (record { valid = one_name-IsValid chess; strings = refl; free = two_free-HasFree })
      (omega arith) chess_found refl (omega arith)
