-- ===== src/GroupMng.antt =====
-- The groups of server/group_mng.c. A `Group *` is an index into the store of groups; a freed group
-- is `none` there. The pool that the manager refers to is used by nothing else, so it is a part of
-- its state. The NULL tests on its arguments are left out: the server passes what exists.
pub mod Laws
pub mod Create
pub mod Leave
pub mod Tests
use chat_project.Prelude.{
  ℕ, zero, suc, ◌+◌, ◌-◌, Bool, true, false, Option, none, some, List, [], ◌∷◌, ◌++◌, ltb, ◌==◌,
  if◌then◌else◌, get_or, set, length, take,
}
use chat_project.Memory.{Bytes}
use chat_project.Malloc.{Mem, malloc}
use chat_project.HashMap
use chat_project.HashMap.{HashMap, MapResult}
use chat_project.HashUtils.Laws.{hash_key, equal_keys}
use chat_project.FreeMcQueue
use chat_project.FreeMcQueue.{FreeMcQueue, McastPair}
use chat_project.Protocol.{ChatStatus, chat_max_groupname_len}

-- `Group` of server/group.h
pub record Group : Type 0 where
  pub name : Bytes
  pub mcast_ip : Bytes
  pub mcast_port : ℕ
  pub member_count : ℕ

-- `struct GroupMng`, with the store that its pointers lead to.
pub record GroupMng : Type 0 where
  pub groups_by_name : HashMap Bytes ℕ
  pub ip_pool : FreeMcQueue
  pub store : List (Option Group)

-- `fuel` is that of the search for a prime in `HashMap_Create`.
unfoldable pub create : ℕ → FreeMcQueue → Mem → Option (Option GroupMng × Mem)
create fuel pool mem =
    let (mng_ok, mem1) = malloc mem in
    if mng_ok
    then elim (HashMap.create {V = ℕ} fuel 100 (some hash_key) (some equal_keys) mem1) [
      | none ↦ none
      | some r ↦ elim r.0 [
        | none ↦ some (none, r.1)
        | some map ↦ some (some (record { groups_by_name = map; ip_pool = pool; store = [] }), r.1)
      ]
    ]
    else some (none, mem1)

-- What a pointer leads to; a freed group and a wild pointer are `none`.
abbrev pub deref : GroupMng → ℕ → Option Group
deref mng p = get_or mng.store p none

-- `strncpy(dst, src, n); dst[n] = '\0';` on a C string
abbrev pub copy_name : ℕ → Bytes → Bytes
copy_name n src = take n src

abbrev pub map_ok : MapResult → Bool
map_ok MapResult.success = true
map_ok _ = false

abbrev pub give_back : GroupMng → McastPair → Mem → GroupMng × Mem
give_back mng pair mem =
    let (done, pool, mem') = FreeMcQueue.return mng.ip_pool pair mem in
    (record mng { ip_pool = pool }, mem')

-- The fourth step: the new group is put into the map, or it is freed and its pair given back.
unfoldable pub insert_group :
    GroupMng → Group → McastPair → Mem → ChatStatus × Option ℕ × GroupMng × Mem
insert_group mng group pair mem =
    let p = length mng.store in
    let (r, map, mem1) = HashMap.insert (some mng.groups_by_name) (some group.name) p mem in
    elim map [
      | none ↦ (ChatStatus.protocol, none, mng, mem1)
      | some map' ↦
          if map_ok r
          then (
            ChatStatus.st_ok,
            some p,
            record mng { groups_by_name = map'; store = mng.store ++ some group ∷ [] },
            mem1,
          )
          else (let (mng', mem2) =
                give_back (record mng { groups_by_name = map'; store = mng.store ++ none ∷ [] })
                  pair mem1 in
              (ChatStatus.protocol, none, mng', mem2))
    ]

-- The pointer is what goes to `*_outGroup`.
unfoldable pub create_group : GroupMng → Bytes → Mem → ChatStatus × Option ℕ × GroupMng × Mem
create_group mng group_name mem =
    let (found, dummy) = HashMap.find (some mng.groups_by_name) (some group_name) in
    if map_ok found
    then (ChatStatus.group_exists, none, mng, mem)
    else let (taken, pool) = FreeMcQueue.take mng.ip_pool in
      elim taken [
        | none ↦ (ChatStatus.server_full, none, record mng { ip_pool = pool }, mem)
        | some pair ↦
            let mng1 = record mng { ip_pool = pool } in
            let (group_ok, mem1) = malloc mem in
            if group_ok
            then insert_group mng1
                (record {
                  name = copy_name chat_max_groupname_len group_name;
                  mcast_ip = pair.ip;
                  mcast_port = pair.port;
                  member_count = 1;
                })
                pair mem1
            else (let (mng2, mem2) = give_back mng1 pair mem1 in
                (ChatStatus.protocol, none, mng2, mem2))
      ]

-- `group->member_count = n`
abbrev pub set_count : GroupMng → ℕ → Group → ℕ → GroupMng
set_count mng p group n = record mng {
  store = set mng.store p (some (record group { member_count = n }));
}

-- A read through a wild pointer, which the manager's invariant excludes, leaves the state alone.
unfoldable pub join_group : GroupMng → Bytes → ChatStatus × Option ℕ × GroupMng
join_group mng group_name =
    let (found, value) = HashMap.find (some mng.groups_by_name) (some group_name) in
    elim value [
      | none ↦ (ChatStatus.group_not_found, none, mng)
      | some p ↦ elim (deref mng p) [
        | none ↦ (ChatStatus.st_ok, some p, mng)
        | some group ↦ (ChatStatus.st_ok, some p, set_count mng p group (group.member_count + 1))
      ]
    ]

-- An empty group is destroyed: its pair goes back to the pool, and the pointer that the map gives
-- up is freed.
unfoldable pub destroy_group : GroupMng → Bytes → Group → Mem → GroupMng × Mem
destroy_group mng group_name group mem =
    let (mng1, mem1) =
      give_back mng (record { ip = group.mcast_ip; port = group.mcast_port }) mem in
    let (r, removed, map) = HashMap.remove (some mng1.groups_by_name) (some group_name) in
    elim map [
      | none ↦ (mng1, mem1)
      | some map' ↦ elim removed [
        | none ↦ (record mng1 { groups_by_name = map' }, mem1)
        | some kv ↦ (record mng1 { groups_by_name = map'; store = set mng1.store kv.1 none }, mem1)
      ]
    ]

unfoldable pub leave_group : GroupMng → Bytes → Mem → ChatStatus × GroupMng × Mem
leave_group mng group_name mem =
    let (found, value) = HashMap.find (some mng.groups_by_name) (some group_name) in
    elim value [
      | none ↦ (ChatStatus.group_not_found, mng, mem)
      | some p ↦ elim (deref mng p) [
        | none ↦ (ChatStatus.st_ok, mng, mem)
        | some group ↦
            let count = group.member_count - 1 in
            let mng1 = set_count mng p group count in
            if count == 0
            then (let (mng2, mem1) = destroy_group mng1 group_name group mem in
                (ChatStatus.st_ok, mng2, mem1))
            else (ChatStatus.st_ok, mng1, mem)
      ]
    ]
