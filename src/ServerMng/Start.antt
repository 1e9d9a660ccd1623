-- ===== src/ServerMng/Start.antt =====
-- `ServerMng_Init` of server/server_mng.c if no allocation fails.
use chat_project.Prelude.{false, ℕ, ◌<◌, ◌≡◌, refl, ap, sym, ◌∙◌, Option, none, some, [], arith}
use chat_project.Memory.{Bytes}
use chat_project.FreeMcQueue
use chat_project.FreeMcQueue.{FreeMcQueue}
use chat_project.FreeMcQueue.Pool.{create-HasFree, pairs_from}
use chat_project.HashMap
use chat_project.HashMap.{HashMap}
use chat_project.HashMap.Create.{create-IsValid, IsPrime-101}
use chat_project.HashUtils.Laws.{hash_key, equal_keys, hash_key-IsKey}
use chat_project.GroupMng
use chat_project.GroupMng.{GroupMng}
use chat_project.GroupMng.Create.{IsInOrder}
use chat_project.UserMng
use chat_project.UserMng.{UserMng}
use chat_project.ServerMng.{ServerMng, init_users, init_groups, init_from, init}
use chat_project.ServerMng.Invariant.{IsSound}

abbrev fresh_groups : FreeMcQueue → HashMap Bytes ℕ → GroupMng
fresh_groups pool map = record { groups_by_name = map; ip_pool = pool; store = [] }

abbrev fresh_users : HashMap Bytes ℕ → UserMng
fresh_users map = record { users_by_name = map; active_sockets = λ fd. none; store = [] }

groups_created :
    (fuel : ℕ) (pool : FreeMcQueue) (map : HashMap Bytes ℕ)
    → HashMap.create fuel 100 (some hash_key) (some equal_keys) [] ≡ some (some map, [])
    → GroupMng.create fuel pool [] ≡ some (some (fresh_groups pool map), [])
unfolding GroupMng.create
groups_created fuel pool map run = rw run

users_created :
    (fuel : ℕ) (map : HashMap Bytes ℕ)
    → HashMap.create fuel 100 (some hash_key) (some equal_keys) [] ≡ some (some map, [])
    → UserMng.create fuel [] ≡ some (some (fresh_users map), [])
unfolding UserMng.create
users_created fuel map run = rw run

abbrev fresh_server : FreeMcQueue → HashMap Bytes ℕ → ServerMng
fresh_server pool map = record {
  user_mng = fresh_users map;
  group_mng = fresh_groups pool map;
  mem = [];
  sent = [];
  faulted = false;
}

groups_then :
    (fuel : ℕ) (pool : FreeMcQueue) (groups : GroupMng)
    → GroupMng.create fuel pool [] ≡ some (some groups, [])
    → init_groups fuel pool [] ≡ init_users fuel groups []
unfolding init_groups
groups_then fuel pool groups run = rw (run, init_groups)

users_then :
    (fuel : ℕ) (groups : GroupMng) (users : UserMng)
    → UserMng.create fuel [] ≡ some (some users, [])
    → init_users fuel groups []
      ≡ some (
        some
            (record { user_mng = users; group_mng = groups; mem = []; sent = []; faulted = false }),
        [],
      )
unfolding init_users
users_then fuel groups users run = rw (run, init_users)

initialised :
    (fuel : ℕ) (pool : FreeMcQueue) (map : HashMap Bytes ℕ)
    → FreeMcQueue.create [] ≡ (some pool, [])
    → GroupMng.create fuel pool [] ≡ some (some (fresh_groups pool map), [])
    → UserMng.create fuel [] ≡ some (some (fresh_users map), [])
    → init fuel [] ≡ some (some (fresh_server pool map), [])
unfolding init
initialised fuel pool map pools groups users =
    ap (init_from fuel) pools
    ∙ groups_then fuel pool (fresh_groups pool map) groups
    ∙ users_then fuel (fresh_groups pool map) (fresh_users map) users

-- With fuel for two candidates in each search for a prime, and if no allocation fails, the server
-- starts: its sockets and users are paired, both indices of names are in order, and the 255 addresses
-- are free.
pub init-IsSound :
    (fuel : ℕ)
    → 1 < fuel
    → (s : ServerMng) × (init fuel [] ≡ some (some s, []))
      × IsSound s.user_mng
      × IsInOrder s.group_mng (pairs_from 1 255)
init-IsSound fuel enough =
    let (pool, pools, free) = create-HasFree in
    let (map, run, valid, empty, _, _, strings) =
      create-IsValid {V = ℕ} fuel 100 101 hash_key equal_keys hash_key-IsKey (omega arith)
        IsPrime-101 (omega arith) (omega arith) (omega arith) in
    (
      fresh_server pool map,
      initialised fuel pool map pools (groups_created fuel pool map run)
          (users_created fuel map run),
      record {
        paired = record { leads = λ fd p e. cc; leads_back = λ p fd e. cc; online = λ p. refl };
        indexed = record {
          valid = valid;
          strings = strings;
          named =
              λ name p e. let never : Path (Option ℕ) none (some p) = sym (empty name) ∙ e in cc;
        };
      },
      record { valid = valid; strings = strings; free = free },
    )
