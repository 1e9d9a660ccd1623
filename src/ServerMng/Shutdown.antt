-- ===== src/ServerMng/Shutdown.antt =====
-- The end of the server: `FreeMcQueue_Destroy` (server/free_mc_queue.c), `GroupMng_Destroy`
-- (server/group_mng.c), `UserMng_Destroy` (server/user_mng.c), `ServerMng_Destroy` (server/server_mng.c)
-- and `main` (server/server_main.c). What is freed is collected, in order.
use chat_project.Prelude.{ℕ, Bool, true, false, Option, none, some, List, [], ◌∷◌, ◌++◌, get_elem?}
use chat_project.Memory.{Bytes}
use chat_project.Malloc.{Mem, malloc}
use chat_project.FreeMcQueue.{FreeMcQueue, McastPair}
use chat_project.GroupMng.{GroupMng}
use chat_project.HashMap.Walk
use chat_project.HashMap.Walk.{Destroyed, entries, values, destroy-values}
use chat_project.Queue
use chat_project.UserMng.{UserMng, User}
use chat_project.Net.Loop
use chat_project.Net.Loop.{ServerNet, Turn}
use chat_project.ServerMng.{ServerMng, init, handle_message, on_disconnect}

-- A block that is freed: a user, a string in the list of a user's groups, a group, a pair of the pool.
pub data Freed : Type 0 where
  user : ℕ → Freed
  joined_group : Bytes → Freed
  group : ℕ → Freed
  pair : Option McastPair → Freed

-- What a callback for values does in the calls that `HashMap_Destroy` makes.
abbrev pub on_values : (ℕ → List Freed) → List (Destroyed Bytes ℕ) → List Freed
on_values free [] = []
on_values free (Destroyed.key k ∷ calls) = on_values free calls
on_values free (Destroyed.value v ∷ calls) = free v ++ on_values free calls

abbrev pub free_joined : List Bytes → List Freed
free_joined [] = []
free_joined (name ∷ names) = Freed.joined_group name ∷ free_joined names

unfoldable pub destroy_user_callback : List User → ℕ → List Freed
destroy_user_callback store p = elim (get_elem? store p) [
  | none ↦ Freed.user p ∷ []
  | some u ↦ free_joined u.joined_groups ++ Freed.user p ∷ []
]

unfoldable pub user_mng_destroy : Option UserMng → List Freed × Option UserMng
user_mng_destroy none = ([], none)
user_mng_destroy (some mng) = (
  on_values (destroy_user_callback mng.store) (Walk.destroy (some mng.users_by_name) false true).0,
  none,
)

abbrev pub destroy_group_callback : ℕ → List Freed
destroy_group_callback p = Freed.group p ∷ []

unfoldable pub group_mng_destroy : Option GroupMng → List Freed × Option GroupMng
group_mng_destroy none = ([], none)
group_mng_destroy (some mng) =
    (on_values destroy_group_callback (Walk.destroy (some mng.groups_by_name) false true).0, none)

abbrev pub free_pairs : List (Option McastPair) → List Freed
free_pairs [] = []
free_pairs (p ∷ ps) = Freed.pair p ∷ free_pairs ps

unfoldable pub free_mc_queue_destroy : Option FreeMcQueue → List Freed × Option FreeMcQueue
free_mc_queue_destroy none = ([], none)
free_mc_queue_destroy (some queue) = (free_pairs (Queue.destroy queue.pool true).0, none)

-- The three global pointers.
pub record Globals : Type 0 where
  pub user_mng : Option UserMng
  pub group_mng : Option GroupMng
  pub mc_queue : Option FreeMcQueue

-- A callee tests its pointer as well, so the tests for NULL here change nothing.
unfoldable pub server_mng_destroy : Globals → List Freed × Globals
server_mng_destroy g =
    let (users, user_mng) = user_mng_destroy g.user_mng in
    let (groups, group_mng) = group_mng_destroy g.group_mng in
    let (pairs, mc_queue) = free_mc_queue_destroy g.mc_queue in
    (
      users ++ (groups ++ pairs),
      record { user_mng = user_mng; group_mng = group_mng; mc_queue = mc_queue },
    )

abbrev pub globals_of : ServerMng → Globals
globals_of s = record {
  user_mng = some s.user_mng;
  group_mng = some s.group_mng;
  mc_queue = some s.group_mng.ip_pool;
}

-- How the process ends: EXIT_SUCCESS is true; then the blocks that are freed, and the descriptors that
-- are closed at the end.
pub record Exit : Type 0 where
  pub success : Bool
  pub freed : List Freed
  pub closed : List ℕ

-- `main` behind the main loop.
abbrev pub wind_up : Bool × ServerNet × ServerMng → Exit
wind_up (exit_code, net, s) =
    let (freed, g) = server_mng_destroy (globals_of s) in
    let (closed, no_net) = Loop.destroy (some net) in
    let (freed', g') = server_mng_destroy g in
    record { success = true; freed = freed ++ freed'; closed = closed }

-- `main` behind `ServerMng_Init`.
unfoldable pub run_server : Option ℕ → List Turn → ServerMng → Mem → Option Exit
run_server listening turns s mem = elim (Loop.create (malloc mem).0 listening) [
  | none ↦
      some (record { success = false; freed = (server_mng_destroy (globals_of s)).0; closed = [] })
  | some net ↦ elim (Loop.run (some handle_message) (some on_disconnect) turns net s) [
    | none ↦ none
    | some r ↦ some (wind_up r)
  ]
]

-- `listening` is what `SetupListeningSocket` returns.
unfoldable pub main : ℕ → Mem → Option ℕ → List Turn → Option Exit
main fuel mem listening turns = elim (init fuel mem) [
  | none ↦ none
  | some t ↦ elim t.0 [
    | none ↦ some (record { success = false; freed = []; closed = [] })
    | some s ↦ run_server listening turns s t.1
  ]
]
