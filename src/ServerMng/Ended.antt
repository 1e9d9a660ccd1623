-- ===== src/ServerMng/Ended.antt =====
-- `ServerMng_Destroy` of server/server_mng.c frees each user once, and `main` of server/server_main.c ends.
use chat_project.Prelude.{
  ℕ, suc, ◌<◌, ◌≡◌, refl, ap, ap₂, ◌∙◌, true, Option, none, some, List, [], ◌∷◌, ◌++◌, length,
  arith, get_elem?, append-nil, Option-cases, inl, inr,
}
use chat_project.Memory.{Bytes}
use chat_project.FreeMcQueue.{McastPair}
use chat_project.HashMap.Chains.{Chain}
use chat_project.HashMap.Buckets.{IsValid}
use chat_project.HashMap.Walk.{entries, values, length-entries, destroy-values}
use chat_project.Queue
use chat_project.UserMng.{User}
use chat_project.Net.Loop.{Turn}
use chat_project.Net.Served.{AreTurns, run-AreWaiting, create-AreWaiting}
use chat_project.ServerMng.{ServerMng, handle_message, on_disconnect}
use chat_project.ServerMng.Reads.{handle_message-take}
use chat_project.ServerMng.Start.{init-IsSound}
use chat_project.ServerMng.Shutdown.{
  Freed, Exit, on_values, free_joined, free_pairs, destroy_user_callback, destroy_group_callback,
  user_mng_destroy, group_mng_destroy, free_mc_queue_destroy, server_mng_destroy, globals_of,
  wind_up, run_server, main,
}

-- The users among the blocks that are freed.
abbrev pub freed_users : List Freed → List ℕ
freed_users [] = []
freed_users (Freed.user p ∷ fs) = p ∷ freed_users fs
freed_users (Freed.joined_group name ∷ fs) = freed_users fs
freed_users (Freed.group p ∷ fs) = freed_users fs
freed_users (Freed.pair p ∷ fs) = freed_users fs

-- The pointers that a map leads to.
abbrev pub pointers : Chain Bytes ℕ → List ℕ
pointers [] = []
pointers ((k, v) ∷ c) = v ∷ pointers c

freed_users-append :
    (fs gs : List Freed) → freed_users (fs ++ gs) ≡ freed_users fs ++ freed_users gs
freed_users-append [] gs = refl
freed_users-append (Freed.user p ∷ fs) gs = ap (λ t. p ∷ t) (freed_users-append fs gs)
freed_users-append (Freed.joined_group name ∷ fs) gs = freed_users-append fs gs
freed_users-append (Freed.group p ∷ fs) gs = freed_users-append fs gs
freed_users-append (Freed.pair p ∷ fs) gs = freed_users-append fs gs

free_joined-none : (names : List Bytes) → freed_users (free_joined names) ≡ []
free_joined-none [] = refl
free_joined-none (name ∷ names) = free_joined-none names

free_pairs-none : (ps : List (Option McastPair)) → freed_users (free_pairs ps) ≡ []
free_pairs-none [] = refl
free_pairs-none (p ∷ ps) = free_pairs-none ps

destroy_user_callback-user :
    (store : List User) (p : ℕ) → freed_users (destroy_user_callback store p) ≡ p ∷ []
unfolding destroy_user_callback
destroy_user_callback-user store p = elim (Option-cases (get_elem? store p)) [
  | inl wild ↦ rw (wild, destroy_user_callback)
  | inr (u, at) ↦
      rw (at, destroy_user_callback)
        (freed_users-append (free_joined u.joined_groups) (Freed.user p ∷ [])
          ∙ ap (λ t. t ++ p ∷ []) (free_joined-none u.joined_groups))
]

on_values-users :
    (store : List User) (c : Chain Bytes ℕ)
    → freed_users (on_values (destroy_user_callback store) (values c)) ≡ pointers c
on_values-users store [] = refl
on_values-users store ((k, v) ∷ c) =
    freed_users-append (destroy_user_callback store v)
      (on_values (destroy_user_callback store) (values c))
    ∙ ap₂ ◌++◌ (destroy_user_callback-user store v) (on_values-users store c)

on_values-groups :
    (c : Chain Bytes ℕ) → freed_users (on_values destroy_group_callback (values c)) ≡ []
on_values-groups [] = refl
on_values-groups ((k, v) ∷ c) = on_values-groups c

length-pointers : (c : Chain Bytes ℕ) → length (pointers c) ≡ length c
length-pointers [] = refl
length-pointers ((k, v) ∷ c) = ap suc (length-pointers c)

-- If the indices of users and groups are valid, `ServerMng_Destroy` frees the users of the index, as
-- many as the index counts, and a second call frees nothing and leaves the pointers NULL.
server_mng_destroy-users :
    (s : ServerMng)
    → IsValid s.user_mng.users_by_name
    → IsValid s.group_mng.groups_by_name
    → let (freed, g) = server_mng_destroy (globals_of s) in
      (freed_users freed ≡ pointers (entries s.user_mng.users_by_name.buckets))
      × (length (freed_users freed) ≡ s.user_mng.users_by_name.size)
      × (server_mng_destroy g ≡ ([], record { user_mng = none; group_mng = none; mc_queue = none }))
unfolding server_mng_destroy user_mng_destroy group_mng_destroy free_mc_queue_destroy
server_mng_destroy-users s users groups = (frees, ap length frees ∙ counted, refl)
  where
    freed : List Freed
    freed = (server_mng_destroy (globals_of s)).0

    counted :
        length (pointers (entries s.user_mng.users_by_name.buckets)) ≡ s.user_mng.users_by_name.size
    counted =
        length-pointers (entries s.user_mng.users_by_name.buckets)
        ∙ omega (arith, length-entries s.user_mng.users_by_name.buckets, users.counted)

    frees : freed_users freed ≡ pointers (entries s.user_mng.users_by_name.buckets)
    frees =
        let callback = destroy_user_callback s.user_mng.store in
        let user_part =
          ap (λ r. freed_users (on_values callback r.0))
            (destroy-values s.user_mng.users_by_name users).0
          ∙ on_values-users s.user_mng.store (entries s.user_mng.users_by_name.buckets) in
        let group_part =
          ap (λ r. freed_users (on_values destroy_group_callback r.0))
            (destroy-values s.group_mng.groups_by_name groups).0
          ∙ on_values-groups (entries s.group_mng.groups_by_name.buckets) in
        freed_users-append (user_mng_destroy (some s.user_mng)).0 _
        ∙ ap₂ ◌++◌ user_part (
            freed_users-append (group_mng_destroy (some s.group_mng)).0
              (free_mc_queue_destroy (some s.group_mng.ip_pool)).0
            ∙ ap₂ ◌++◌ group_part (free_pairs-none (Queue.destroy s.group_mng.ip_pool.pool true).0))
        ∙ append-nil _

-- If no allocation fails, the searches for a prime have fuel for two candidates, the server's socket
-- listens, recv never gives more than 514 bytes and SIGPIPE does not come, `main` ends, also if select
-- has failed, and returns EXIT_SUCCESS.
main-ends :
    (fuel fd : ℕ) (turns : List Turn)
    → 1 < fuel
    → AreTurns turns
    → (e : Exit) × (main fuel [] (some fd) turns ≡ some e) × (e.success ≡ true)
unfolding main run_server
main-ends fuel fd turns enough h =
    let (s, started, _, _) = init-IsSound fuel enough in
    let (net, made, waits) = create-AreWaiting fd in
    let (r, ran, _, _) =
      run-AreWaiting handle_message handle_message-take (some on_disconnect) turns net s h waits in
    (wind_up r, rw (started, made, ran, main, run_server), refl)
