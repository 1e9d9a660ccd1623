-- ===== src/ServerMng/Tests.antt =====
-- The requests of server/server_mng.c on an empty server.
use chat_project.Prelude.{
  ℕ, zero, suc, ◌%◌, ◌≡◌, refl, sym, ap, ◌∙◌, false, Option, none, some, List, [], ◌∷◌, arith, take,
  replicate,
}
use chat_project.Memory.{Bytes}
use chat_project.FreeMcQueue.Tests.{two_free}
use chat_project.HashMap.{HashMap}
use chat_project.HashUtils.Laws.{hash_key, equal_keys, hash_key-IsKey}
use chat_project.HashMap.{get_bucket_index}
use chat_project.HashMap.Chains.{occurs, value_of}
use chat_project.HashMap.Buckets.{view, IsValid, chain_at}
use chat_project.ServerMng.Invariant.{IsSound}
use chat_project.ServerMng.Reach.{begin, message, disconnected, Reachable-IsSound}
use chat_project.Net.{ClientState, FdSet}
use chat_project.Net.Process.{pending}
use chat_project.Net.Stream.{IsWaiting, AreChunks, receive_all}
use chat_project.ServerMng.{ServerMng, init, handle_message, on_disconnect}
use chat_project.ServerMng.Start.{init-IsSound}
use chat_project.FreeMcQueue.Pool.{pairs_from}
use chat_project.GroupMng.Create.{IsInOrder}
use chat_project.ServerMng.Reads.{handle_message-take}
use chat_project.ServerMng.Traffic.{handle_message_fragmentation}

abbrev pub no_names : HashMap Bytes ℕ
no_names = record {
  buckets = none ∷ [];
  capacity = 1;
  size = 0;
  hash_func = hash_key;
  keys_equal_func = equal_keys;
}

abbrev pub fresh_server : ServerMng
fresh_server = record {
  user_mng = record { users_by_name = no_names; active_sockets = λ fd. none; store = [] };
  group_mng = record { groups_by_name = no_names; ip_pool = two_free; store = [] };
  mem = [];
  sent = [];
  faulted = false;
}

-- A registration of "a" with the password "b", and two bytes behind it.
abbrev register_msg : Bytes
register_msg = 1 ∷ 4 ∷ 1 ∷ 97 ∷ 1 ∷ 98 ∷ 5 ∷ 0 ∷ []

handle_message-take_example :
    handle_message (some 5) register_msg 6 fresh_server
    ≡ handle_message (some 5) (take 6 register_msg) 6 fresh_server
handle_message-take_example = handle_message-take (some 5) register_msg 6 fresh_server (omega arith)

abbrev fresh_client : ClientState
fresh_client = record { fd = some 5; buffer = replicate 771 0; len = 0 }

fresh_client-IsWaiting : IsWaiting fresh_client
fresh_client-IsWaiting = record {
  sized = refl;
  in_buffer = omega arith;
  incomplete = tt;
  bytes = tt;
}

abbrev in_two : List Bytes
in_two = (1 ∷ 4 ∷ 1 ∷ []) ∷ (97 ∷ 1 ∷ 98 ∷ []) ∷ []

abbrev in_one : List Bytes
in_one = (1 ∷ 4 ∷ 1 ∷ 97 ∷ 1 ∷ 98 ∷ []) ∷ []

in_two-AreChunks : AreChunks in_two
in_two-AreChunks = (
  (omega arith, (omega arith, (omega arith, tt))),
  omega arith,
  ((omega arith, (omega arith, (omega arith, tt))), omega arith, tt),
)

in_one-AreChunks : AreChunks in_one
in_one-AreChunks = (
  (omega arith, (omega arith, (omega arith, (omega arith, (omega arith, (omega arith, tt)))))),
  omega arith,
  tt,
)

handle_message_fragmentation_example :
    (r r' : ClientState × FdSet × ServerMng) × (receive_all handle_message handle_message-take
        (some on_disconnect)
        in_two
        fresh_client
        (λ fd. false)
        fresh_server
      ≡ some r)
    × (receive_all handle_message handle_message-take
          (some on_disconnect)
          in_one
          fresh_client
          (λ fd. false)
          fresh_server
        ≡ some r')
    × (r.2 ≡ r'.2)
    × (pending r.0 ≡ pending r'.0)
handle_message_fragmentation_example =
    handle_message_fragmentation in_two in_one fresh_client (λ fd. false) fresh_server
      fresh_client-IsWaiting in_two-AreChunks in_one-AreChunks refl

no_names-occurs : (q : Bytes) (i : ℕ) → occurs equal_keys (chain_at no_names i) q ≡ 0
no_names-occurs q zero = refl
no_names-occurs q (suc i) = refl

pub no_names-IsValid : IsValid no_names
no_names-IsValid = record {
  laws = hash_key-IsKey;
  wide = refl;
  roomy = omega arith;
  counted = refl;
  once = λ q i. omega (arith, no_names-occurs q i);
  at_home = λ q i away. no_names-occurs q i;
}

no_names-view : (name : Bytes) → view no_names name ≡ none
unfolding view get_bucket_index
no_names-view name =
    let first : hash_key name % 1 ≡ 0 = omega arith in
    ap (λ i. value_of equal_keys (chain_at no_names i) name) first

fresh_users-IsSound : IsSound fresh_server.user_mng
fresh_users-IsSound = record {
  paired = record { leads = λ fd p e. cc; leads_back = λ p fd e. cc; online = λ p. refl };
  indexed = record {
    valid = no_names-IsValid;
    strings = refl;
    named =
        λ name p e. let never : Path (Option ℕ) none (some p) = sym (no_names-view name) ∙ e in cc;
  };
}

-- A login of "a" with the password "b"
abbrev login_msg : Bytes
login_msg = 3 ∷ 4 ∷ 1 ∷ 97 ∷ 1 ∷ 98 ∷ []

abbrev logged_in_server : ServerMng
logged_in_server =
    handle_message (some 5) login_msg 6 (handle_message (some 5) register_msg 6 fresh_server)

Reachable-IsSound_example : IsSound (on_disconnect (some 5) logged_in_server).user_mng
Reachable-IsSound_example =
    Reachable-IsSound fresh_server (on_disconnect (some 5) logged_in_server) fresh_users-IsSound
      (disconnected (some 5) (message (some 5) login_msg 6 (message (some 5) register_msg 6 begin)))

init-IsSound_example :
    (s : ServerMng) × (init 2 [] ≡ some (some s, []))
    × IsSound s.user_mng
    × IsInOrder s.group_mng (pairs_from 1 255)
init-IsSound_example = init-IsSound 2 (omega arith)
