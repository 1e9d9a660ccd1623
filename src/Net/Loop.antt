-- ===== src/Net/Loop.antt =====
-- The server's sockets and its main loop, server/server_net.c: `ServerNet_Create`, `ServerNet_Run`,
-- `ServerNet_SendMessage` and `ServerNet_Destroy`. What the operating system answers is an argument; the
-- descriptors that are closed come back. A negative descriptor is `none`.
use chat_project.Prelude.{
  ℕ, suc, Bool, true, false, Option, none, some, List, [], ◌∷◌, ◌++◌, ◌==◌, not, take, ltb, ◌||◌,
  replicate, if◌then◌else◌,
}
use chat_project.Memory.{Bytes}
use chat_project.Net.{
  ClientState, FdSet, OnMessageFn, OnDisconnectFn, fd_put, fd_setsize, max_clients,
  recv_buffer_size, handle_client_data, handle_new_connection,
}

-- `struct ServerNet` without its callbacks; `outside` is true once FD_SET has written outside the set,
-- which is undefined behaviour.
pub record ServerNet : Type 0 where
  pub listen_fd : ℕ
  pub clients : List ClientState
  pub max_fd : ℕ
  pub master_set : FdSet
  pub outside : Bool

-- The descriptor that listens, and those that are closed on the way.
unfoldable pub setup_listening_socket : Option ℕ → Bool → Bool → Bool → Option ℕ × List ℕ
setup_listening_socket none options_ok bind_ok listen_ok = (none, [])
setup_listening_socket (some fd) options_ok bind_ok listen_ok =
    if not options_ok
    then (none, fd ∷ [])
    else if not bind_ok
    then (none, fd ∷ [])
    else if not listen_ok
    then (none, fd ∷ [])
    else (some fd, [])

-- A slot without a client; its buffer holds nothing that is read.
abbrev pub free_slot : ClientState
free_slot = record { fd = none; buffer = replicate recv_buffer_size 0; len = 0 }

-- `listening` is what `SetupListeningSocket` returns.
unfoldable pub create : Bool → Option ℕ → Option ServerNet
create malloc_ok listening = if not malloc_ok then none else elim listening [
  | none ↦ none
  | some fd ↦ some (record {
    listen_fd = fd;
    clients = replicate max_clients free_slot;
    max_fd = fd;
    master_set = if ltb fd fd_setsize then fd_put fd true (λ i. false) else λ i. false;
    outside = not (ltb fd fd_setsize);
  })
]

-- What one call of select leads to: a signal, an error, or the descriptors that are ready, with what
-- accept and recv answer on them. In the turn `sigpipe` a reply goes to a peer that has closed its
-- connection, and SIGPIPE, which the server neither blocks nor handles, ends the process.
pub data Turn : Type 0 where
  interrupted failed sigpipe : Turn
  ready : (ready_set : FdSet) (accepted : Option ℕ) (received : ℕ → Option Bytes) → Turn

-- `-1 != fd && FD_ISSET(fd, &readSet)`
abbrev pub is_ready : FdSet → Option ℕ → Bool
is_ready ready_set none = false
is_ready ready_set (some fd) = ready_set fd

abbrev pub received_on : (ℕ → Option Bytes) → Option ℕ → Option Bytes
received_on received none = none
received_on received (some fd) = received fd

-- `HandleNewConnection` on the whole state; the descriptor that it turns away is closed there.
abbrev pub accept_on : Option ℕ → ServerNet → ServerNet
accept_on accepted net =
    let a = handle_new_connection accepted net.clients net.max_fd net.master_set in
    record net {
      clients = a.clients;
      max_fd = a.max_fd;
      master_set = a.master_set;
      outside = net.outside || a.outside;
    }

module _ {ℓ} {S : Type ℓ} (on_msg : Option (OnMessageFn S))
    (on_disc : Option (OnDisconnectFn S)) where
  -- The loop over the slots. The fuel of `ProcessBuffer` is above the size of the buffer.
  unfoldable pub serve :
      FdSet
      → (ℕ → Option Bytes)
      → List ClientState
      → FdSet
      → S
      → Option (List ClientState × FdSet × S)
  serve ready_set received [] fds s = some ([], fds, s)
  serve ready_set received (c ∷ cs) fds s =
      elim (if is_ready ready_set c.fd
        then handle_client_data (suc recv_buffer_size) on_msg on_disc (received_on received c.fd) c
            fds s
        else some (c, fds, s)) [
          | none ↦ none
          | some r ↦ elim (serve ready_set received cs r.1 r.2) [
            | none ↦ none
            | some t ↦ some (r.0 ∷ t.0, t.1, t.2)
          ]
        ]

  -- What follows a call of select that has found ready descriptors.
  unfoldable pub round :
      FdSet → Option ℕ → (ℕ → Option Bytes) → ServerNet → S → Option (ServerNet × S)
  round ready_set accepted received net s =
      let net1 = if ready_set net.listen_fd then accept_on accepted net else net in
      elim (serve ready_set received net1.clients net1.master_set s) [
        | none ↦ none
        | some r ↦ some (record net1 { clients = r.0; master_set = r.1 }, r.2)
      ]

  -- The loop of `ServerNet_Run`: behind the last turn a signal has cleared the flag. The result is true
  -- where it returns 0, and `none` where the process has ended before or the framing has run out of fuel.
  unfoldable pub run : List Turn → ServerNet → S → Option (Bool × ServerNet × S)
  run [] net s = some (true, net, s)
  run (Turn.interrupted ∷ turns) net s = run turns net s
  run (Turn.failed ∷ turns) net s = some (false, net, s)
  run (Turn.sigpipe ∷ turns) net s = none
  run (Turn.ready ready_set accepted received ∷ turns) net s =
      elim (round ready_set accepted received net s) [ none ↦ none | some r ↦ run turns r.0 r.1 ]

-- The bytes that go to `send`, or `none` where it returns -1 without a call.
unfoldable pub send_message : Option ℕ → Option Bytes → ℕ → Option Bytes
send_message none buf len = none
send_message (some fd) none len = none
send_message (some fd) (some buf) len = if len == 0 then none else some (take len buf)

abbrev pub open_fds : List ClientState → List ℕ
open_fds [] = []
open_fds (c ∷ cs) = elim c.fd [ none ↦ open_fds cs | some fd ↦ fd ∷ open_fds cs ]

-- The descriptors that are closed, and the pointer afterwards.
unfoldable pub destroy : Option ServerNet → List ℕ × Option ServerNet
destroy none = ([], none)
destroy (some net) = (open_fds net.clients ++ net.listen_fd ∷ [], none)
