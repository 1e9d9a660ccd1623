-- ===== src/Net.antt =====
-- The transport of server/server_net.c: the receive buffer of each client, the slots for clients and
-- the set that select watches. What the operating system answers (accept, recv) is an argument, and
-- the context that the two callbacks change is a state.
pub mod Frames
pub mod Process
pub mod Stream
pub mod Slots
pub mod Loop
pub mod Served
mod LoopTests
mod Tests
use chat_project.Prelude.{
  ℕ, zero, suc, ◌+◌, ◌-◌, ◌*◌, Bool, true, false, Option, none, some, List, [], ◌∷◌, ◌++◌, ltb,
  ◌==◌, if◌then◌else◌, length, take, drop, max, not,
}
use chat_project.Memory.{Bytes, Run, ok, reject, fault}
use chat_project.Protocol.{chat_max_msg_size, chat_peek_header}

abbrev pub max_clients : ℕ
max_clients = 1024

abbrev pub recv_buffer_size : ℕ
recv_buffer_size = chat_max_msg_size * 3

-- `ClientState`; an `fd` of -1 is `none`.
pub record ClientState : Type 0 where
  pub fd : Option ℕ
  pub buffer : Bytes
  pub len : ℕ

-- `fd_set`, with FD_SET and FD_CLR.
abbrev pub FdSet : Type 0
FdSet = ℕ → Bool

abbrev pub fd_put : ℕ → Bool → FdSet → FdSet
fd_put fd b fds i = if i == fd then b else fds i

abbrev pub fd_clear : Option ℕ → FdSet → FdSet
fd_clear none fds = fds
fd_clear (some fd) fds = fd_put fd false fds

-- The two callbacks, which may be NULL; what `OnMessageFn` returns is not used.
abbrev pub OnMessageFn {ℓ} : Type ℓ → Type ℓ
OnMessageFn S = Option ℕ → Bytes → ℕ → S → S

abbrev pub OnDisconnectFn {ℓ} : Type ℓ → Type ℓ
OnDisconnectFn S = Option ℕ → S → S

-- `memmove(buf, buf + n, len)`
abbrev pub memmove_front : Bytes → ℕ → ℕ → Bytes
memmove_front buf n len = take len (drop n buf) ++ drop len buf

-- A whole message is taken off the front of the buffer.
unfoldable pub consume : ClientState → ℕ → ClientState
consume c total =
    let len = c.len - total in
    if ltb 0 len
    then record c { buffer = memmove_front c.buffer total len; len = len }
    else record c { len = len }

module _ {ℓ} {S : Type ℓ} where
  abbrev pub deliver : Option (OnMessageFn S) → ClientState → ℕ → S → S
  deliver none c total s = s
  deliver (some on_msg) c total s = on_msg c.fd c.buffer total s

  -- The loop of `ProcessBuffer`; `none` is the end of the fuel, or a read outside the buffer.
  unfoldable pub process_buffer :
      ℕ → Option (OnMessageFn S) → ClientState → S → Option (ClientState × S)
  process_buffer zero on_msg c s = none
  process_buffer (suc fuel) on_msg c s = elim (chat_peek_header (some c.buffer) c.len) [
    | reject ↦ some (c, s)
    | fault ↦ none
    | ok header ↦
        let total = 2 + header.1 in
        let rest = process_buffer fuel on_msg (consume c total) (deliver on_msg c total s) in
        if ltb c.len total then some (c, s) else rest
  ]

  abbrev pub disconnect : Option (OnDisconnectFn S) → ClientState → S → S
  disconnect none c s = s
  disconnect (some on_disc) c s = on_disc c.fd s

  -- `recv` answers `none` for 0 or -1; otherwise its bytes stand behind those in the buffer.
  unfoldable pub handle_client_data :
      ℕ
      → Option (OnMessageFn S)
      → Option (OnDisconnectFn S)
      → Option Bytes
      → ClientState
      → FdSet
      → S
      → Option (ClientState × FdSet × S)
  handle_client_data fuel on_msg on_disc received c fds s =
      if recv_buffer_size - c.len == 0 then some (c, fds, s) else elim received [
        | none ↦ some (record c { fd = none; len = 0 }, fd_clear c.fd fds, disconnect on_disc c s)
        | some chunk ↦
            let filled = record c {
              buffer = take c.len c.buffer ++ (chunk ++ drop (c.len + length chunk) c.buffer);
              len = c.len + length chunk;
            } in
            elim (process_buffer fuel on_msg filled s) [
              | none ↦ none
              | some r ↦ some (r.0, fds, r.1)
            ]
      ]

-- The number of descriptors that an `fd_set` has room for.
abbrev pub fd_setsize : ℕ
fd_setsize = 1024

-- The outcome of `HandleNewConnection`; `closed` is the descriptor that is turned away, and `outside` is
-- true where FD_SET writes outside the set, which is undefined behaviour.
pub record Accepted : Type 0 where
  pub clients : List ClientState
  pub max_fd : ℕ
  pub master_set : FdSet
  pub closed : Option ℕ
  pub outside : Bool

-- The first free slot takes the descriptor.
unfoldable pub place_client : ℕ → List ClientState → Option (List ClientState)
place_client new_fd [] = none
place_client new_fd (c ∷ cs) = elim c.fd [
  | none ↦ some (record c { fd = some new_fd; len = 0 } ∷ cs)
  | some fd ↦ elim (place_client new_fd cs) [ none ↦ none | some cs' ↦ some (c ∷ cs') ]
]

unfoldable pub handle_new_connection : Option ℕ → List ClientState → ℕ → FdSet → Accepted
handle_new_connection none clients max_fd fds = record {
  clients = clients;
  max_fd = max_fd;
  master_set = fds;
  closed = none;
  outside = false;
}
handle_new_connection (some new_fd) clients max_fd fds = elim (place_client new_fd clients) [
  | some clients' ↦ record {
    clients = clients';
    max_fd = if ltb max_fd new_fd then new_fd else max_fd;
    master_set = if ltb new_fd fd_setsize then fd_put new_fd true fds else fds;
    closed = none;
    outside = not (ltb new_fd fd_setsize);
  }
  | none ↦ record {
    clients = clients;
    max_fd = max_fd;
    master_set = fds;
    closed = some new_fd;
    outside = false;
  }
]
