-- ===== src/Net/LoopTests.antt =====
-- One round of the main loop of server/server_net.c with two clients, one of which has gone.
use chat_project.Prelude.{
  ℕ, ◌≡◌, refl, sym, ap, Bool, true, false, Option, none, some, List, [], ◌∷◌, ◌++◌, ◌==◌, ◌||◌,
  arith, take, replicate, take-take, if◌then◌else◌,
}
use chat_project.Memory.{Bytes}
use chat_project.Net.{ClientState, FdSet, OnMessageFn}
use chat_project.Net.Process.{IsLocal}
use chat_project.Net.Stream.{IsWaiting}
use chat_project.Net.Loop.{ServerNet, Turn, setup_listening_socket, round, destroy}
use chat_project.Net.Served.{IsChunk, AreWaiting, Served, round-Served}

abbrev collect : OnMessageFn (List Bytes)
collect fd buf n seen = seen ++ take n buf ∷ []

collect-IsLocal : IsLocal collect
collect-IsLocal fd buf n seen fits =
    ap (λ t. seen ++ t ∷ []) (sym (take-take n n buf (omega arith)))

abbrev slot_of : ℕ → ClientState
slot_of fd = record { fd = some fd; buffer = replicate 771 0; len = 0 }

slot_of-IsWaiting : (fd : ℕ) → IsWaiting (slot_of fd)
slot_of-IsWaiting fd = record { sized = refl; in_buffer = omega arith; incomplete = tt; bytes = tt }

-- The clients 4 and 5; 3 listens.
abbrev two_clients : ServerNet
two_clients = record {
  listen_fd = 3;
  clients = slot_of 4 ∷ slot_of 5 ∷ [];
  max_fd = 5;
  master_set = λ fd. fd == 3 || (fd == 4 || fd == 5);
  outside = false;
}

two_clients-AreWaiting : AreWaiting two_clients.clients
two_clients-AreWaiting = (slot_of-IsWaiting 4, (slot_of-IsWaiting 5, tt))

abbrev both : FdSet
both fd = fd == 4 || fd == 5

-- The client 4 has sent a logout request, and 5 has closed its connection.
abbrev traffic : ℕ → Option Bytes
traffic fd = if fd == 4 then some (5 ∷ 0 ∷ []) else none

traffic-IsChunk : (fd : ℕ) → IsChunk (traffic fd)
traffic-IsChunk fd = chunk (fd == 4)
  where
    chunk : (b : Bool) → IsChunk (if b then some (5 ∷ 0 ∷ []) else none)
    chunk true = ((omega arith, (omega arith, tt)), omega arith)
    chunk false = tt

round-Served_example :
    (r : ServerNet × List Bytes) × (round (some collect) none both none traffic two_clients []
      ≡ some r)
    × Served collect collect-IsLocal none both traffic two_clients.clients [] r.0.clients r.1
    × AreWaiting r.0.clients
round-Served_example =
    round-Served collect collect-IsLocal none both none traffic two_clients [] traffic-IsChunk
      two_clients-AreWaiting

abbrev turns : List Turn
turns = Turn.interrupted ∷ Turn.ready both none traffic ∷ Turn.failed ∷ []

-- A socket that cannot be bound is closed.
bind_fails : setup_listening_socket (some 3) true false true ≡ (none, 3 ∷ [])
unfolding setup_listening_socket
bind_fails = refl

all_closed : destroy (some two_clients) ≡ (4 ∷ 5 ∷ 3 ∷ [], none)
unfolding destroy
all_closed = refl
