-- ===== src/Net/Served.antt =====
-- The main loop of server/server_net.c serves the clients that are ready.
use chat_project.Prelude.{
  ℕ, zero, suc, not, ◌-◌, ◌≤◌, ◌≡◌, refl, Bool, true, false, Option, none, some, List, [], ◌∷◌,
  arith, length, ne→eqb, length-replicate, replicate, if◌then◌else◌, Bool-cases, Option-cases, inl,
  inr,
}
use mathlib.Core.Path.{subst}
use chat_project.Memory.{Bytes}
use chat_project.Net.{
  place_client, ClientState, FdSet, OnMessageFn, OnDisconnectFn, handle_client_data,
  handle_new_connection, disconnect, fd_clear,
}
use chat_project.Net.Process.{IsLocal}
use chat_project.Net.Stream.{AreBytes, IsWaiting, Received, room_left, handle_client_data-Received}
use chat_project.Net.Loop.{
  ServerNet, Turn, is_ready, received_on, serve, accept_on, round, run, free_slot, create,
}

-- recv gives bytes, no more than there is always room for.
abbrev pub IsChunk : Option Bytes → Type 0
IsChunk none = Unit
IsChunk (some chunk) = AreBytes chunk × (length chunk ≤ 514)

abbrev pub AreWaiting : List ClientState → Type 0
AreWaiting [] = Unit
AreWaiting (c ∷ cs) = IsWaiting c × AreWaiting cs

-- The slot of a client that has gone, or that has just come.
abbrev pub reset : ClientState → Option ℕ → ClientState
reset c fd = record c { fd = fd; len = 0 }

reset-IsWaiting : (c : ClientState) (fd : Option ℕ) → IsWaiting c → IsWaiting (reset c fd)
reset-IsWaiting c fd w = record {
  sized = w.sized;
  in_buffer = omega arith;
  incomplete = tt;
  bytes = tt;
}

module _ {ℓ} {S : Type ℓ} (on_msg : OnMessageFn S) (local : IsLocal on_msg)
    (on_disc : Option (OnDisconnectFn S)) (ready_set : FdSet) (received : ℕ → Option Bytes) where
  -- Slot by slot: a client that is not ready is as it was; one that is ready has what recv gave it
  -- taken in, or is gone, with its slot free and the callback called, if recv gave nothing.
  pub data Served : List ClientState → S → List ClientState → S → Type ℓ where
    done : {s : S} → Served [] s [] s
    idle :
        {c : ClientState} {cs cs' : List ClientState} {s s' : S}
        → is_ready ready_set c.fd ≡ false
        → Served cs s cs' s'
        → Served (c ∷ cs) s (c ∷ cs') s'
    got :
        {c c1 : ClientState} {cs cs' : List ClientState} {s s1 s' : S} {chunk : Bytes}
        → is_ready ready_set c.fd ≡ true
        → received_on received c.fd ≡ some chunk
        → Received on_msg local c s chunk c1 s1
        → Served cs s1 cs' s'
        → Served (c ∷ cs) s (c1 ∷ cs') s'
    lost :
        {c : ClientState} {cs cs' : List ClientState} {s s' : S}
        → is_ready ready_set c.fd ≡ true
        → received_on received c.fd ≡ none
        → Served cs (disconnect on_disc c s) cs' s'
        → Served (c ∷ cs) s (reset c none ∷ cs') s'

  chunks-on :
      ((fd : ℕ) → IsChunk (received fd)) → (fd : Option ℕ) → IsChunk (received_on received fd)
  chunks-on h none = tt
  chunks-on h (some fd) = h fd

  handle_client_data-lost :
      (c : ClientState) (fds : FdSet) (s : S)
      → IsWaiting c
      → handle_client_data 772 (some on_msg) on_disc none c fds s
        ≡ some (reset c none, fd_clear c.fd fds, disconnect on_disc c s)
  unfolding handle_client_data
  handle_client_data-lost c fds s w = rw (ne→eqb (771 - c.len) 0 (omega (arith, room_left c w)))

  -- The loop over the slots ends, and has served them all.
  pub serve-Served :
      (cs : List ClientState) (fds : FdSet) (s : S)
      → ((fd : ℕ) → IsChunk (received fd))
      → AreWaiting cs
      → (r : List ClientState × FdSet × S) × (serve
            (some on_msg)
            on_disc
            ready_set
            received
            cs
            fds
            s
          ≡ some r)
        × Served cs s r.0 r.2
        × AreWaiting r.0
  unfolding serve
  serve-Served [] fds s chunks w = (([], fds, s), refl, done, tt)
  serve-Served (c ∷ cs) fds s chunks w = elim (Bool-cases (is_ready ready_set c.fd)) [
    | inr not_ready ↦
        let (r, run, rest, waits) = serve-Served cs fds s chunks w.1 in
        ((c ∷ r.0, r.1, r.2), rw (not_ready, run, serve), idle not_ready rest, (w.0, waits))
    | inl is ↦ elim (Option-cases (received_on received c.fd)) [
      | inl nothing ↦
          let gone = handle_client_data-lost c fds s w.0 in
          let (r, run, rest, waits) =
            serve-Served cs (fd_clear c.fd fds) (disconnect on_disc c s) chunks w.1 in
          (
            (reset c none ∷ r.0, r.1, r.2),
            rw (is, nothing, gone, run, serve),
            lost is nothing rest,
            (reset-IsWaiting c none w.0, waits),
          )
      | inr (chunk, some_bytes) ↦
          let (bytes, small) = subst IsChunk some_bytes (chunks-on chunks c.fd) in
          let (t, took, same, into) =
            handle_client_data-Received on_msg local on_disc c fds s chunk w.0 bytes
              (omega (arith, room_left c w.0, small)) in
          let (r, run, rest, waits) = serve-Served cs t.1 t.2 chunks w.1 in
          (
            (t.0 ∷ r.0, r.1, r.2),
            rw (is, some_bytes, took, run, serve),
            got is some_bytes into rest,
            (into.waits, waits),
          )
    ]
  ]

abbrev WaitingIfPlaced : Option (List ClientState) → Type 0
WaitingIfPlaced none = Unit
WaitingIfPlaced (some cs) = AreWaiting cs

place_client-AreWaiting :
    (new_fd : ℕ) (cs : List ClientState) → AreWaiting cs → WaitingIfPlaced (place_client new_fd cs)
unfolding place_client
place_client-AreWaiting new_fd [] w = tt
place_client-AreWaiting new_fd (c ∷ cs) w = elim (Option-cases c.fd) [
  | inl free ↦ rw (free, place_client) (reset-IsWaiting c (some new_fd) w.0, w.1)
  | inr (fd, taken) ↦ elim (Option-cases (place_client new_fd cs)) [
    | inl full ↦ rw (taken, full, place_client) tt
    | inr (cs', placed) ↦
        rw (taken, placed, place_client)
          (w.0, subst WaitingIfPlaced placed (place_client-AreWaiting new_fd cs w.1))
  ]
]

-- A new client waits as well.
accept_on-AreWaiting :
    (accepted : Option ℕ) (net : ServerNet)
    → AreWaiting net.clients
    → AreWaiting (accept_on accepted net).clients
unfolding handle_new_connection
accept_on-AreWaiting none net w = w
accept_on-AreWaiting (some fd) net w = elim (Option-cases (place_client fd net.clients)) [
  | inl full ↦ rw (full, handle_new_connection) w
  | inr (cs, placed) ↦
      rw (placed, handle_new_connection)
        (subst WaitingIfPlaced placed (place_client-AreWaiting fd net.clients w))
]

-- The answers of the operating system in all turns are within bounds, and SIGPIPE does not come.
abbrev pub AreTurns : List Turn → Type 0
AreTurns [] = Unit
AreTurns (Turn.interrupted ∷ turns) = AreTurns turns
AreTurns (Turn.failed ∷ turns) = AreTurns turns
AreTurns (Turn.sigpipe ∷ turns) = ⊥
AreTurns (Turn.ready ready_set accepted received ∷ turns) =
    ((fd : ℕ) → IsChunk (received fd)) × AreTurns turns

-- Whether select fails in a turn.
abbrev pub has_failed : List Turn → Bool
has_failed [] = false
has_failed (Turn.interrupted ∷ turns) = has_failed turns
has_failed (Turn.failed ∷ turns) = true
has_failed (Turn.sigpipe ∷ turns) = has_failed turns
has_failed (Turn.ready ready_set accepted received ∷ turns) = has_failed turns

module _ {ℓ} {S : Type ℓ} (on_msg : OnMessageFn S) (local : IsLocal on_msg)
    (on_disc : Option (OnDisconnectFn S)) where
  -- With a callback that looks at its message only, if all clients wait and recv gives at most 514
  -- bytes, one round of the main loop ends, and each client that is ready is served once, in the order of
  -- the slots: the bytes that recv gave are taken in, or, if it gave none, the client is gone; the others
  -- are as they were, and all clients wait again.
  pub round-Served :
      (ready_set : FdSet) (accepted : Option ℕ) (received : ℕ → Option Bytes) (net : ServerNet)
      (s : S)
      → ((fd : ℕ) → IsChunk (received fd))
      → AreWaiting net.clients
      → (r : ServerNet × S) × (round (some on_msg) on_disc ready_set accepted received net s
          ≡ some r)
        × Served on_msg local on_disc ready_set received
            (if ready_set net.listen_fd then accept_on accepted net else net).clients
            s
            r.0.clients
            r.1
        × AreWaiting r.0.clients
  unfolding round
  round-Served ready_set accepted received net s chunks w =
      elim (Bool-cases (ready_set net.listen_fd)) [
        | inl knocks ↦
            let net1 = accept_on accepted net in
            let (r, ran, served, waits) =
              serve-Served on_msg local on_disc ready_set received net1.clients net1.master_set s
                chunks (accept_on-AreWaiting accepted net w) in
            (
              (record net1 { clients = r.0; master_set = r.1 }, r.2),
              rw (knocks, ran, round) (rw knocks),
              rw knocks served,
              waits,
            )
        | inr quiet ↦
            let (r, ran, served, waits) =
              serve-Served on_msg local on_disc ready_set received net.clients net.master_set s
                chunks w in
            (
              (record net { clients = r.0; master_set = r.1 }, r.2),
              rw (quiet, ran, round) (rw quiet),
              rw quiet served,
              waits,
            )
      ]

  -- If SIGPIPE does not come and recv gives at most 514 bytes, the main loop ends, with all clients waiting for more: with 0 at
  -- the signal that ends it, and with -1 if select fails before, while a signal that only interrupts
  -- select ends nothing.
  pub run-AreWaiting :
      (turns : List Turn) (net : ServerNet) (s : S)
      → AreTurns turns
      → AreWaiting net.clients
      → (r : Bool × ServerNet × S) × (run (some on_msg) on_disc turns net s ≡ some r)
        × (r.0 ≡ not (has_failed turns))
        × AreWaiting r.1.clients
  unfolding run
  run-AreWaiting [] net s h w = ((true, net, s), refl, refl, w)
  run-AreWaiting (Turn.interrupted ∷ turns) net s h w = run-AreWaiting turns net s h w
  run-AreWaiting (Turn.failed ∷ turns) net s h w = ((false, net, s), refl, refl, w)
  run-AreWaiting (Turn.sigpipe ∷ turns) net s h w = absurd h
  run-AreWaiting (Turn.ready ready_set accepted received ∷ turns) net s h w =
      let (r, ran, served, waits) = round-Served ready_set accepted received net s h.0 w in
      let (t, later, code, still) = run-AreWaiting turns r.0 r.1 h.1 waits in
      (t, rw (ran, run) later, code, still)

-- In a new server all slots wait.
pub create-AreWaiting :
    (fd : ℕ) → (net : ServerNet) × (create true (some fd) ≡ some net) × AreWaiting net.clients
unfolding create
create-AreWaiting fd = (_, refl, all_free 1024)
  where
    all_free : (n : ℕ) → AreWaiting (replicate n free_slot)
    all_free zero = tt
    all_free (suc n) = (
      record {
        sized = length-replicate {A = ℕ} 771 0;
        in_buffer = omega arith;
        incomplete = tt;
        bytes = tt;
      },
      all_free n,
    )
