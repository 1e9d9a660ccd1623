-- ===== src/Session/Stream.antt =====
-- `client_net_recv_msg` of client/client_net.c, whatever arrives: bytes stay bytes, and the message
-- stands in the buffer.
use mathlib.Core.Path.{subst}
use chat_project.Prelude.{
  ℕ, zero, suc, ◌-◌, ◌≤◌, ◌<◌, sym, none, some, [], ◌∷◌, ◌++◌, length, length-take, take, drop,
  get_or, ltb, leb, ◌==◌, arith, Bool-cases, Option-cases, inl, inr,
}
use chat_project.Memory.{Bytes, Run, ok, reject, fault}
use chat_project.Memory.Reads.{Run-cases}
use chat_project.Memory.Windows.{length-written}
use chat_project.Protocol.{chat_max_msg_size}
use chat_project.ClientNet.{Incoming, recv_exact, recv_payload, put_header, client_net_recv_msg}
use chat_project.ClientNet.Receive.{stream, read_frame, Receives, client_net_recv_msg-read_frame}

abbrev pub AreSmall : Bytes → Type 0
AreSmall [] = Unit
AreSmall (b ∷ bs) = (b < 256) × AreSmall bs

-- What is on its way consists of bytes.
abbrev pub AreBytes : Incoming → Type 0
AreBytes [] = Unit
AreBytes (none ∷ incoming) = AreBytes incoming
AreBytes (some piece ∷ incoming) = AreSmall piece × AreBytes incoming

drop-AreSmall : (n : ℕ) (bs : Bytes) → AreSmall bs → AreSmall (drop n bs)
drop-AreSmall zero bs small = small
drop-AreSmall (suc n) [] small = tt
drop-AreSmall (suc n) (b ∷ bs) small = drop-AreSmall n bs small.1

append-AreSmall : (bs cs : Bytes) → AreSmall bs → AreSmall cs → AreSmall (bs ++ cs)
append-AreSmall [] cs small small' = small'
append-AreSmall (b ∷ bs) cs small small' = (small.0, append-AreSmall bs cs small.1 small')

get_or-AreSmall : (bs : Bytes) (i : ℕ) → AreSmall bs → get_or bs i 0 < 256
get_or-AreSmall [] i small = omega arith
get_or-AreSmall (b ∷ bs) zero small = small.0
get_or-AreSmall (b ∷ bs) (suc i) small = get_or-AreSmall bs i small.1

stream-AreSmall : (incoming : Incoming) → AreBytes incoming → AreSmall (stream incoming)
stream-AreSmall [] small = tt
stream-AreSmall (none ∷ incoming) small = tt
stream-AreSmall (some [] ∷ incoming) small = tt
stream-AreSmall (some (b ∷ bs) ∷ incoming) small =
    append-AreSmall (b ∷ bs) (stream incoming) small.0 (stream-AreSmall incoming small.1)

recv_exact-AreBytes :
    (n : ℕ) (incoming : Incoming) → AreBytes incoming → AreBytes (recv_exact n incoming).1
unfolding recv_exact
recv_exact-AreBytes zero incoming small = small
recv_exact-AreBytes (suc n) [] small = tt
recv_exact-AreBytes (suc n) (none ∷ incoming) small = small
recv_exact-AreBytes (suc n) (some [] ∷ incoming) small = small.1
recv_exact-AreBytes (suc n) (some (b ∷ bs) ∷ incoming) small =
    elim (Bool-cases (ltb n (length bs))) [
      | inl enough ↦ rw enough (drop-AreSmall n bs small.0.1, small.1)
      | inr more ↦ rw more (recv_exact-AreBytes (n - length bs) incoming small.1)
    ]

recv_payload-AreBytes :
    (buf : Bytes) (len : ℕ) (incoming : Incoming)
    → AreBytes incoming
    → AreBytes (recv_payload buf len incoming).1
unfolding recv_payload
recv_payload-AreBytes buf len incoming small = elim (Bool-cases (len == 0)) [
  | inl empty ↦ rw empty small
  | inr more ↦
      let rest = recv_exact-AreBytes len incoming small in
      elim (Option-cases (recv_exact len incoming).0) [
        | inl short ↦ rw (more, short) rest
        | inr (bytes, got) ↦ rw (more, got) rest
      ]
]

-- What one call leaves to come consists of bytes again.
pub client_net_recv_msg-AreBytes :
    (fd : ℕ) (buf : Bytes) (incoming : Incoming)
    → AreBytes incoming
    → AreBytes (client_net_recv_msg (some fd) (some buf) incoming).1
unfolding client_net_recv_msg
client_net_recv_msg-AreBytes fd buf incoming small =
    let rest = recv_exact-AreBytes 2 incoming small in
    elim (Option-cases (recv_exact 2 incoming).0) [
      | inl short ↦ rw (short, client_net_recv_msg) rest
      | inr (bytes, got) ↦ elim (Run-cases (put_header buf bytes)) [
        | inl bad ↦ rw (got, bad, client_net_recv_msg) rest
        | inr (inl no_header) ↦ rw (got, no_header, client_net_recv_msg) rest
        | inr (inr (t, header)) ↦
            rw (got, header, client_net_recv_msg)
              (recv_payload-AreBytes t.0 t.1 (recv_exact 2 incoming).1 rest)
      ]
    ]

-- The run does not fault, and a message that it has is in the buffer.
abbrev pub InBuffer : Run (ℕ × Bytes) → Type 0
InBuffer fault = ⊥
InBuffer reject = Unit
InBuffer (ok t) = t.0 ≤ length t.1

receives-InBuffer :
    (s buf : Bytes) (r : Run (ℕ × Bytes) × Incoming)
    → chat_max_msg_size ≤ length buf
    → AreSmall s
    → Receives (read_frame s) buf r
    → InBuffer r.0
receives-InBuffer [] buf r room small e = subst InBuffer (sym e) tt
receives-InBuffer (t ∷ []) buf r room small e = subst InBuffer (sym e) tt
receives-InBuffer (t ∷ l ∷ s) buf r room small e = elim (Bool-cases (leb l (length s))) [
  | inl whole ↦
      let message = t ∷ l ∷ take l s in
      let fits : length message ≤ length buf = omega (arith, length-take l s, small.1.0, room) in
      let (got, left) : Receives (some (message, drop l s)) buf r = (rw whole at e) in
      subst InBuffer (sym got) (omega (arith, length-written message buf fits, fits))
  | inr short ↦
      let none_left : Receives none buf r = (rw short at e) in subst InBuffer (sym none_left) tt
]

pub client_net_recv_msg-InBuffer :
    (fd : ℕ) (buf : Bytes) (incoming : Incoming)
    → chat_max_msg_size ≤ length buf
    → AreBytes incoming
    → InBuffer (client_net_recv_msg (some fd) (some buf) incoming).0
client_net_recv_msg-InBuffer fd buf incoming room small =
    let bytes = stream-AreSmall incoming small in
    receives-InBuffer (stream incoming) buf _ room bytes (
      client_net_recv_msg-read_frame fd buf incoming room
        (λ i. get_or-AreSmall (stream incoming) i bytes))
