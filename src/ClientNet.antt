-- ===== src/ClientNet.antt =====
-- The client's transport of client/client_net.c: sending all of a buffer, and receiving one message.
-- What the operating system answers to `send` and `recv` is a sequence; `perror` is left out. A
-- negative descriptor and a NULL buffer are `none`.
pub mod Receive
pub mod Send
mod Tests
use chat_project.Prelude.{
  ℕ, zero, suc, ◌+◌, ◌-◌, Bool, true, false, Option, none, some, List, [], ◌∷◌, ◌++◌, ltb, leb,
  length, take, drop, ◌==◌, if◌then◌else◌,
}
use chat_project.Memory.{Bytes, Run, ok, reject, fault, ◌>>=◌, copy_in}
use chat_project.Protocol.{chat_peek_header}

-- What is on its way to the client: `none` is an error of `recv`, an empty piece the end of the
-- connection, and so is the end of the list. A piece that is longer than what `recv` asks for stays
-- behind in part.
abbrev pub Incoming : Type 0
Incoming = List (Option Bytes)

abbrev pub prepend : Bytes → Option Bytes → Option Bytes
prepend c none = none
prepend c (some r) = some (c ++ r)

-- The bytes that the loop has put into the buffer, or `none` where it returns -1.
unfoldable pub recv_exact : ℕ → Incoming → Option Bytes × Incoming
recv_exact zero incoming = (some [], incoming)
recv_exact (suc need) [] = (none, [])
recv_exact (suc need) (none ∷ incoming) = (none, incoming)
recv_exact (suc need) (some [] ∷ incoming) = (none, incoming)
recv_exact (suc need) (some (b ∷ bs) ∷ incoming) =
    let rest = recv_exact (need - length bs) incoming in
    if ltb need (length bs)
    then (some (b ∷ take need bs), some (drop need bs) ∷ incoming)
    else (prepend (b ∷ bs) rest.0, rest.1)

-- The payload, once the header stands in the buffer `buf`.
unfoldable pub recv_payload : Bytes → ℕ → Incoming → Run (ℕ × Bytes) × Incoming
recv_payload buf len incoming =
    if len == 0
    then (ok (2, buf), incoming)
    else (let (payload, rest) = recv_exact len incoming in
        elim payload [
          | none ↦ (reject, rest)
          | some bytes ↦ (copy_in buf 2 bytes >>= λ filled. ok (2 + len, filled), rest)
        ])

-- The header goes to the buffer and is read there: the buffer, and the length of the payload.
abbrev pub put_header : Bytes → Bytes → Run (Bytes × ℕ)
put_header buf bytes = do
  filled ← copy_in buf 0 bytes
  header ← chat_peek_header (some filled) 2
  ok (filled, header.1)

-- `*out_len` and the buffer afterwards.
unfoldable pub client_net_recv_msg : Option ℕ → Option Bytes → Incoming → Run (ℕ × Bytes) × Incoming
client_net_recv_msg (some fd) (some buf) incoming =
    let (header, rest) = recv_exact 2 incoming in
    elim header [
      | none ↦ (reject, rest)
      | some bytes ↦ elim (put_header buf bytes) [
        | fault ↦ (fault, rest)
        | reject ↦ (reject, rest)
        | ok t ↦ recv_payload t.0 t.1 rest
      ]
    ]
client_net_recv_msg _ _ incoming = (reject, incoming)

-- What a call of `send` leads to: it takes a number of bytes, at most as many as it is given; it returns
-- -1; or the peer has closed the connection, and SIGPIPE, which the client neither blocks nor handles,
-- ends the process.
pub data SendAnswer : Type 0 where
  taken : ℕ → SendAnswer
  failed sigpipe : SendAnswer

-- The answers of the coming calls. Beyond the list each call takes all bytes.
abbrev pub Outgoing : Type 0
Outgoing = List SendAnswer

-- It returns 0 or -1, the process has ended, or it has read behind the buffer.
pub data SendResult : Type 0 where
  all_sent send_failed killed read_outside : SendResult

-- The loop over the bytes that are left, and what has gone out.
unfoldable pub send_loop : Bytes → Outgoing → SendResult × Bytes × Outgoing
send_loop [] answers = (SendResult.all_sent, [], answers)
send_loop (b ∷ bs) [] = (SendResult.all_sent, b ∷ bs, [])
send_loop (b ∷ bs) (SendAnswer.failed ∷ answers) = (SendResult.send_failed, [], answers)
send_loop (b ∷ bs) (SendAnswer.sigpipe ∷ answers) = (SendResult.killed, [], answers)
send_loop (b ∷ bs) (SendAnswer.taken zero ∷ answers) = (SendResult.send_failed, [], answers)
send_loop (b ∷ bs) (SendAnswer.taken (suc n) ∷ answers) =
    let (r, sent, answers') = send_loop (drop n bs) answers in (r, b ∷ take n bs ++ sent, answers')

unfoldable pub client_net_send_all :
    Option ℕ → Option Bytes → ℕ → Outgoing → SendResult × Bytes × Outgoing
client_net_send_all (some fd) (some buf) len answers =
    if leb len (length buf)
    then send_loop (take len buf) answers
    else (SendResult.read_outside, [], answers)
client_net_send_all _ _ len answers = (SendResult.send_failed, [], answers)
