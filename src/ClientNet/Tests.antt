-- ===== src/ClientNet/Tests.antt =====
-- A status reply in two pieces, and a request that goes out in three, for client/client_net.c.
use chat_project.Prelude.{
  ℕ, zero, suc, ◌<◌, ◌≡◌, refl, true, some, [], ◌∷◌, ◌++◌, arith, get_or, replicate, take,
  if◌then◌else◌, leb, ◌&&◌,
}
use chat_project.Memory.{Bytes, reject, load, copy_in}
use chat_project.Protocol.{chat_peek_header}
use chat_project.ClientNet.{
  SendAnswer, SendResult, Incoming, Outgoing, recv_exact, recv_payload, client_net_recv_msg,
  send_loop, client_net_send_all,
}
use chat_project.ClientNet.Send.{all_taken, is_zero, client_net_send_all-front}
use chat_project.ClientNet.Receive.{stream, Receives, client_net_recv_msg-read_frame}

-- The reply 6, 1, 0, with the first byte of the next one behind it.
abbrev in_pieces : Incoming
in_pieces = some (6 ∷ []) ∷ some (1 ∷ 0 ∷ 9 ∷ []) ∷ []

in_pieces-small : (i : ℕ) → get_or (stream in_pieces) i 0 < 256
in_pieces-small zero = omega arith
in_pieces-small (suc zero) = omega arith
in_pieces-small (suc (suc zero)) = omega arith
in_pieces-small (suc (suc (suc zero))) = omega arith
in_pieces-small (suc (suc (suc (suc i)))) = omega arith

client_net_recv_msg-read_frame_example :
    Receives
      (some (6 ∷ 1 ∷ 0 ∷ [], 9 ∷ []))
      (replicate 257 0)
      (client_net_recv_msg (some 3) (some (replicate 257 0)) in_pieces)
client_net_recv_msg-read_frame_example =
    client_net_recv_msg-read_frame 3 (replicate 257 0) in_pieces (omega arith) in_pieces-small

abbrev three_calls : Outgoing
three_calls = SendAnswer.taken 1 ∷ SendAnswer.taken 1 ∷ SendAnswer.taken 5 ∷ []

client_net_send_all-front_example :
    let (r, sent, _) = client_net_send_all (some 3) (some (5 ∷ 0 ∷ 7 ∷ [])) 2 three_calls in
    ((unsent : Bytes) × (sent ++ unsent ≡ take 2 (5 ∷ 0 ∷ 7 ∷ []))
      × ((if is_zero r then unsent else []) ≡ []))
    × ((if leb 2 3 && all_taken three_calls then is_zero r else true) ≡ true)
client_net_send_all-front_example = client_net_send_all-front 3 (5 ∷ 0 ∷ 7 ∷ []) 2 three_calls

-- The connection ends inside a message.
cut_short :
    (client_net_recv_msg (some 3) (some (replicate 257 0)) (some (6 ∷ 1 ∷ []) ∷ [])).0 ≡ reject
unfolding client_net_recv_msg recv_exact recv_payload copy_in chat_peek_header load
cut_short = refl

sent_in_three :
    client_net_send_all (some 3) (some (5 ∷ 0 ∷ 7 ∷ [])) 3 three_calls
    ≡ (SendResult.all_sent, 5 ∷ 0 ∷ 7 ∷ [], [])
unfolding client_net_send_all send_loop
sent_in_three = refl
