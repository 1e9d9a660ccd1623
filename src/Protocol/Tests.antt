-- ===== src/Protocol/Tests.antt =====
-- The messages of shared/protocol.c on small texts and buffers.
use chat_project.Prelude.{ℕ, ◌≤◌, ◌≡◌, refl, some, [], ◌∷◌, ◌++◌, length, replicate, arith}
use chat_project.Memory.{Bytes, ok, reject, load, copy_out}
use chat_project.Protocol.{
  ChatOpcode, ChatStatus, chat_encode_user_pass_req, chat_encode_group_rep_ok,
  chat_decode_user_pass, chat_decode_groupname, chat_decode_group_rep_ok, read_field,
}
use chat_project.Protocol.Decode.{chat_decode_user_pass-fits}
use chat_project.Protocol.Roundtrip.{chat_decode_user_pass-encode, chat_decode_group_rep_ok-encode}

abbrev empty_buf : Bytes
empty_buf = replicate 257 0

abbrev bob : Bytes
bob = 98 ∷ 111 ∷ 98 ∷ []

abbrev secret : Bytes
secret = 115 ∷ 51 ∷ []

abbrev address : Bytes
address = 49 ∷ 46 ∷ 50 ∷ []

-- `[0x03][6][3]bob[2]s3`, with two bytes of the next message behind it.
abbrev login_msg : Bytes
login_msg = 3 ∷ 7 ∷ 3 ∷ 98 ∷ 111 ∷ 98 ∷ 2 ∷ 115 ∷ 51 ∷ 5 ∷ 0 ∷ []

login_decoded : chat_decode_user_pass (some login_msg) 9 ≡ ok (bob ++ 0 ∷ [], secret ++ 0 ∷ [])
unfolding chat_decode_user_pass load read_field copy_out
login_decoded = refl

-- A group name of 40 bytes is refused.
long_name_rejected : chat_decode_groupname (some (9 ∷ 41 ∷ 40 ∷ replicate 40 97)) 43 ≡ reject
unfolding chat_decode_groupname load copy_out
long_name_rejected = refl

chat_decode_user_pass-encode_example :
    (r : ℕ × Bytes) × (chat_encode_user_pass_req
        (some empty_buf)
        ChatOpcode.login_req
        (some bob)
        (some secret)
      ≡ ok r)
    × (chat_decode_user_pass (some r.1) r.0 ≡ ok (bob ++ 0 ∷ [], secret ++ 0 ∷ []))
chat_decode_user_pass-encode_example =
    chat_decode_user_pass-encode empty_buf ChatOpcode.login_req bob secret (omega arith)
      (omega arith) (omega arith)

chat_decode_group_rep_ok-encode_example :
    (r : ℕ × Bytes) × (chat_encode_group_rep_ok
        (some empty_buf)
        ChatOpcode.create_group_rep
        (some address)
        6000
      ≡ ok r)
    × (chat_decode_group_rep_ok (some r.1) r.0
        ≡ ok
            (record { status = ChatStatus.st_ok; mcast_ip = address ++ 0 ∷ []; mcast_port = 6000 }))
chat_decode_group_rep_ok-encode_example =
    chat_decode_group_rep_ok-encode empty_buf ChatOpcode.create_group_rep address 6000 (omega arith)
      (omega arith) (omega arith)

-- `[0x08][8][0][3]1.2[2]` without the port
abbrev cut_reply : Bytes
cut_reply = 8 ∷ 8 ∷ 0 ∷ 3 ∷ 49 ∷ 46 ∷ 50 ∷ 2 ∷ 23 ∷ 112 ∷ []

chat_decode_user_pass-fits_example :
    (length (bob ++ 0 ∷ []) ≤ 33) × (length (secret ++ 0 ∷ []) ≤ 33)
chat_decode_user_pass-fits_example = chat_decode_user_pass-fits login_msg 9 login_decoded
