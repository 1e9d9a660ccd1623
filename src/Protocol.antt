-- ===== src/Protocol.antt =====
-- The TLV codec of shared/protocol.c with the constants of shared/protocol.h.
-- A pointer that the code tests for NULL is an option; the out parameters of a decoder are its
-- result. An encoder takes the caller's buffer and returns its length and its new contents.
pub mod Encode
pub mod Decode
pub mod Roundtrip
mod Tests
use chat_project.Prelude.{
  ℕ, ◌+◌, ◌-◌, ◌*◌, ◌/◌, ◌%◌, Bool, true, false, Option, none, some, ◌∷◌, [], ◌++◌, ltb, leb,
  length, ◌&&◌, ◌||◌, not, if◌then◌else◌, ◌==◌,
}
use chat_project.Memory.{
  Bytes, Run, ok, reject, ◌>>=◌, ◌>>◌, guard, to_byte, load, store, copy_out, copy_in,
}

abbrev pub chat_max_payload : ℕ
chat_max_payload = 255

abbrev pub chat_max_msg_size : ℕ
chat_max_msg_size = 2 + chat_max_payload

abbrev pub chat_max_username_len : ℕ
chat_max_username_len = 32

abbrev pub chat_max_password_len : ℕ
chat_max_password_len = 32

abbrev pub chat_max_groupname_len : ℕ
chat_max_groupname_len = 32

abbrev pub chat_max_ip_str_len : ℕ
chat_max_ip_str_len = 16

pub data ChatOpcode : Type 0 where
  reg_req reg_rep login_req login_rep logout_req logout_rep : ChatOpcode
  create_group_req create_group_rep join_group_req join_group_rep : ChatOpcode
  leave_group_req leave_group_rep : ChatOpcode

-- The value of an opcode on the wire.
abbrev pub opcode_byte : ChatOpcode → ℕ
opcode_byte ChatOpcode.reg_req = 1
opcode_byte ChatOpcode.reg_rep = 2
opcode_byte ChatOpcode.login_req = 3
opcode_byte ChatOpcode.login_rep = 4
opcode_byte ChatOpcode.logout_req = 5
opcode_byte ChatOpcode.logout_rep = 6
opcode_byte ChatOpcode.create_group_req = 7
opcode_byte ChatOpcode.create_group_rep = 8
opcode_byte ChatOpcode.join_group_req = 9
opcode_byte ChatOpcode.join_group_rep = 10
opcode_byte ChatOpcode.leave_group_req = 11
opcode_byte ChatOpcode.leave_group_rep = 12

-- A status; `unlisted` is a byte that the enumeration has no name for, which a cast may yield.
pub data ChatStatus : Type 0 where
  st_ok user_exists user_not_found bad_password already_logged_in not_logged_in : ChatStatus
  group_exists group_not_found already_in_group not_in_group server_full protocol : ChatStatus
  unlisted : ℕ → ChatStatus

abbrev pub status_byte : ChatStatus → ℕ
status_byte ChatStatus.st_ok = 0
status_byte ChatStatus.user_exists = 1
status_byte ChatStatus.user_not_found = 2
status_byte ChatStatus.bad_password = 3
status_byte ChatStatus.already_logged_in = 4
status_byte ChatStatus.not_logged_in = 5
status_byte ChatStatus.group_exists = 6
status_byte ChatStatus.group_not_found = 7
status_byte ChatStatus.already_in_group = 8
status_byte ChatStatus.not_in_group = 9
status_byte ChatStatus.server_full = 10
status_byte ChatStatus.protocol = 255
status_byte (ChatStatus.unlisted b) = b

-- The cast `(ChatStatus)b`.
abbrev pub status_of_byte : ℕ → ChatStatus
status_of_byte b =
    if b == 0
    then ChatStatus.st_ok
    else if b == 1
    then ChatStatus.user_exists
    else if b == 2
    then ChatStatus.user_not_found
    else if b == 3
    then ChatStatus.bad_password
    else if b == 4
    then ChatStatus.already_logged_in
    else if b == 5
    then ChatStatus.not_logged_in
    else if b == 6
    then ChatStatus.group_exists
    else if b == 7
    then ChatStatus.group_not_found
    else if b == 8
    then ChatStatus.already_in_group
    else if b == 9
    then ChatStatus.not_in_group
    else if b == 10
    then ChatStatus.server_full
    else if b == 255
    then ChatStatus.protocol
    else ChatStatus.unlisted b

abbrev pub is_ok : ChatStatus → Bool
is_ok ChatStatus.st_ok = true
is_ok _ = false

unfoldable pub chat_peek_header : Option Bytes → ℕ → Run (ℕ × ℕ)
chat_peek_header none buf_len = reject
chat_peek_header (some buf) buf_len = do
  guard (leb 2 buf_len)
  out_type ← load buf 0
  out_len ← load buf 1
  ok (out_type, out_len)

unfoldable pub chat_encode_user_pass_req :
    Option Bytes → ChatOpcode → Option Bytes → Option Bytes → Run (ℕ × Bytes)
chat_encode_user_pass_req (some buf) op (some user) (some pass) = do
  let ulen = length user
  let plen = length pass
  guard (leb ulen chat_max_username_len && leb plen chat_max_password_len)
  let payload = 1 + ulen + 1 + plen
  guard (leb payload chat_max_payload)
  b1 ← store buf 0 (to_byte (opcode_byte op))
  b2 ← store b1 1 (to_byte payload)
  b3 ← store b2 2 (to_byte ulen)
  b4 ← copy_in b3 3 user
  b5 ← store b4 (3 + ulen) (to_byte plen)
  b6 ← copy_in b5 (4 + ulen) pass
  ok (2 + payload, b6)
chat_encode_user_pass_req _ _ _ _ = reject

-- One `[L][V]` field at `pos`: what goes to the out array, with its NUL, and the next position.
unfoldable pub read_field : Bytes → ℕ → ℕ → ℕ → Run (Bytes × ℕ)
read_field buf buf_len max_len pos = do
  guard (ltb pos buf_len)
  flen ← load buf pos
  guard (leb flen max_len && leb (pos + 1 + flen) buf_len)
  chars ← copy_out buf (pos + 1) flen
  ok (chars ++ 0 ∷ [], pos + 1 + flen)

unfoldable pub chat_decode_user_pass : Option Bytes → ℕ → Run (Bytes × Bytes)
chat_decode_user_pass none buf_len = reject
chat_decode_user_pass (some buf) buf_len = do
  guard (leb 2 buf_len)
  payload ← load buf 1
  guard (leb (2 + payload) buf_len)
  (out_user, pos) ← read_field buf buf_len chat_max_username_len 2
  (out_pass, _) ← read_field buf buf_len chat_max_password_len pos
  ok (out_user, out_pass)

unfoldable pub chat_encode_status_rep : Option Bytes → ChatOpcode → ChatStatus → Run (ℕ × Bytes)
chat_encode_status_rep none op status = reject
chat_encode_status_rep (some buf) op status = do
  b1 ← store buf 0 (to_byte (opcode_byte op))
  b2 ← store b1 1 1
  b3 ← store b2 2 (to_byte (status_byte status))
  ok (3, b3)

unfoldable pub chat_decode_status_rep : Option Bytes → ℕ → Run ChatStatus
chat_decode_status_rep none buf_len = reject
chat_decode_status_rep (some buf) buf_len = do
  guard (leb 3 buf_len)
  payload ← load buf 1
  guard (payload == 1)
  code ← load buf 2
  ok (status_of_byte code)

unfoldable pub chat_encode_groupname_req :
    Option Bytes → ChatOpcode → Option Bytes → Run (ℕ × Bytes)
chat_encode_groupname_req (some buf) op (some group) = do
  let glen = length group
  guard (leb glen chat_max_groupname_len)
  let payload = 1 + glen
  guard (leb payload chat_max_payload)
  b1 ← store buf 0 (to_byte (opcode_byte op))
  b2 ← store b1 1 (to_byte payload)
  b3 ← store b2 2 (to_byte glen)
  b4 ← copy_in b3 3 group
  ok (2 + payload, b4)
chat_encode_groupname_req _ _ _ = reject

unfoldable pub chat_decode_groupname : Option Bytes → ℕ → Run Bytes
chat_decode_groupname none buf_len = reject
chat_decode_groupname (some buf) buf_len = do
  guard (leb 2 buf_len)
  payload ← load buf 1
  guard (leb (2 + payload) buf_len)
  guard (leb 1 payload)
  glen ← load buf 2
  guard (leb glen chat_max_groupname_len && leb (3 + glen) buf_len)
  chars ← copy_out buf 3 glen
  ok (chars ++ 0 ∷ [])

unfoldable pub chat_encode_logout_req : Option Bytes → Run (ℕ × Bytes)
chat_encode_logout_req none = reject
chat_encode_logout_req (some buf) = do
  b1 ← store buf 0 (to_byte (opcode_byte ChatOpcode.logout_req))
  b2 ← store b1 1 0
  ok (2, b2)

unfoldable pub chat_encode_group_rep_ok :
    Option Bytes → ChatOpcode → Option Bytes → ℕ → Run (ℕ × Bytes)
chat_encode_group_rep_ok (some buf) op (some mcast_ip) mcast_port = do
  let iplen = length mcast_ip
  guard (ltb iplen chat_max_ip_str_len)
  let payload = 1 + (1 + iplen) + (1 + 2)
  guard (leb payload chat_max_payload)
  b1 ← store buf 0 (to_byte (opcode_byte op))
  b2 ← store b1 1 (to_byte payload)
  b3 ← store b2 2 (to_byte (status_byte ChatStatus.st_ok))
  b4 ← store b3 3 (to_byte iplen)
  b5 ← copy_in b4 4 mcast_ip
  b6 ← store b5 (4 + iplen) 2
  b7 ← store b6 (5 + iplen) (to_byte (mcast_port / 256))
  b8 ← store b7 (6 + iplen) (to_byte (mcast_port % 256))
  ok (2 + payload, b8)
chat_encode_group_rep_ok _ _ _ _ = reject

-- What `chat_decode_group_rep_ok` fills in.
pub record GroupRep : Type 0 where
  pub status : ChatStatus
  pub mcast_ip : Bytes
  pub mcast_port : ℕ

-- The success form: `[Lip][ip][Lport=2][hi][lo]` from position 3 on.
unfoldable pub decode_address : Bytes → ℕ → ChatStatus → Run GroupRep
decode_address buf buf_len status = do
  (ip, pos) ← read_field buf buf_len (chat_max_ip_str_len - 1) 3
  guard (ltb pos buf_len)
  portlen ← load buf pos
  guard (portlen == 2 && leb (pos + 1 + 2) buf_len)
  hi ← load buf (pos + 1)
  lo ← load buf (pos + 1 + 1)
  ok (record { status = status; mcast_ip = ip; mcast_port = (hi * 256 + lo) % 65536 })

unfoldable pub chat_decode_group_rep_ok : Option Bytes → ℕ → Run GroupRep
chat_decode_group_rep_ok none buf_len = reject
chat_decode_group_rep_ok (some buf) buf_len = do
  guard (leb 3 buf_len)
  payload ← load buf 1
  guard (leb (2 + payload) buf_len && leb 1 payload)
  code ← load buf 2
  let status = status_of_byte code
  if not (is_ok status) || payload == 1
      then ok (record { status = status; mcast_ip = 0 ∷ []; mcast_port = 0 })
      else decode_address buf buf_len status
