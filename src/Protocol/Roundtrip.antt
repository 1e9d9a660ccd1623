-- ===== src/Protocol/Roundtrip.antt =====
-- What an encoder of shared/protocol.c writes, the matching decoder reads back.
use chat_project.Prelude.{
  ℕ, ◌+◌, ◌*◌, ◌/◌, ◌%◌, ◌≤◌, ◌<◌, ◌≡◌, refl, sym, ap, ◌∙◌, some, [], ◌∷◌, ◌++◌, length, arith,
  append_assoc, length-append, le→leb, lt→ltb, ne→eqb,
}
use chat_project.Memory.{Bytes, ok, to_byte, load, copy_out}
use chat_project.Memory.Windows.{written, load-append, load-append_right, copy_out-append}
use chat_project.Protocol.{
  ChatOpcode, opcode_byte, ChatStatus, status_byte, status_of_byte, read_field, decode_address,
  chat_max_msg_size, chat_encode_user_pass_req, chat_encode_status_rep, chat_encode_groupname_req,
  chat_encode_group_rep_ok, chat_decode_user_pass, chat_decode_status_rep, chat_decode_groupname,
  chat_decode_group_rep_ok, chat_max_username_len, chat_max_password_len, chat_max_groupname_len,
  chat_max_ip_str_len,
}
use chat_project.Protocol.Encode.{
  field, frame, port_field, address_payload, chat_encode_user_pass_req-frame,
  chat_encode_status_rep-frame, chat_encode_groupname_req-frame, chat_encode_group_rep_ok-frame,
}

abbrev pub IsListed : ChatStatus → Type 0
IsListed (ChatStatus.unlisted b) = ⊥
IsListed _ = Unit

-- A field that lies inside the buffer is read, and the position moves behind it.
read_field-field :
    (p v r : Bytes) (n max_len pos : ℕ)
    → pos ≡ length p
    → length v ≤ max_len
    → pos + 1 + length v ≤ n
    → read_field (p ++ (field v ++ r)) n max_len pos ≡ ok (v ++ 0 ∷ [], pos + 1 + length v)
unfolding read_field
read_field-field p v r n max_len pos e small inside = rw (
  lt→ltb pos n (omega arith),
  load-append p (length v) (v ++ r) pos e,
  le→leb (length v) max_len small,
  le→leb (pos + 1 + length v) n inside,
  ap (λ t. copy_out t (pos + 1) (length v)) (sym (append_assoc p (length v ∷ []) (v ++ r))),
  copy_out-append (p ++ length v ∷ []) v r (pos + 1) (length v)
      (omega (arith, length-append p (length v ∷ []))) refl,
)

pub decode_user_pass-frame :
    (t l n : ℕ) (user pass rest : Bytes)
    → length user ≤ chat_max_username_len
    → length pass ≤ chat_max_password_len
    → l ≡ 2 + length user + length pass
    → n ≡ 2 + l
    → chat_decode_user_pass (some (t ∷ l ∷ (field user ++ (field pass ++ rest)))) n
      ≡ ok (user ++ 0 ∷ [], pass ++ 0 ∷ [])
unfolding chat_decode_user_pass load
decode_user_pass-frame t l n user pass rest hu hp e e' = rw (
  le→leb 2 n (omega arith),
  le→leb (2 + l) n (omega arith),
  read_field-field (t ∷ l ∷ []) user (field pass ++ rest) n 32 2 refl hu (omega arith),
  read_field-field (t ∷ l ∷ field user) pass rest n 32 (2 + 1 + length user) (omega arith) hp
      (omega arith),
)

-- Into a buffer of at least 257 bytes, a user name and a password of at most 32 bytes each are
-- encoded, and the decoder gets both back from the encoder's buffer and length, each with a NUL
-- behind it.
pub chat_decode_user_pass-encode :
    (buf : Bytes) (op : ChatOpcode) (user pass : Bytes)
    → chat_max_msg_size ≤ length buf
    → length user ≤ chat_max_username_len
    → length pass ≤ chat_max_password_len
    → (r : ℕ × Bytes) × (chat_encode_user_pass_req (some buf) op (some user) (some pass) ≡ ok r)
      × (chat_decode_user_pass (some r.1) r.0 ≡ ok (user ++ 0 ∷ [], pass ++ 0 ∷ []))
chat_decode_user_pass-encode buf op user pass h hu hp =
    let f = frame op (field user ++ field pass) in
    (
      (length f, written f buf),
      chat_encode_user_pass_req-frame buf op user pass h
          ∙ rw (le→leb (length user) 32 hu, le→leb (length pass) 32 hp),
      ap
            (λ t.
              chat_decode_user_pass
                (some (opcode_byte op ∷ length (field user ++ field pass) ∷ length user ∷ t))
                (length f))
            (append_assoc user (field pass) _)
          ∙ decode_user_pass-frame _ _ _ user pass _ hu hp
              (omega (arith, length-append user (field pass))) (omega arith),
    )

decode_groupname-frame :
    (t l n : ℕ) (group rest : Bytes)
    → length group ≤ chat_max_groupname_len
    → l ≡ 1 + length group
    → n ≡ 2 + l
    → chat_decode_groupname (some (t ∷ l ∷ (field group ++ rest))) n ≡ ok (group ++ 0 ∷ [])
unfolding chat_decode_groupname load
decode_groupname-frame t l n group rest h e e' = rw (
  le→leb 2 n (omega arith),
  le→leb (2 + l) n (omega arith),
  le→leb 1 l (omega arith),
  le→leb (length group) 32 h,
  le→leb (3 + length group) n (omega arith),
  copy_out-append (t ∷ l ∷ length group ∷ []) group rest 3 (length group) refl refl,
)

-- Into a buffer of at least 257 bytes, a group name of at most 32 bytes is encoded, and the decoder
-- gets it back with a NUL behind it.
pub chat_decode_groupname-encode :
    (buf : Bytes) (op : ChatOpcode) (group : Bytes)
    → chat_max_msg_size ≤ length buf
    → length group ≤ chat_max_groupname_len
    → (r : ℕ × Bytes) × (chat_encode_groupname_req (some buf) op (some group) ≡ ok r)
      × (chat_decode_groupname (some r.1) r.0 ≡ ok (group ++ 0 ∷ []))
chat_decode_groupname-encode buf op group h small =
    let f = frame op (field group) in
    (
      (length f, written f buf),
      chat_encode_groupname_req-frame buf op group h ∙ rw (le→leb (length group) 32 small),
      decode_groupname-frame _ _ _ group _ small (omega arith) (omega arith),
    )

-- A status of the enumeration survives the cast to a byte and back.
pub status_of_byte-status_byte :
    (s : ChatStatus) → IsListed s → status_of_byte (to_byte (status_byte s)) ≡ s
status_of_byte-status_byte (ChatStatus.unlisted b) h = absurd h
status_of_byte-status_byte s h = refl

-- Into a buffer of at least 257 bytes, every status that has a name is encoded, and the decoder gets
-- it back.
pub chat_decode_status_rep-encode :
    (buf : Bytes) (op : ChatOpcode) (status : ChatStatus)
    → chat_max_msg_size ≤ length buf
    → IsListed status
    → (r : ℕ × Bytes) × (chat_encode_status_rep (some buf) op status ≡ ok r)
      × (chat_decode_status_rep (some r.1) r.0 ≡ ok status)
unfolding chat_decode_status_rep load
chat_decode_status_rep-encode buf op status h listed =
    let f = frame op (to_byte (status_byte status) ∷ []) in
    (
      (length f, written f buf),
      chat_encode_status_rep-frame buf op status h,
      ap ok (status_of_byte-status_byte status listed),
    )

decode_address-frame :
    (t l n port : ℕ) (ip rest : Bytes)
    → length ip < chat_max_ip_str_len
    → port < 65536
    → l ≡ 5 + length ip
    → n ≡ 2 + l
    → chat_decode_group_rep_ok (some (t ∷ l ∷ 0 ∷ (field ip ++ (port_field port ++ rest)))) n
      ≡ ok (record { status = ChatStatus.st_ok; mcast_ip = ip ++ 0 ∷ []; mcast_port = port })
unfolding chat_decode_group_rep_ok decode_address load
decode_address-frame t l n port ip rest small word e e' =
    rw
      (
        le→leb 3 n (omega arith),
        le→leb (2 + l) n (omega arith),
        le→leb 1 l (omega arith),
        ne→eqb l 1 (omega arith),
        read_field-field (t ∷ l ∷ 0 ∷ []) ip (port_field port ++ rest) n 15 3 refl (omega arith)
            (omega arith),
        lt→ltb (3 + 1 + length ip) n (omega arith),
        load-append_right start port_bytes (3 + 1 + length ip) 0 (omega arith),
        le→leb (3 + 1 + length ip + 1 + 2) n (omega arith),
        load-append_right start port_bytes (3 + 1 + length ip + 1) 1 (omega arith),
        load-append_right start port_bytes (3 + 1 + length ip + 1 + 1) 2 (omega arith),
      )
      (ap (λ k. ok (record { status = ChatStatus.st_ok; mcast_ip = ip ++ 0 ∷ []; mcast_port = k }))
        back)
  where
    start : Bytes
    start = t ∷ l ∷ 0 ∷ field ip

    port_bytes : Bytes
    port_bytes = port_field port ++ rest

    back : (to_byte (port / 256) * 256 + to_byte (port % 256)) % 65536 ≡ port
    back = omega arith

-- Into a buffer of at least 257 bytes, an address of at most 15 bytes and a 16-bit port are encoded,
-- and the decoder gets them back with an OK status, the address with a NUL behind it.
pub chat_decode_group_rep_ok-encode :
    (buf : Bytes) (op : ChatOpcode) (ip : Bytes) (port : ℕ)
    → chat_max_msg_size ≤ length buf
    → length ip < chat_max_ip_str_len
    → port < 65536
    → (r : ℕ × Bytes) × (chat_encode_group_rep_ok (some buf) op (some ip) port ≡ ok r)
      × (chat_decode_group_rep_ok (some r.1) r.0
          ≡ ok (record { status = ChatStatus.st_ok; mcast_ip = ip ++ 0 ∷ []; mcast_port = port }))
chat_decode_group_rep_ok-encode buf op ip port h small word =
    let f = frame op (address_payload ip port) in
    (
      (length f, written f buf),
      chat_encode_group_rep_ok-frame buf op ip port h ∙ rw (lt→ltb (length ip) 16 small),
      ap
            (λ t.
              chat_decode_group_rep_ok
                (some (opcode_byte op ∷ length (address_payload ip port) ∷ 0 ∷ length ip ∷ t))
                (length f))
            (append_assoc ip (port_field port) _)
          ∙ decode_address-frame _ _ _ port ip _ small word
              (omega (arith, length-append ip (port_field port))) (omega arith),
    )

-- A failed create or join is a plain status reply, which the address decoder reads as that status.
pub chat_decode_group_rep_ok-failure :
    (buf : Bytes) (op : ChatOpcode) (status : ChatStatus)
    → chat_max_msg_size ≤ length buf
    → IsListed status
    → (r : ℕ × Bytes) × (chat_encode_status_rep (some buf) op status ≡ ok r)
      × (chat_decode_group_rep_ok (some r.1) r.0
          ≡ ok (record { status = status; mcast_ip = 0 ∷ []; mcast_port = 0 }))
unfolding chat_decode_group_rep_ok load
chat_decode_group_rep_ok-failure buf op status h listed =
    let f = frame op (to_byte (status_byte status) ∷ []) in
    (
      (length f, written f buf),
      chat_encode_status_rep-frame buf op status h,
      ground (arith, status_of_byte-status_byte status listed),
    )
