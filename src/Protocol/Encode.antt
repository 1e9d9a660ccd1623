-- ===== src/Protocol/Encode.antt =====
-- The encoders of shared/protocol.c against the frames that shared/protocol.h describes.
use chat_project.Prelude.{
  ℕ, ◌+◌, ◌/◌, ◌%◌, ◌≤◌, ◌<◌, ◌≡◌, refl, ap, ap₂, ◌∙◌, some, [], ◌∷◌, ◌++◌, ltb, leb, length, ◌&&◌,
  if◌then◌else◌, arith, length-append, inl, inr, Bool-cases, leb→le, ltb→lt, le→leb, append_assoc,
}
use chat_project.Memory.{Bytes, Run, ok, reject, to_byte}
use chat_project.Memory.Windows.{written, store-written, copy_in-written}
use chat_project.Protocol.{
  ChatOpcode, opcode_byte, ChatStatus, status_byte, chat_max_msg_size, chat_max_username_len,
  chat_max_password_len, chat_max_groupname_len, chat_max_ip_str_len, chat_encode_user_pass_req,
  chat_encode_status_rep, chat_encode_groupname_req, chat_encode_logout_req,
  chat_encode_group_rep_ok,
}

-- One sub-field: `[Li:1][Vi:Li]`.
abbrev pub field : Bytes → Bytes
field v = length v ∷ v

-- A frame: `[T:1][L:1][payload:L]`.
abbrev pub frame : ChatOpcode → Bytes → Bytes
frame op payload = opcode_byte op ∷ length payload ∷ payload

-- The buffer holds `bytes` in front, its other bytes are as before, and the length is returned.
abbrev pub emitted : Bytes → Bytes → Run (ℕ × Bytes)
emitted bytes buf = ok (length bytes, written bytes buf)

pub byte-opcode_byte : (op : ChatOpcode) → to_byte (opcode_byte op) ≡ opcode_byte op
byte-opcode_byte op = ground arith

emitted_eq :
    (n : ℕ) (p f buf : Bytes) → n ≡ length f → p ≡ f → ok (n, written p buf) ≡ emitted f buf
emitted_eq n p f buf e q = ap₂ (λ k t. ok (k, written t buf)) e q

-- What the stores of a header and a payload leave is the frame.
frame_eq :
    (op : ChatOpcode) (n : ℕ) (rest payload : Bytes)
    → n ≡ length payload
    → length payload < 256
    → rest ≡ payload
    → to_byte (opcode_byte op) ∷ to_byte n ∷ rest ≡ frame op payload
frame_eq op n rest payload e h q =
    ap₂ ◌∷◌ (byte-opcode_byte op)
      (ap₂ ◌∷◌ (let small : to_byte n ≡ length payload = omega arith in small) q)

-- Into a buffer of at least 257 bytes, a user name and a password of at most 32 bytes each are
-- written as a frame with two fields, and anything longer is rejected.
pub chat_encode_user_pass_req-frame :
    (buf : Bytes) (op : ChatOpcode) (user pass : Bytes)
    → chat_max_msg_size ≤ length buf
    → chat_encode_user_pass_req (some buf) op (some user) (some pass) ≡ (
        if leb (length user) chat_max_username_len && leb (length pass) chat_max_password_len
        then emitted (frame op (field user ++ field pass)) buf
        else reject)
unfolding chat_encode_user_pass_req
chat_encode_user_pass_req-frame buf op user pass h =
    elim (Bool-cases (leb (length user) 32 && leb (length pass) 32)) [
      | inr no_fit ↦ rw no_fit
      | inl fits ↦
          let lens : (length user ≤ 32) × (length pass ≤ 32) = ground arith in
          rw
            (
              fits,
              le→leb (1 + length user + 1 + length pass) 255 (omega arith),
              store-written [] buf 0 (to_byte (opcode_byte op)) refl (omega arith),
              store-written (a ∷ []) buf 1 (to_byte (1 + length user + 1 + length pass)) refl
                  (omega arith),
              store-written (a ∷ b ∷ []) buf 2 (to_byte (length user)) refl (omega arith),
              copy_in-written (a ∷ b ∷ c ∷ []) buf 3 user refl (omega arith),
              store-written (a ∷ b ∷ c ∷ user) buf (3 + length user) (to_byte (length pass))
                  (omega arith) (omega arith),
              copy_in-written ((a ∷ b ∷ c ∷ user) ++ d ∷ []) buf (4 + length user) pass
                  (omega (arith, length-append user (d ∷ [])))
                  (omega (arith, length-append user (d ∷ []))),
            )
            (emitted_eq _ _ _ buf (omega (arith, length-append user (field pass))) (
              frame_eq op (1 + length user + 1 + length pass) _ (field user ++ field pass)
                (omega (arith, length-append user (field pass)))
                (omega (arith, length-append user (field pass)))
                (ap₂ ◌∷◌ (let small : c ≡ length user = omega arith in small) (
                  append_assoc user (d ∷ []) pass
                  ∙ ap (λ t. user ++ (t ∷ pass))
                      (let small : d ≡ length pass = omega arith in small)))))
    ]
  where
    a : ℕ
    a = to_byte (opcode_byte op)

    b : ℕ
    b = to_byte (1 + length user + 1 + length pass)

    c : ℕ
    c = to_byte (length user)

    d : ℕ
    d = to_byte (length pass)

-- A group name of at most 32 bytes is framed, and a longer one is rejected.
pub chat_encode_groupname_req-frame :
    (buf : Bytes) (op : ChatOpcode) (group : Bytes)
    → chat_max_msg_size ≤ length buf
    → chat_encode_groupname_req (some buf) op (some group) ≡ (
        if leb (length group) chat_max_groupname_len
        then emitted (frame op (field group)) buf
        else reject)
unfolding chat_encode_groupname_req
chat_encode_groupname_req-frame buf op group h = elim (Bool-cases (leb (length group) 32)) [
  | inr no_fit ↦ rw no_fit
  | inl fits ↦
      let small : length group ≤ 32 = leb→le (length group) 32 fits in
      rw
        (
          fits,
          le→leb (1 + length group) 255 (omega arith),
          store-written [] buf 0 a refl (omega arith),
          store-written (a ∷ []) buf 1 (to_byte (1 + length group)) refl (omega arith),
          store-written (a ∷ to_byte (1 + length group) ∷ []) buf 2 c refl (omega arith),
          copy_in-written (a ∷ to_byte (1 + length group) ∷ c ∷ []) buf 3 group refl (omega arith),
        )
        (emitted_eq _ _ _ buf (omega arith) (
          frame_eq op (1 + length group) _ (field group) (omega arith) (omega arith)
            (ap (λ t. t ∷ group) (let e : c ≡ length group = omega arith in e))))
]
  where
    a : ℕ
    a = to_byte (opcode_byte op)

    c : ℕ
    c = to_byte (length group)

-- A status reply is the opcode, the length 1 and the code; a logout request has no payload.
pub chat_encode_status_rep-frame :
    (buf : Bytes) (op : ChatOpcode) (status : ChatStatus)
    → chat_max_msg_size ≤ length buf
    → chat_encode_status_rep (some buf) op status
      ≡ emitted (frame op (to_byte (status_byte status) ∷ [])) buf
unfolding chat_encode_status_rep
chat_encode_status_rep-frame buf op status h =
    rw
      (
        store-written [] buf 0 a refl (omega arith),
        store-written (a ∷ []) buf 1 1 refl (omega arith),
        store-written (a ∷ 1 ∷ []) buf 2 (to_byte (status_byte status)) refl (omega arith),
      )
      (emitted_eq _ _ _ buf (omega arith)
        (ap (λ t. t ∷ 1 ∷ to_byte (status_byte status) ∷ []) (byte-opcode_byte op)))
  where
    a : ℕ
    a = to_byte (opcode_byte op)

pub chat_encode_logout_req-frame :
    (buf : Bytes)
    → chat_max_msg_size ≤ length buf
    → chat_encode_logout_req (some buf) ≡ emitted (frame ChatOpcode.logout_req []) buf
unfolding chat_encode_logout_req
chat_encode_logout_req-frame buf h =
    rw (
      store-written [] buf 0 5 refl (omega arith),
      store-written (5 ∷ []) buf 1 0 refl (omega arith),
    )

-- The port as a sub-field of two bytes, big-endian.
abbrev pub port_field : ℕ → Bytes
port_field port = 2 ∷ to_byte (port / 256) ∷ to_byte (port % 256) ∷ []

-- The payload of a successful create or join reply.
abbrev pub address_payload : Bytes → ℕ → Bytes
address_payload ip port = status_byte ChatStatus.st_ok ∷ (field ip ++ port_field port)

-- An address of at most 15 bytes is framed behind an OK status, and a longer one is rejected.
pub chat_encode_group_rep_ok-frame :
    (buf : Bytes) (op : ChatOpcode) (ip : Bytes) (port : ℕ)
    → chat_max_msg_size ≤ length buf
    → chat_encode_group_rep_ok (some buf) op (some ip) port ≡ (
        if ltb (length ip) chat_max_ip_str_len
        then emitted (frame op (address_payload ip port)) buf
        else reject)
unfolding chat_encode_group_rep_ok
chat_encode_group_rep_ok-frame buf op ip port h = elim (Bool-cases (ltb (length ip) 16)) [
  | inr no_fit ↦ rw no_fit
  | inl fits ↦
      let small : length ip < 16 = ltb→lt (length ip) 16 fits in
      rw
        (
          fits,
          le→leb n 255 (omega arith),
          store-written [] buf 0 a refl (omega arith),
          store-written (a ∷ []) buf 1 (to_byte n) refl (omega arith),
          store-written (a ∷ to_byte n ∷ []) buf 2 (to_byte 0) refl (omega arith),
          store-written (a ∷ to_byte n ∷ 0 ∷ []) buf 3 (to_byte (length ip)) refl (omega arith),
          copy_in-written start buf 4 ip refl (omega arith),
          store-written (start ++ ip) buf (4 + length ip) 2 (omega arith) (omega arith),
          store-written ((start ++ ip) ++ 2 ∷ []) buf (5 + length ip) hi
              (omega (arith, length-append ip (2 ∷ []))) (omega (arith, length-append ip (2 ∷ []))),
          store-written (((start ++ ip) ++ 2 ∷ []) ++ hi ∷ []) buf (6 + length ip) lo
              (omega (arith, length-append ip (2 ∷ []), length-append (ip ++ 2 ∷ []) (hi ∷ [])))
              (omega (arith, length-append ip (2 ∷ []), length-append (ip ++ 2 ∷ []) (hi ∷ []))),
        )
        (emitted_eq _ _ _ buf (omega (arith, length-append ip (port_field port))) (
          frame_eq op n _ (address_payload ip port)
            (omega (arith, length-append ip (port_field port)))
            (omega (arith, length-append ip (port_field port)))
            (ap₂ (λ t u. 0 ∷ t ∷ u) (let e : to_byte (length ip) ≡ length ip = omega arith in e)
              tail_eq)))
]
  where
    n : ℕ
    n = 1 + (1 + length ip) + (1 + 2)

    a : ℕ
    a = to_byte (opcode_byte op)

    start : Bytes
    start = a ∷ to_byte n ∷ 0 ∷ to_byte (length ip) ∷ []

    hi : ℕ
    hi = to_byte (port / 256)

    lo : ℕ
    lo = to_byte (port % 256)

    tail_eq : ((ip ++ 2 ∷ []) ++ hi ∷ []) ++ lo ∷ [] ≡ ip ++ port_field port
    tail_eq =
        append_assoc (ip ++ 2 ∷ []) (hi ∷ []) (lo ∷ []) ∙ append_assoc ip (2 ∷ []) (hi ∷ lo ∷ [])
