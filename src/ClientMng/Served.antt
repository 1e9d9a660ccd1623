-- ===== src/ClientMng/Served.antt =====
-- A request of client/client_mng.c that server/server_mng.c answers.
use mathlib.Core.Path.{subst}
use chat_project.Prelude.{
  ℕ, suc, ◌≤◌, ◌≡◌, refl, ◌∙◌, Option, some, List, [], ◌∷◌, ◌++◌, append-nil, ap, length,
  length-append, get_elem?, le→leb, arith, Bool-cases, Option-cases, inl, inr,
}
use chat_project.Memory.{Bytes, ok, load, to_byte}
use chat_project.Memory.Windows.{IsText, c_str-append_nul}
use chat_project.Malloc.{Mem, malloc}
use chat_project.HashMap
use chat_project.HashMap.Find.{is_success}
use chat_project.HashUtils.{str_eq}
use chat_project.Protocol.{
  ChatStatus, ChatOpcode, opcode_byte, status_byte, chat_max_username_len, chat_max_password_len,
  chat_peek_header, chat_decode_user_pass,
}
use chat_project.Protocol.Encode.{field, frame, chat_encode_status_rep-frame}
use chat_project.Protocol.Roundtrip.{IsListed, decode_user_pass-frame}
use chat_project.UserMng
use chat_project.UserMng.{UserMng, User, is_online, new_user, insert_user, login_as, valid_socket}
use chat_project.ServerMng.{
  ServerMng, rep_buf, if_decoded, send_reply, send_status, handle_register_req, handle_login_req,
  dispatch, handle_message,
}
use chat_project.ClientMng.Exchange.{status_frame}

-- The last message of a server, whoever it went to.
abbrev pub last_sent : List (Option ℕ × Bytes) → Bytes
last_sent [] = []
last_sent (m ∷ []) = m.1
last_sent (m ∷ n ∷ ms) = last_sent (n ∷ ms)

last_sent-snoc :
    (ms : List (Option ℕ × Bytes)) (m : Option ℕ × Bytes) → last_sent (ms ++ m ∷ []) ≡ m.1
last_sent-snoc [] m = refl
last_sent-snoc (n ∷ []) m = refl
last_sent-snoc (n ∷ k ∷ ms) m = last_sent-snoc (k ∷ ms) m

-- A request with a user name and a password.
abbrev pub user_pass_frame : ChatOpcode → Bytes → Bytes → Bytes
user_pass_frame op user pass = frame op (field user ++ field pass)

send_status-last :
    (s : ServerMng) (fd : Option ℕ) (op : ChatOpcode) (status : ChatStatus)
    → last_sent (send_status s fd op status).sent
      ≡ status_frame (opcode_byte op) (to_byte (status_byte status))
unfolding send_status send_reply
send_status-last s fd op status =
    ap (λ r. last_sent (send_reply s fd r).sent)
      (chat_encode_status_rep-frame rep_buf op status (omega arith))
    ∙ last_sent-snoc s.sent (fd, status_frame (opcode_byte op) (to_byte (status_byte status)))

decoded :
    (op : ChatOpcode) (user pass : Bytes)
    → length user ≤ chat_max_username_len
    → length pass ≤ chat_max_password_len
    → let request = user_pass_frame op user pass in
      chat_decode_user_pass (some request) (length request) ≡ ok (user ++ 0 ∷ [], pass ++ 0 ∷ [])
decoded op user pass hu hp =
    let request = user_pass_frame op user pass in
    let l = length (field user ++ field pass) in
    subst
      (λ t.
        chat_decode_user_pass (some (opcode_byte op ∷ l ∷ (field user ++ t))) (length request)
        ≡ ok (user ++ 0 ∷ [], pass ++ 0 ∷ []))
      (append-nil (field pass))
      (decode_user_pass-frame (opcode_byte op) l (length request) user pass [] hu hp
        (omega (arith, length-append user (field pass))) (omega arith))

peeked :
    (op : ChatOpcode) (payload : Bytes)
    → chat_peek_header (some (frame op payload)) (length (frame op payload))
      ≡ ok (opcode_byte op, length payload)
unfolding chat_peek_header load
peeked op payload = rw (le→leb 2 (suc (suc (length payload))) (omega arith))

-- The statuses that the two handlers reply with have names.
insert_user-IsListed :
    (mng : UserMng) (user : User) (mem : Mem) → IsListed (insert_user mng user mem).0
unfolding insert_user
insert_user-IsListed mng user mem =
    let inserted =
      HashMap.insert (some mng.users_by_name) (some user.username) (length mng.store) mem in
    elim (Option-cases inserted.1) [
      | inl lost ↦ rw (lost, insert_user) tt
      | inr (map, kept) ↦ elim (Bool-cases (is_success inserted.0)) [
        | inl done ↦ rw (kept, done, insert_user) tt
        | inr failed ↦ rw (kept, failed, insert_user) tt
      ]
    ]

pub register-IsListed :
    (mng : UserMng) (user pass : Bytes) (mem : Mem)
    → IsListed (UserMng.register mng user pass mem).0
unfolding UserMng.register
register-IsListed mng user pass mem =
    let found = is_success (HashMap.find (some mng.users_by_name) (some user)).0 in
    elim (Bool-cases found) [
      | inl there ↦ rw there tt
      | inr free ↦ elim (Bool-cases (malloc mem).0) [
        | inr no_user ↦ rw (free, no_user) tt
        | inl user_ok ↦ elim (Bool-cases (malloc (malloc mem).1).0) [
          | inr no_list ↦ rw (free, user_ok, no_list) tt
          | inl list_ok ↦
              rw (free, user_ok, list_ok) (insert_user-IsListed mng (new_user user pass) _)
        ]
      ]
    ]

pub login-IsListed :
    (mng : UserMng) (user pass : Bytes) (sockfd : Option ℕ)
    → IsListed (UserMng.login mng user pass sockfd).0
unfolding UserMng.login login_as
login-IsListed mng user pass sockfd = elim (Option-cases (valid_socket sockfd)) [
  | inl bad ↦ rw (bad, UserMng.login) tt
  | inr (fd, good) ↦ elim (Option-cases (mng.active_sockets fd)) [
    | inr (other, busy) ↦ rw (good, busy, UserMng.login) tt
    | inl free ↦ elim (Option-cases (HashMap.find (some mng.users_by_name) (some user)).1) [
      | inl missing ↦ rw (good, free, missing, UserMng.login) tt
      | inr (p, found) ↦ elim (Option-cases (get_elem? mng.store p)) [
        | inl wild ↦ rw (good, free, found, wild, UserMng.login) tt
        | inr (u, at) ↦ elim (Bool-cases (str_eq u.password pass)) [
          | inr bad ↦ rw (good, free, found, at, bad, UserMng.login) tt
          | inl right ↦ elim (Bool-cases (is_online u.state)) [
            | inl on ↦ rw (good, free, found, at, right, on, UserMng.login) tt
            | inr off ↦ rw (good, free, found, at, right, off, UserMng.login) tt
          ]
        ]
      ]
    ]
  ]
]

module _ (s : ServerMng) (fd : Option ℕ) (user pass : Bytes)
    (hu : length user ≤ chat_max_username_len) (hp : length pass ≤ chat_max_password_len)
    (text_user : IsText user) (text_pass : IsText pass) where
  -- The server's reply to a registration and to a login.
  pub register_reply :
      let request = user_pass_frame ChatOpcode.reg_req user pass in
      last_sent (handle_message fd request (length request) s).sent
      ≡ status_frame 2 (to_byte (status_byte (UserMng.register s.user_mng user pass s.mem).0))
  unfolding handle_message dispatch handle_register_req if_decoded
  register_reply =
      rw
        (
          peeked ChatOpcode.reg_req (field user ++ field pass),
          decoded ChatOpcode.reg_req user pass hu hp,
          c_str-append_nul user text_user,
          c_str-append_nul pass text_pass,
        )
        (send_status-last _ fd ChatOpcode.reg_rep _)

  pub login_reply :
      let request = user_pass_frame ChatOpcode.login_req user pass in
      last_sent (handle_message fd request (length request) s).sent
      ≡ status_frame 4 (to_byte (status_byte (UserMng.login s.user_mng user pass fd).0))
  unfolding handle_message dispatch handle_login_req if_decoded
  login_reply =
      rw
        (
          peeked ChatOpcode.login_req (field user ++ field pass),
          decoded ChatOpcode.login_req user pass hu hp,
          c_str-append_nul user text_user,
          c_str-append_nul pass text_pass,
        )
        (send_status-last _ fd ChatOpcode.login_rep _)
