-- ===== src/ClientMng/Agree.antt =====
-- client/client_mng.c and server/server_mng.c together: the client comes to the status that the server
-- has decided.
use chat_project.Prelude.{
  ℕ, ◌≤◌, ◌<◌, ◌≡◌, ◌∙◌, ap, true, Option, some, ◌++◌, ◌||◌, length, take, length-append, get_or,
  le→leb, arith, Bool-cases, inl, inr,
}
use chat_project.Memory.{Bytes, ok, to_byte}
use chat_project.Memory.Windows.{written, IsText}
use chat_project.Protocol.{
  ChatOpcode, is_ok, status_byte, status_of_byte, chat_encode_user_pass_req, chat_max_username_len,
  chat_max_password_len,
}
use chat_project.Protocol.Encode.{field, chat_encode_user_pass_req-frame}
use chat_project.Protocol.Roundtrip.{status_of_byte-status_byte}
use chat_project.UserMng
use chat_project.ServerMng.{ServerMng, handle_message}
use chat_project.ClientNet.Send.{all_taken}
use chat_project.ClientNet.Receive.{stream}
use chat_project.ClientMng.{
  Client, msg_buf, do_user_pass, client_mng_register, client_mng_login, client_mng_is_logged_in,
}
use chat_project.ClientMng.Exchange.{Exchanged, status_frame, status_exchange-Exchanged}
use chat_project.ClientMng.Served.{
  user_pass_frame, last_sent, register_reply, login_reply, register-IsListed, login-IsListed,
}

do_user_pass-Exchanged :
    (c : Client) (op : ChatOpcode) (user pass rest : Bytes) (op' code : ℕ)
    → length user ≤ chat_max_username_len
    → length pass ≤ chat_max_password_len
    → all_taken c.outgoing ≡ true
    → stream c.incoming ≡ status_frame op' code ++ rest
    → ((i : ℕ) → get_or (stream c.incoming) i 0 < 256)
    → (c' : Client) × (do_user_pass c op user pass ≡ some (status_of_byte code, c'))
      × Exchanged c c' (user_pass_frame op user pass) rest
unfolding do_user_pass
do_user_pass-Exchanged c op user pass rest op' code hu hp taken e small =
    let request = user_pass_frame op user pass in
    let encoded : chat_encode_user_pass_req (some msg_buf) op (some user) (some pass)
        ≡ ok (length request, written request msg_buf) =
      chat_encode_user_pass_req-frame msg_buf op user pass (omega arith)
      ∙ rw (le→leb (length user) 32 hu, le→leb (length pass) 32 hp) in
    rw encoded (
      status_exchange-Exchanged c request rest op' code taken
        (omega (arith, length-append user (field pass))) e small (λ status c1. some (status, c1)))

module _ (c : Client) (s : ServerMng) (fd : Option ℕ) (user pass rest : Bytes)
    (hu : length user ≤ chat_max_username_len) (hp : length pass ≤ chat_max_password_len)
    (text_user : IsText user) (text_pass : IsText pass) (taken : all_taken c.outgoing ≡ true)
    (small : (i : ℕ) → get_or (stream c.incoming) i 0 < 256) where
  -- The stream of the client begins with the server's reply to a request.
  abbrev pub IsAnswered : Bytes → Type 0
  IsAnswered request =
      stream c.incoming ≡ last_sent (handle_message fd request (length request) s).sent ++ rest

  -- If no call of `send` fails or takes nothing, a client that registers, with a name and a password of at
  -- most 32 bytes without NUL, sends one request whole, and from a stream that begins with the server's
  -- reply to it, however it is cut, it comes to the status of the server's registration; the rest of the
  -- stream is left.
  pub client_mng_register-register :
      IsAnswered (user_pass_frame ChatOpcode.reg_req user pass)
      → (c' : Client) × (client_mng_register c (some user) (some pass)
          ≡ some ((UserMng.register s.user_mng user pass s.mem).0, c'))
        × Exchanged c c' (user_pass_frame ChatOpcode.reg_req user pass) rest
  unfolding client_mng_register
  client_mng_register-register answered =
      let status = (UserMng.register s.user_mng user pass s.mem).0 in
      let (c', run, ex) =
        do_user_pass-Exchanged c ChatOpcode.reg_req user pass rest 2 (to_byte (status_byte status))
          hu hp taken
          (answered ∙ ap (λ b. b ++ rest) (register_reply s fd user pass hu hp text_user text_pass))
          small in
      (
        c',
        run
            ∙ ap (λ t. some (t, c'))
                (status_of_byte-status_byte status (register-IsListed s.user_mng user pass s.mem)),
        ex,
      )

  -- If no call of `send` fails or takes nothing, a client that logs in, with a name and a password of at
  -- most 32 bytes without NUL, sends one request whole, and from a stream that begins with the server's
  -- reply to it, however it is cut, it comes to the status of the server's login; the rest of the stream
  -- is left, and the client counts as logged in if the login succeeds, or if it did before.
  pub client_mng_login-login :
      IsAnswered (user_pass_frame ChatOpcode.login_req user pass)
      → let status = (UserMng.login s.user_mng user pass fd).0 in
        (c' : Client) × (client_mng_login c (some user) (some pass) ≡ some (status, c'))
        × (c'.sent ≡ c.sent ++ user_pass_frame ChatOpcode.login_req user pass)
        × (stream c'.incoming ≡ rest)
        × (client_mng_is_logged_in (some c'.mng)
            ≡ (is_ok status || client_mng_is_logged_in (some c.mng)))
  unfolding client_mng_login client_mng_is_logged_in
  client_mng_login-login answered =
      let status = (UserMng.login s.user_mng user pass fd).0 in
      let (c1, run, ex) =
        do_user_pass-Exchanged c ChatOpcode.login_req user pass rest 4
          (to_byte (status_byte status)) hu hp taken
          (answered ∙ ap (λ b. b ++ rest) (login_reply s fd user pass hu hp text_user text_pass))
          small in
      let known =
        run
        ∙ ap (λ t. some (t, c1))
            (status_of_byte-status_byte status (login-IsListed s.user_mng user pass fd)) in
      elim (Bool-cases (is_ok status)) [
        | inl good ↦ (
          record c1 {
            mng = record c1.mng { logged_in = true; username = take chat_max_username_len user };
          },
          rw (client_mng_login, known, good),
          ex.sent_eq,
          ex.left,
          rw good,
        )
        | inr bad ↦ (
          c1,
          rw (client_mng_login, known, bad),
          ex.sent_eq,
          ex.left,
          rw bad (ap (λ m. m.logged_in) ex.mng_eq),
        )
      ]
