-- ===== src/ServerMng/Reach.antt =====
-- Every state that server/server_mng.c reaches by messages and disconnections is sound.
use chat_project.Prelude.{
  ℕ, ◌+◌, ◌≤◌, ◌≡◌, Bool, true, false, Option, some, length, ◌==◌, if◌then◌else◌, leb,
}
use chat_project.Memory.{Bytes, ok, c_str, load}
use chat_project.Memory.Reads.{>>=-eq-ok, guard-eq-ok}
use chat_project.Protocol.{
  ChatOpcode, read_field, chat_peek_header, chat_decode_user_pass, chat_decode_groupname,
}
use mathlib.Core.Path.{subst}
use chat_project.UserMng
use chat_project.UserMng.Register.{register-Registered}
use chat_project.ServerMng.{
  ServerMng, on_user_implicit_leave, handle_register_req, handle_login_req, handle_logout_req,
  handle_create_group_req, handle_join_group_req, handle_leave_group_req, dispatch, handle_message,
  on_disconnect,
}
use chat_project.ServerMng.Invariant.{
  IsSound, login-IsSound, logout-IsSound, if_decoded-IsSound, read_field-short,
}
use chat_project.ServerMng.Groups.{
  send_status-IsSound, create_for-IsSound, join_for-IsSound, leave_for-IsSound,
}

-- The user name of a decoded message is a C string of at most 32 bytes.
decoded_name-short :
    (buf : Bytes) (n : ℕ) {r : Bytes × Bytes}
    → chat_decode_user_pass (some buf) n ≡ ok r
    → length (c_str r.0) ≤ 32
unfolding chat_decode_user_pass
decoded_name-short buf n {r} h =
    let (_, h1) = guard-eq-ok (leb 2 n) _ h in
    let (payload, _, h2) = >>=-eq-ok (load buf 1) _ h1 in
    let (_, h3) = guard-eq-ok (leb (2 + payload) n) _ h2 in
    let (u, got_u, h4) = >>=-eq-ok (read_field buf n 32 2) _ h3 in
    let (p, got_p, h5) = >>=-eq-ok (read_field buf n 32 u.1) _ h4 in
    let same : u.0 ≡ r.0 = cc in
    subst (λ t. length (c_str t) ≤ 32) same (read_field-short buf n 32 2 got_u)

module _ (s : ServerMng) (sockfd : Option ℕ) (msg : Bytes) (n : ℕ) (w : IsSound s.user_mng) where
  handle_register_req-IsSound : IsSound (handle_register_req s sockfd msg n).user_mng
  unfolding handle_register_req
  handle_register_req-IsSound = if_decoded-IsSound (chat_decode_user_pass (some msg) n) s _ w λ r e.
      let done =
        register-Registered s.user_mng (c_str r.0) (c_str r.1) s.mem w.paired w.indexed
          (decoded_name-short msg n e) in
      send_status-IsSound _ sockfd (record { paired = done.paired; indexed = done.indexed })
        ChatOpcode.reg_rep _

  handle_login_req-IsSound : IsSound (handle_login_req s sockfd msg n).user_mng
  unfolding handle_login_req
  handle_login_req-IsSound = if_decoded-IsSound (chat_decode_user_pass (some msg) n) s _ w λ r e.
      send_status-IsSound _ sockfd (login-IsSound s.user_mng w (c_str r.0) (c_str r.1) sockfd)
        ChatOpcode.login_rep _

  handle_logout_req-IsSound : IsSound (handle_logout_req s sockfd).user_mng
  unfolding handle_logout_req
  handle_logout_req-IsSound =
      send_status-IsSound _ sockfd
        (logout-IsSound s.user_mng w sockfd (some on_user_implicit_leave) (s.group_mng, s.mem))
        ChatOpcode.logout_rep _

  handle_create_group_req-IsSound : IsSound (handle_create_group_req s sockfd msg n).user_mng
  unfolding handle_create_group_req
  handle_create_group_req-IsSound =
      if_decoded-IsSound (chat_decode_groupname (some msg) n) s _ w
        λ r e. create_for-IsSound s sockfd (c_str r) w

  handle_join_group_req-IsSound : IsSound (handle_join_group_req s sockfd msg n).user_mng
  unfolding handle_join_group_req
  handle_join_group_req-IsSound =
      if_decoded-IsSound (chat_decode_groupname (some msg) n) s _ w
        λ r e. join_for-IsSound s sockfd (c_str r) w

  handle_leave_group_req-IsSound : IsSound (handle_leave_group_req s sockfd msg n).user_mng
  unfolding handle_leave_group_req
  handle_leave_group_req-IsSound =
      if_decoded-IsSound (chat_decode_groupname (some msg) n) s _ w
        λ r e. leave_for-IsSound s sockfd (c_str r) w

  if-IsSound :
      (b : Bool) (x y : ServerMng)
      → IsSound x.user_mng
      → IsSound y.user_mng
      → IsSound (if b then x else y).user_mng
  if-IsSound true x y h k = h
  if-IsSound false x y h k = k

  dispatch-IsSound : (type : ℕ) → IsSound (dispatch type s sockfd msg n).user_mng
  unfolding dispatch
  dispatch-IsSound type = if-IsSound (type == 1) _ _ handle_register_req-IsSound (
      if-IsSound (type == 3) _ _ handle_login_req-IsSound (
        if-IsSound (type == 5) _ _ handle_logout_req-IsSound (
          if-IsSound (type == 7) _ _ handle_create_group_req-IsSound (
            if-IsSound (type == 9) _ _ handle_join_group_req-IsSound
              (if-IsSound (type == 11) _ _ handle_leave_group_req-IsSound w)))))

  -- Every message, whatever its bytes, its length and its socket, keeps the sockets and the users
  -- paired and the index of names in order.
  pub handle_message-IsSound : IsSound (handle_message sockfd msg n s).user_mng
  unfolding handle_message
  handle_message-IsSound =
      if_decoded-IsSound (chat_peek_header (some msg) n) s _ w λ h e. dispatch-IsSound h.0

on_disconnect-IsSound :
    (s : ServerMng) (sockfd : Option ℕ)
    → IsSound s.user_mng
    → IsSound (on_disconnect sockfd s).user_mng
unfolding on_disconnect UserMng.disconnect
on_disconnect-IsSound s sockfd w =
    logout-IsSound s.user_mng w sockfd (some on_user_implicit_leave) (s.group_mng, s.mem)

-- The states that the transport's two callbacks lead to from `start`.
pub data Reachable (start : ServerMng) : ServerMng → Type 0 where
  begin : Reachable start start
  message :
      {s : ServerMng} (sockfd : Option ℕ) (msg : Bytes) (n : ℕ)
      → Reachable start s
      → Reachable start (handle_message sockfd msg n s)
  disconnected :
      {s : ServerMng} (sockfd : Option ℕ)
      → Reachable start s
      → Reachable start (on_disconnect sockfd s)

-- From a sound state the server reaches only sound states, by any sequence of messages and
-- disconnections: the sockets and the users are paired, and the index of names is in order.
pub Reachable-IsSound :
    (start s : ServerMng) → IsSound start.user_mng → Reachable start s → IsSound s.user_mng
Reachable-IsSound start s w begin = w
Reachable-IsSound start _ w (message {s = s} sockfd msg n r) =
    handle_message-IsSound s sockfd msg n (Reachable-IsSound start s w r)
Reachable-IsSound start _ w (disconnected {s = s} sockfd r) =
    on_disconnect-IsSound s sockfd (Reachable-IsSound start s w r)
