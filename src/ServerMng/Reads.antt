-- ===== src/ServerMng/Reads.antt =====
-- What a request reads of the receive buffer: `ServerMng_HandleMessage` of server/server_mng.c.
use chat_project.Prelude.{ℕ, ◌≡◌, ◌≤◌, ap, sym, ◌∙◌, Option, length, take, some}
use mathlib.Core.Path.{fun_ext}
use chat_project.Memory.{Bytes, Run}
use chat_project.Protocol.{chat_peek_header}
use chat_project.Protocol.Decode.{
  chat_peek_header-Agrees, chat_decode_user_pass-Agrees, chat_decode_groupname-Agrees,
}
use chat_project.ServerMng.{
  ServerMng, handle_register_req, handle_login_req, handle_create_group_req, handle_join_group_req,
  handle_leave_group_req, handle_message, dispatch, if_decoded,
}

if_decoded_congr {ℓ} :
    {A : Type ℓ} {r r' : Run A} (s : ServerMng) (k : A → ServerMng)
    → r ≡ r'
    → if_decoded r s k ≡ if_decoded r' s k
if_decoded_congr s k e = ap (λ t. if_decoded t s k) e

module _ (s : ServerMng) (fd : Option ℕ) (buf : Bytes) (n : ℕ) (fits : n ≤ length buf) where
  register-take : handle_register_req s fd (take n buf) n ≡ handle_register_req s fd buf n
  unfolding handle_register_req
  register-take = if_decoded_congr s _ (chat_decode_user_pass-Agrees buf n fits).0

  login-take : handle_login_req s fd (take n buf) n ≡ handle_login_req s fd buf n
  unfolding handle_login_req
  login-take = if_decoded_congr s _ (chat_decode_user_pass-Agrees buf n fits).0

  create_group-take :
      handle_create_group_req s fd (take n buf) n ≡ handle_create_group_req s fd buf n
  unfolding handle_create_group_req
  create_group-take = if_decoded_congr s _ (chat_decode_groupname-Agrees buf n fits).0

  join_group-take : handle_join_group_req s fd (take n buf) n ≡ handle_join_group_req s fd buf n
  unfolding handle_join_group_req
  join_group-take = if_decoded_congr s _ (chat_decode_groupname-Agrees buf n fits).0

  leave_group-take : handle_leave_group_req s fd (take n buf) n ≡ handle_leave_group_req s fd buf n
  unfolding handle_leave_group_req
  leave_group-take = if_decoded_congr s _ (chat_decode_groupname-Agrees buf n fits).0

  dispatch-take : (type : ℕ) → dispatch type s fd (take n buf) n ≡ dispatch type s fd buf n
  unfolding dispatch
  dispatch-take type =
      rw (register-take, login-take, create_group-take, join_group-take, leave_group-take)

-- A message handler looks at no byte of the buffer beyond the length it is given, if the buffer has
-- that length.
pub handle_message-take :
    (fd : Option ℕ) (buf : Bytes) (n : ℕ) (s : ServerMng)
    → n ≤ length buf
    → handle_message fd buf n s ≡ handle_message fd (take n buf) n s
unfolding handle_message
handle_message-take fd buf n s fits =
    if_decoded_congr s (λ h. dispatch h.0 s fd buf n) (sym (chat_peek_header-Agrees buf n fits).0)
    ∙ ap (if_decoded (chat_peek_header (some (take n buf)) n) s)
        (fun_ext λ h. sym (dispatch-take s fd buf n fits h.0))
