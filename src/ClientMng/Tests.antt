-- ===== src/ClientMng/Tests.antt =====
-- A client that registers and logs in at an empty server, for client/client_mng.c.
use chat_project.Prelude.{
  ℕ, zero, suc, ◌<◌, ◌≡◌, refl, sym, ap, ◌∙◌, false, some, [], ◌∷◌, ◌++◌, ◌||◌, arith, get_or,
}
use chat_project.Memory.{to_byte}
use chat_project.Memory.Windows.{IsText}
use chat_project.HashMap
use chat_project.HashUtils.{hash_string_djb2}
use chat_project.Protocol.{ChatStatus, ChatOpcode, is_ok, status_byte}
use chat_project.UserMng
use chat_project.ServerMng.{handle_message}
use chat_project.ServerMng.Tests.{fresh_server}
use chat_project.ClientNet.{Incoming}
use chat_project.ClientNet.Receive.{stream}
use chat_project.ClientGroupsMng.Tests.{two_groups, manager}
use chat_project.ClientMng.{Client, client_mng_register, client_mng_login, client_mng_is_logged_in}
use chat_project.ClientMng.Exchange.{Exchanged, status_frame}
use chat_project.ClientMng.Served.{user_pass_frame, last_sent, register_reply, login_reply}
use chat_project.ClientMng.Agree.{client_mng_register-register, client_mng_login-login}

-- A client to which the pieces are on their way.
abbrev waiting_for : Incoming → Client
waiting_for incoming = record {
  mng = record {
    sockfd = 3;
    server_ip = 49 ∷ [];
    port = 8000;
    logged_in = false;
    username = [];
    groups = manager;
  };
  heap = two_groups;
  incoming = incoming;
  outgoing = [];
  sent = [];
  events = [];
}

-- The name "a" and the password "b".
a-IsText : IsText (97 ∷ [])
a-IsText = (ground arith, tt)

b-IsText : IsText (98 ∷ [])
b-IsText = (ground arith, tt)

-- The client after the request is out, with the reply in two pieces.
abbrev registered : Client
registered = waiting_for (some (2 ∷ []) ∷ some (1 ∷ 0 ∷ []) ∷ [])

registered-small : (i : ℕ) → get_or (stream registered.incoming) i 0 < 256
registered-small zero = omega arith
registered-small (suc zero) = omega arith
registered-small (suc (suc zero)) = omega arith
registered-small (suc (suc (suc i))) = omega arith

-- The server's decisions.
register_ok : (UserMng.register fresh_server.user_mng (97 ∷ []) (98 ∷ []) []).0 ≡ ChatStatus.st_ok
unfolding UserMng.register HashMap.find HashMap.find_at HashMap.get_bucket_index hash_string_djb2
    UserMng.insert_user HashMap.insert HashMap.insert_at HashMap.push_pair
register_ok = refl

login_unknown :
    (UserMng.login fresh_server.user_mng (97 ∷ []) (98 ∷ []) (some 5)).0 ≡ ChatStatus.user_not_found
unfolding UserMng.login HashMap.find HashMap.find_at HashMap.get_bucket_index hash_string_djb2
login_unknown = refl

abbrev refused : Client
refused = waiting_for (some (4 ∷ 1 ∷ []) ∷ some (2 ∷ []) ∷ [])

refused-small : (i : ℕ) → get_or (stream refused.incoming) i 0 < 256
refused-small zero = omega arith
refused-small (suc zero) = omega arith
refused-small (suc (suc zero)) = omega arith
refused-small (suc (suc (suc i))) = omega arith

-- The replies of the server are the streams of the two clients.
registered_answered :
    stream registered.incoming
    ≡ last_sent
        (handle_message
          (some 5)
          (user_pass_frame ChatOpcode.reg_req (97 ∷ []) (98 ∷ []))
          6
          fresh_server).sent
      ++ []
registered_answered =
    ap (λ s. status_frame 2 (to_byte (status_byte s)) ++ []) (sym register_ok)
    ∙ ap (λ b. b ++ [])
        (sym (
          register_reply fresh_server (some 5) (97 ∷ []) (98 ∷ []) (omega arith) (omega arith)
            a-IsText b-IsText))

refused_answered :
    stream refused.incoming
    ≡ last_sent
        (handle_message
          (some 5)
          (user_pass_frame ChatOpcode.login_req (97 ∷ []) (98 ∷ []))
          6
          fresh_server).sent
      ++ []
refused_answered =
    ap (λ s. status_frame 4 (to_byte (status_byte s)) ++ []) (sym login_unknown)
    ∙ ap (λ b. b ++ [])
        (sym (
          login_reply fresh_server (some 5) (97 ∷ []) (98 ∷ []) (omega arith) (omega arith) a-IsText
            b-IsText))

client_mng_register-register_example :
    (c' : Client) × (client_mng_register registered (some (97 ∷ [])) (some (98 ∷ []))
      ≡ some ((UserMng.register fresh_server.user_mng (97 ∷ []) (98 ∷ []) []).0, c'))
    × Exchanged registered c' (user_pass_frame ChatOpcode.reg_req (97 ∷ []) (98 ∷ [])) []
client_mng_register-register_example =
    client_mng_register-register registered fresh_server (some 5) (97 ∷ []) (98 ∷ []) []
      (omega arith) (omega arith) a-IsText b-IsText refl registered-small registered_answered

client_mng_login-login_example :
    let status = (UserMng.login fresh_server.user_mng (97 ∷ []) (98 ∷ []) (some 5)).0 in
    (c' : Client) × (client_mng_login refused (some (97 ∷ [])) (some (98 ∷ [])) ≡ some (status, c'))
    × (c'.sent ≡ user_pass_frame ChatOpcode.login_req (97 ∷ []) (98 ∷ []))
    × (stream c'.incoming ≡ [])
    × (client_mng_is_logged_in (some c'.mng)
        ≡ (is_ok status || client_mng_is_logged_in (some refused.mng)))
client_mng_login-login_example =
    client_mng_login-login refused fresh_server (some 5) (97 ∷ []) (98 ∷ []) [] (omega arith)
      (omega arith) a-IsText b-IsText refl refused-small refused_answered
