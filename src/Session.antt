-- ===== src/Session.antt =====
-- A whole session of the client: client/client_main.c, with client/ui.c over the requests of
-- client/client_mng.c. What the operating system answers when the windows of a group are opened may
-- depend on how many groups have been asked for and on the heap.
pub mod Stream
pub mod Requests
pub mod Kept
pub mod Joined
pub mod Started
pub mod Ended
mod Tests
use chat_project.Prelude.{ℕ, suc, Bool, Option, none, some, List, [], ◌∷◌, ◌++◌}
use chat_project.Memory.{Bytes}
use chat_project.Protocol.{ChatStatus}
use chat_project.DList.{Ptr, Heap, return, ◌>>=◌}
use chat_project.ClientNet.{Incoming, Outgoing}
use chat_project.ClientGroupsMng
use chat_project.ClientGroupsMng.{GroupEntry, Answers}
use chat_project.ClientMng
use chat_project.ClientMng.{
  ClientMng, Client, GroupAnswer, client_mng_register, client_mng_login, client_mng_logout,
  client_mng_create_group, client_mng_join_group, client_mng_leave_group,
}
use chat_project.Ui.{ClientOps, ui_run}

-- The client and the number of groups that have been asked for; `none` is undefined behaviour.
abbrev pub Session : Type 0
Session = Option (Client × ℕ)

abbrev pub Windows : Type 0
Windows = ℕ → Heap GroupEntry → Answers

-- A request that ends with a status. A loop over the windows has fuel for one more than have been
-- asked for.
abbrev pub request : (ℕ → Client → Option (ChatStatus × Client)) → Session → ChatStatus × Session
request run none = (ChatStatus.protocol, none)
request run (some (c, asked)) = elim (run (suc asked) c) [
  | none ↦ (ChatStatus.protocol, none)
  | some r ↦ (r.0, some (r.1, asked))
]

-- A request for a group.
abbrev pub group_request :
    Windows
    → (ℕ → Answers → Client → Option (GroupAnswer × Client))
    → Session
    → ChatStatus × Session
group_request windows run none = (ChatStatus.protocol, none)
group_request windows run (some (c, asked)) = elim (run (suc asked) (windows asked c.heap) c) [
  | none ↦ (ChatStatus.protocol, none)
  | some r ↦ (r.0.0, some (r.1, suc asked))
]

-- The requests that the screens call.
unfoldable pub client_ops : Windows → ClientOps Session
client_ops windows = record {
  register = λ user pass. request (λ fuel c. client_mng_register c (some user) (some pass));
  login = λ user pass. request (λ fuel c. client_mng_login c (some user) (some pass));
  logout = request client_mng_logout;
  create_group = λ group.
      group_request windows (λ fuel answers c. client_mng_create_group fuel answers c (some group));
  join_group = λ group.
      group_request windows (λ fuel answers c. client_mng_join_group fuel answers c (some group));
  leave_group = λ group. request (λ fuel c. client_mng_leave_group fuel c (some group));
}

abbrev chat_tcp_port : ℕ
chat_tcp_port = 5000

-- `argv[1]`, or "127.0.0.1"
abbrev pub server_ip : List Bytes → Bytes
server_ip (prog ∷ ip ∷ args) = ip
server_ip _ = 49 ∷ 50 ∷ 55 ∷ 46 ∷ 48 ∷ 46 ∷ 48 ∷ 46 ∷ 49 ∷ []

-- What the operating system and malloc answer when the client is created, and what the connection will
-- give and take.
pub record Start : Type 0 where
  pub calloc_ok : Bool
  pub connected : Option ℕ
  pub groups_calloc_ok : Bool
  pub ftok_ok : Bool
  pub msgget : Option ℕ
  pub sentinel : Ptr
  pub incoming : Incoming
  pub outgoing : Outgoing

-- The client that has been created, and the heap.
unfoldable pub start_client :
    Start → List Bytes → Heap GroupEntry → Option (Option ClientMng × Heap GroupEntry)
start_client s argv =
    ClientMng.create (some (server_ip argv)) chat_tcp_port s.calloc_ok s.connected
      (ClientGroupsMng.create s.groups_calloc_ok s.ftok_ok s.msgget s.sentinel >>= λ t. return t.0)

-- `client_mng_destroy(&m)` behind the screens, and `return 0`.
unfoldable pub end_session : Session → Option (ℕ × Option Client)
end_session none = none
end_session (some (c, asked)) = elim (ClientMng.destroy (suc asked) (some c.mng) c.heap) [
  | none ↦ none
  | some r ↦ some (0, some (record c { heap = r.1; events = c.events ++ r.0.0 }))
]

unfoldable pub run_session : ℕ → Windows → Session → Bytes → Option (ℕ × Option Client)
run_session fuel windows s input = elim (ui_run (client_ops windows) fuel s input) [
  | none ↦ none
  | some r ↦ end_session r.0
]

-- The exit status, and the client at its end if it could be created; what is typed is `input`.
unfoldable pub main :
    ℕ → Windows → Start → List Bytes → Heap GroupEntry → Bytes → Option (ℕ × Option Client)
main fuel windows s argv h input = elim (start_client s argv h) [
  | none ↦ none
  | some t ↦ elim t.0 [
    | none ↦ some (1, none)
    | some m ↦
        run_session fuel windows
          (some (
            record {
              mng = m;
              heap = t.1;
              incoming = s.incoming;
              outgoing = s.outgoing;
              sent = [];
              events = [];
            },
            0,
          ))
          input
  ]
]
