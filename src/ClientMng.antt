-- ===== src/ClientMng.antt =====
-- The client's requests, client/client_mng.c: one message out, one reply in. The manager is never
-- NULL here; its connection, its chat windows and the calls of the operating system are one state. A
-- run is `none` where it would touch memory that is not there, or where a loop over the windows runs out
-- of fuel, and where SIGPIPE ends the process. What is printed is left out.
pub mod Exchange
pub mod Served
pub mod Agree
mod Tests
use chat_project.Prelude.{
  ℕ, zero, suc, ◌+◌, ◌-◌, Bool, true, false, Option, none, some, List, [], ◌∷◌, ◌++◌, not, take,
  replicate, if◌then◌else◌,
}
use chat_project.Memory.{Bytes, Run, ok, reject, fault, c_str}
use chat_project.Protocol.{
  ChatStatus, ChatOpcode, GroupRep, is_ok, chat_max_msg_size, chat_max_username_len,
  chat_max_ip_str_len, chat_encode_user_pass_req, chat_encode_groupname_req, chat_encode_logout_req,
  chat_decode_status_rep, chat_decode_group_rep_ok,
}
use chat_project.DList.{Ptr, Heap, Cmd, return, ◌>>=◌}
use chat_project.ClientNet.{
  SendResult, Incoming, Outgoing, client_net_recv_msg, client_net_send_all,
}
use chat_project.ClientGroupsMng
use chat_project.ClientGroupsMng.{ClientGroupsMng, GroupEntry, Event, Answers}

pub record ClientMng : Type 0 where
  pub sockfd : ℕ
  pub server_ip : Bytes
  pub port : ℕ
  pub logged_in : Bool
  pub username : Bytes
  pub groups : ClientGroupsMng

-- The client: its manager, the nodes of the list of windows, what the connection will give and take,
-- what has been sent, and the calls that concern windows.
pub record Client : Type 0 where
  pub mng : ClientMng
  pub heap : Heap GroupEntry
  pub incoming : Incoming
  pub outgoing : Outgoing
  pub sent : Bytes
  pub events : List Event

-- `uint8_t buf[CHAT_MAX_MSG_SIZE]`, whose contents are not read before they are written.
abbrev pub msg_buf : Bytes
msg_buf = replicate chat_max_msg_size 0

-- A descriptor of -1 and a failed creation of the windows' manager are `none`.
unfoldable pub create :
    Option Bytes
    → ℕ
    → Bool
    → Option ℕ
    → Cmd GroupEntry (Option ClientGroupsMng)
    → Cmd GroupEntry (Option ClientMng)
create none port calloc_ok connected create_groups = return none
create (some server_ip) port calloc_ok connected create_groups =
    if not calloc_ok then return none else elim connected [
      | none ↦ return none
      | some fd ↦ create_groups >>= λ groups. elim groups [
        | none ↦ return none
        | some g ↦ return (
            some (record {
              sockfd = fd;
              server_ip = take (chat_max_ip_str_len - 1) server_ip;
              port = port;
              logged_in = false;
              username = [];
              groups = g;
            }))
      ]
    ]

unfoldable pub destroy : ℕ → Option ClientMng → Cmd GroupEntry (List Event × Option ClientMng)
destroy fuel none = return ([], none)
destroy fuel (some m) = ClientGroupsMng.destroy fuel (some m.groups) >>= λ t. return (t.0, none)

module _ {ℓ} {R : Type ℓ} where
  -- `if (call(...) != 0) return failed;`
  unfoldable pub on_ok {κ} :
      {B : Type κ} → R → Run B → Client → (B → Option (R × Client)) → Option (R × Client)
  on_ok failed (ok b) c next = next b
  on_ok failed reject c next = some (failed, c)
  on_ok failed fault c next = none

  -- The reply, once the message is out; `next` gets its length and the buffer.
  unfoldable pub receive :
      R → Bytes → Client → (ℕ × Bytes → Client → Option (R × Client)) → Option (R × Client)
  receive failed buf c next =
      let (got, incoming) = client_net_recv_msg (some c.mng.sockfd) (some buf) c.incoming in
      let c1 = record c { incoming = incoming } in on_ok failed got c1 (λ t. next t c1)

  -- `if (client_net_send_all(...) != 0) return failed;`, and the reply.
  unfoldable pub after_send :
      SendResult
      → R
      → Bytes
      → Client
      → (ℕ × Bytes → Client → Option (R × Client))
      → Option (R × Client)
  after_send SendResult.all_sent failed buf c next = receive failed buf c next
  after_send SendResult.send_failed failed buf c next = some (failed, c)
  after_send SendResult.killed failed buf c next = none
  after_send SendResult.read_outside failed buf c next = none

  -- One exchange, from the encoded message to the reply.
  unfoldable pub exchange :
      R
      → Run (ℕ × Bytes)
      → Client
      → (ℕ × Bytes → Client → Option (R × Client))
      → Option (R × Client)
  exchange failed encoded c next = on_ok failed encoded c λ t.
      let (result, sent, outgoing) =
        client_net_send_all (some c.mng.sockfd) (some t.1) t.0 c.outgoing in
      let c1 = record c { sent = c.sent ++ sent; outgoing = outgoing } in
      after_send result failed t.1 c1 next

-- The exchanges that end with a plain status, and what follows it.
unfoldable pub status_exchange :
    Run (ℕ × Bytes)
    → Client
    → (ChatStatus → Client → Option (ChatStatus × Client))
    → Option (ChatStatus × Client)
status_exchange encoded c next = exchange ChatStatus.protocol encoded c λ t c1.
    on_ok ChatStatus.protocol (chat_decode_status_rep (some t.1) t.0) c1 (λ status. next status c1)

unfoldable pub do_user_pass : Client → ChatOpcode → Bytes → Bytes → Option (ChatStatus × Client)
do_user_pass c op user pass =
    status_exchange (chat_encode_user_pass_req (some msg_buf) op (some user) (some pass)) c
      (λ status c1. some (status, c1))

unfoldable pub client_mng_register :
    Client → Option Bytes → Option Bytes → Option (ChatStatus × Client)
client_mng_register c (some user) (some pass) = do_user_pass c ChatOpcode.reg_req user pass
client_mng_register c _ _ = some (ChatStatus.protocol, c)

-- The client after a login that has been answered.
abbrev pub logged_in_as : Bytes → ChatStatus × Client → ChatStatus × Client
logged_in_as user (status, c) =
    if is_ok status
    then (
      status,
      record c {
        mng = record c.mng { logged_in = true; username = take chat_max_username_len user };
      },
    )
    else (status, c)

unfoldable pub client_mng_login :
    Client → Option Bytes → Option Bytes → Option (ChatStatus × Client)
client_mng_login c (some user) (some pass) = elim (do_user_pass c ChatOpcode.login_req user pass) [
  | none ↦ none
  | some r ↦ some (logged_in_as user r)
]
client_mng_login c _ _ = some (ChatStatus.protocol, c)

-- An operation on the windows, whose events are collected.
unfoldable pub with_windows : Client → Cmd GroupEntry (List Event) → Option Client
with_windows c cmd = elim (cmd c.heap) [
  | none ↦ none
  | some r ↦ some (record c { heap = r.1; events = c.events ++ r.0 })
]

unfoldable pub client_mng_logout : ℕ → Client → Option (ChatStatus × Client)
client_mng_logout fuel c = status_exchange (chat_encode_logout_req (some msg_buf)) c λ status c1.
    if is_ok status
    then elim (with_windows c1 (ClientGroupsMng.clear fuel (some c1.mng.groups))) [
      | none ↦ none
      | some c2 ↦
          some (status, record c2 { mng = record c2.mng { logged_in = false; username = [] } })
    ]
    else some (status, c1)

-- A status, and what the out parameters got if a reply was decoded: the address, up to its NUL, and the
-- port.
abbrev pub GroupAnswer : Type 0
GroupAnswer = ChatStatus × Option (Bytes × ℕ)

unfoldable pub do_group_join :
    Client
    → ChatOpcode
    → Bytes
    → (GroupRep → Client → Option (GroupAnswer × Client))
    → Option (GroupAnswer × Client)
do_group_join c op group next =
    exchange (ChatStatus.protocol, none) (chat_encode_groupname_req (some msg_buf) op (some group))
      c
      λ t c1.
        on_ok (ChatStatus.protocol, none) (chat_decode_group_rep_ok (some t.1) t.0) c1
          (λ rep. next rep c1)

-- What follows the reply to a creation or a join: the windows of the group; whether they open is only
-- printed.
unfoldable pub open_group : ℕ → Answers → Bytes → GroupRep → Client → Option (GroupAnswer × Client)
open_group fuel answers group rep c =
    let ip = c_str rep.mcast_ip in
    let answer : GroupAnswer = (rep.status, some (ip, rep.mcast_port)) in
    if is_ok rep.status
    then elim (with_windows c (
        ClientGroupsMng.on_join fuel (some c.mng.groups) (some group) (some ip) rep.mcast_port
          (some c.mng.username) answers
        >>= λ t. return t.1)) [ none ↦ none | some c1 ↦ some (answer, c1) ]
    else some (answer, c)

unfoldable pub client_mng_create_group :
    ℕ → Answers → Client → Option Bytes → Option (GroupAnswer × Client)
client_mng_create_group fuel answers c none = some ((ChatStatus.protocol, none), c)
client_mng_create_group fuel answers c (some group) =
    do_group_join c ChatOpcode.create_group_req group (open_group fuel answers group)

unfoldable pub client_mng_join_group :
    ℕ → Answers → Client → Option Bytes → Option (GroupAnswer × Client)
client_mng_join_group fuel answers c none = some ((ChatStatus.protocol, none), c)
client_mng_join_group fuel answers c (some group) =
    do_group_join c ChatOpcode.join_group_req group (open_group fuel answers group)

unfoldable pub client_mng_leave_group : ℕ → Client → Option Bytes → Option (ChatStatus × Client)
client_mng_leave_group fuel c none = some (ChatStatus.protocol, c)
client_mng_leave_group fuel c (some group) =
    status_exchange
      (chat_encode_groupname_req (some msg_buf) ChatOpcode.leave_group_req (some group)) c
      λ status c1.
        if is_ok status
        then elim (with_windows c1
            (ClientGroupsMng.on_leave fuel (some c1.mng.groups) (some group))) [
              | none ↦ none
              | some c2 ↦ some (status, c2)
            ]
        else some (status, c1)

unfoldable pub client_mng_is_logged_in : Option ClientMng → Bool
client_mng_is_logged_in none = false
client_mng_is_logged_in (some m) = m.logged_in

unfoldable pub client_mng_username : Option ClientMng → Bytes
client_mng_username none = []
client_mng_username (some m) = m.username
