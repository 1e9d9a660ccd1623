-- ===== src/ServerMng.antt =====
-- The requests of server/server_mng.c, on top of the user and the group manager. The three global
-- managers and the allocator are one state; what goes to `ServerNet_SendMessage` is collected there,
-- latest message last, with the socket. What is printed is left out.
pub mod Reads
pub mod Traffic
pub mod Start
pub mod Invariant
pub mod Groups
pub mod Reach
pub mod Shutdown
pub mod Ended
pub mod Tests
use chat_project.Prelude.{
  ℕ, zero, suc, ◌+◌, Bool, true, false, Option, none, some, List, [], ◌∷◌, ◌++◌, ltb, ◌==◌,
  if◌then◌else◌, take, replicate, get_elem?,
}
use chat_project.Memory.{Bytes, Run, ok, reject, fault, c_str}
use chat_project.Malloc.{Mem, malloc}
use chat_project.FreeMcQueue
use chat_project.FreeMcQueue.{FreeMcQueue}
use chat_project.GroupMng
use chat_project.GroupMng.{GroupMng, Group, deref}
use chat_project.UserMng
use chat_project.UserMng.{UserMng}
use chat_project.Protocol.{
  ChatStatus, ChatOpcode, is_ok, opcode_byte, chat_max_msg_size, chat_peek_header,
  chat_decode_user_pass, chat_decode_groupname, chat_encode_status_rep, chat_encode_group_rep_ok,
}

-- `faulted` is true once an access has gone outside a buffer, which is undefined behaviour.
pub record ServerMng : Type 0 where
  pub user_mng : UserMng
  pub group_mng : GroupMng
  pub mem : Mem
  pub sent : List (Option ℕ × Bytes)
  pub faulted : Bool

-- The last step of `ServerMng_Init`: the users; `none` inside is -1. `fuel` is that of the search for
-- a prime.
unfoldable pub init_users : ℕ → GroupMng → Mem → Option (Option ServerMng × Mem)
init_users fuel groups mem = elim (UserMng.create fuel mem) [
  | none ↦ none
  | some t ↦ elim t.0 [
    | none ↦ some (none, t.1)
    | some users ↦ some (
      some (record { user_mng = users; group_mng = groups; mem = t.1; sent = []; faulted = false }),
      t.1,
    )
  ]
]

-- The second step: the groups.
unfoldable pub init_groups : ℕ → FreeMcQueue → Mem → Option (Option ServerMng × Mem)
init_groups fuel mc_queue mem = elim (GroupMng.create fuel mc_queue mem) [
  | none ↦ none
  | some r ↦ elim r.0 [ none ↦ some (none, r.1) | some groups ↦ init_users fuel groups r.1 ]
]

-- The first step: the pool, with what its creation has returned.
abbrev pub init_from : ℕ → Option FreeMcQueue × Mem → Option (Option ServerMng × Mem)
init_from fuel created = elim created.0 [
  | none ↦ some (none, created.1)
  | some mc_queue ↦ init_groups fuel mc_queue created.1
]

unfoldable pub init : ℕ → Mem → Option (Option ServerMng × Mem)
init fuel mem = init_from fuel (FreeMcQueue.create mem)

-- `uint8_t repBuf[CHAT_MAX_MSG_SIZE]`, whose contents are not read before they are written.
abbrev pub rep_buf : Bytes
rep_buf = replicate chat_max_msg_size 0

-- `if (0 == decode(...)) { ... }`
unfoldable pub if_decoded {ℓ} : {A : Type ℓ} → Run A → ServerMng → (A → ServerMng) → ServerMng
if_decoded (ok a) s next = next a
if_decoded reject s next = s
if_decoded fault s next = record s { faulted = true }

-- The reply is sent if its length is positive; a rejected encoding has the length -1.
unfoldable pub send_reply : ServerMng → Option ℕ → Run (ℕ × Bytes) → ServerMng
send_reply s sockfd (ok r) =
    if ltb 0 r.0 then record s { sent = s.sent ++ (sockfd, take r.0 r.1) ∷ [] } else s
send_reply s sockfd reject = s
send_reply s sockfd fault = record s { faulted = true }

unfoldable pub send_status : ServerMng → Option ℕ → ChatOpcode → ChatStatus → ServerMng
send_status s sockfd op status =
    send_reply s sockfd (chat_encode_status_rep (some rep_buf) op status)

unfoldable pub send_group : ServerMng → Option ℕ → ChatOpcode → Group → ServerMng
send_group s sockfd op group =
    send_reply s sockfd
      (chat_encode_group_rep_ok (some rep_buf) op (some group.mcast_ip) group.mcast_port)

unfoldable pub on_user_implicit_leave : Bytes → GroupMng × Mem → GroupMng × Mem
on_user_implicit_leave name groups =
    let (status, mng, mem) = GroupMng.leave_group groups.0 name groups.1 in (mng, mem)

abbrev pub with_groups : ServerMng → GroupMng × Mem → ServerMng
with_groups s groups = record s { group_mng = groups.0; mem = groups.1 }

unfoldable pub handle_register_req : ServerMng → Option ℕ → Bytes → ℕ → ServerMng
handle_register_req s sockfd msg len = if_decoded (chat_decode_user_pass (some msg) len) s λ r.
    let (status, users, mem) = UserMng.register s.user_mng (c_str r.0) (c_str r.1) s.mem in
    send_status (record s { user_mng = users; mem = mem }) sockfd ChatOpcode.reg_rep status

unfoldable pub handle_login_req : ServerMng → Option ℕ → Bytes → ℕ → ServerMng
handle_login_req s sockfd msg len = if_decoded (chat_decode_user_pass (some msg) len) s λ r.
    let (status, users) = UserMng.login s.user_mng (c_str r.0) (c_str r.1) sockfd in
    send_status (record s { user_mng = users }) sockfd ChatOpcode.login_rep status

unfoldable pub handle_logout_req : ServerMng → Option ℕ → ServerMng
handle_logout_req s sockfd =
    let (status, users, groups) =
      UserMng.logout s.user_mng sockfd (some on_user_implicit_leave) (s.group_mng, s.mem) in
    send_status (with_groups (record s { user_mng = users }) groups) sockfd ChatOpcode.logout_rep
      status

-- `GroupMng_LeaveGroup` where the status is not used: a membership that is taken back.
unfoldable pub undo_join : ServerMng → Bytes → ServerMng
undo_join s name = with_groups s (on_user_implicit_leave name (s.group_mng, s.mem))

-- The end of a request to create: the group at `p` is new, and its creator joins it.
unfoldable pub finish_create : ServerMng → Option ℕ → Bytes → ℕ → ServerMng
finish_create s sockfd name p =
    let (joined, users, mem) = UserMng.join_group s.user_mng sockfd name s.mem in
    let s1 = record s { user_mng = users; mem = mem } in
    if is_ok joined
    then elim (deref s1.group_mng p) [
      | none ↦ s1
      | some group ↦ send_group s1 sockfd ChatOpcode.create_group_rep group
    ]
    else send_status (undo_join s1 name) sockfd ChatOpcode.create_group_rep ChatStatus.server_full

unfoldable pub create_for : ServerMng → Option ℕ → Bytes → ServerMng
create_for s sockfd name =
    if UserMng.is_logged_in s.user_mng sockfd
    then (let (status, out_group, groups, mem) = GroupMng.create_group s.group_mng name s.mem in
        let s1 = record s { group_mng = groups; mem = mem } in
        elim out_group [
          | none ↦ send_status s1 sockfd ChatOpcode.create_group_rep status
          | some p ↦
              if is_ok status
              then finish_create s1 sockfd name p
              else send_status s1 sockfd ChatOpcode.create_group_rep status
        ])
    else send_status s sockfd ChatOpcode.create_group_rep ChatStatus.not_logged_in

unfoldable pub handle_create_group_req : ServerMng → Option ℕ → Bytes → ℕ → ServerMng
handle_create_group_req s sockfd msg len =
    if_decoded (chat_decode_groupname (some msg) len) s λ r. create_for s sockfd (c_str r)

-- The end of a request to join: the group at `p` counts one member more, and the user joins it.
unfoldable pub finish_join : ServerMng → Option ℕ → Bytes → ℕ → ServerMng
finish_join s sockfd name p =
    let (joined, users, mem) = UserMng.join_group s.user_mng sockfd name s.mem in
    let s1 = record s { user_mng = users; mem = mem } in
    if is_ok joined
    then elim (deref s1.group_mng p) [
      | none ↦ s1
      | some group ↦ send_group s1 sockfd ChatOpcode.join_group_rep group
    ]
    else send_status (undo_join s1 name) sockfd ChatOpcode.join_group_rep joined

unfoldable pub join_for : ServerMng → Option ℕ → Bytes → ServerMng
join_for s sockfd name =
    if UserMng.is_logged_in s.user_mng sockfd
    then (let (status, out_group, groups) = GroupMng.join_group s.group_mng name in
        let s1 = record s { group_mng = groups } in
        elim out_group [
          | none ↦ send_status s1 sockfd ChatOpcode.join_group_rep status
          | some p ↦
              if is_ok status
              then finish_join s1 sockfd name p
              else send_status s1 sockfd ChatOpcode.join_group_rep status
        ])
    else send_status s sockfd ChatOpcode.join_group_rep ChatStatus.not_logged_in

unfoldable pub handle_join_group_req : ServerMng → Option ℕ → Bytes → ℕ → ServerMng
handle_join_group_req s sockfd msg len =
    if_decoded (chat_decode_groupname (some msg) len) s λ r. join_for s sockfd (c_str r)

unfoldable pub leave_for : ServerMng → Option ℕ → Bytes → ServerMng
leave_for s sockfd name =
    let (status, users) = UserMng.leave_group s.user_mng sockfd name in
    let s1 = record s { user_mng = users } in
    if is_ok status
    then (let (left, groups, mem) = GroupMng.leave_group s.group_mng name s.mem in
        send_status (with_groups s1 (groups, mem)) sockfd ChatOpcode.leave_group_rep left)
    else send_status s1 sockfd ChatOpcode.leave_group_rep status

unfoldable pub handle_leave_group_req : ServerMng → Option ℕ → Bytes → ℕ → ServerMng
handle_leave_group_req s sockfd msg len =
    if_decoded (chat_decode_groupname (some msg) len) s λ r. leave_for s sockfd (c_str r)

-- The switch on the opcode of a message.
unfoldable pub dispatch : ℕ → ServerMng → Option ℕ → Bytes → ℕ → ServerMng
dispatch type s sockfd msg len =
    if type == opcode_byte ChatOpcode.reg_req
    then handle_register_req s sockfd msg len
    else if type == opcode_byte ChatOpcode.login_req
    then handle_login_req s sockfd msg len
    else if type == opcode_byte ChatOpcode.logout_req
    then handle_logout_req s sockfd
    else if type == opcode_byte ChatOpcode.create_group_req
    then handle_create_group_req s sockfd msg len
    else if type == opcode_byte ChatOpcode.join_group_req
    then handle_join_group_req s sockfd msg len
    else if type == opcode_byte ChatOpcode.leave_group_req
    then handle_leave_group_req s sockfd msg len
    else s

-- The callback that the transport gets; its return value, 0 or -1, is not used there.
unfoldable pub handle_message : Option ℕ → Bytes → ℕ → ServerMng → ServerMng
handle_message sockfd msg len s =
    if_decoded (chat_peek_header (some msg) len) s λ header. dispatch header.0 s sockfd msg len

unfoldable pub on_disconnect : Option ℕ → ServerMng → ServerMng
on_disconnect sockfd s =
    let (users, groups) =
      UserMng.disconnect s.user_mng sockfd (some on_user_implicit_leave) (s.group_mng, s.mem) in
    with_groups (record s { user_mng = users }) groups
