-- ===== src/ServerMng/Groups.antt =====
-- The group requests of server/server_mng.c keep the invariant of the users.
use chat_project.Prelude.{ℕ, inl, inr, Option, Bool-cases, Option-cases}
use chat_project.Memory.{Bytes}
use chat_project.Protocol.{ChatStatus, ChatOpcode, is_ok}
use chat_project.GroupMng
use chat_project.GroupMng.{deref}
use chat_project.UserMng
use chat_project.ServerMng.{
  ServerMng, send_status, send_group, create_for, finish_create, join_for, finish_join, leave_for,
  undo_join,
}
use chat_project.ServerMng.Invariant.{
  IsSound, join_group-IsSound, leave_group-IsSound, send_reply-IsSound,
}

module _ (s : ServerMng) (sockfd : Option ℕ) (w : IsSound s.user_mng) where
  pub send_status-IsSound :
      (op : ChatOpcode) (status : ChatStatus) → IsSound (send_status s sockfd op status).user_mng
  unfolding send_status
  send_status-IsSound op status = send_reply-IsSound s sockfd _ w

  send_group-IsSound :
      (op : ChatOpcode) (group : _) → IsSound (send_group s sockfd op group).user_mng
  unfolding send_group
  send_group-IsSound op group = send_reply-IsSound s sockfd _ w

module _ (s : ServerMng) (sockfd : Option ℕ) (name : Bytes) (w : IsSound s.user_mng) where
  finish_create-IsSound : (p : ℕ) → IsSound (finish_create s sockfd name p).user_mng
  unfolding finish_create undo_join
  finish_create-IsSound p =
      let sound = join_group-IsSound s.user_mng w sockfd name s.mem in
      elim (Bool-cases (is_ok (UserMng.join_group s.user_mng sockfd name s.mem).0)) [
        | inl good ↦ elim (Option-cases (deref s.group_mng p)) [
          | inl wild ↦ rw (good, wild, finish_create) sound
          | inr (group, at) ↦
              rw (good, at, finish_create)
                (send_group-IsSound _ sockfd sound ChatOpcode.create_group_rep group)
        ]
        | inr bad ↦
            rw (bad, finish_create)
              (send_status-IsSound _ sockfd sound ChatOpcode.create_group_rep
                ChatStatus.server_full)
      ]

  finish_join-IsSound : (p : ℕ) → IsSound (finish_join s sockfd name p).user_mng
  unfolding finish_join undo_join
  finish_join-IsSound p =
      let sound = join_group-IsSound s.user_mng w sockfd name s.mem in
      elim (Bool-cases (is_ok (UserMng.join_group s.user_mng sockfd name s.mem).0)) [
        | inl good ↦ elim (Option-cases (deref s.group_mng p)) [
          | inl wild ↦ rw (good, wild, finish_join) sound
          | inr (group, at) ↦
              rw (good, at, finish_join)
                (send_group-IsSound _ sockfd sound ChatOpcode.join_group_rep group)
        ]
        | inr bad ↦
            rw (bad, finish_join) (send_status-IsSound _ sockfd sound ChatOpcode.join_group_rep _)
      ]

  pub leave_for-IsSound : IsSound (leave_for s sockfd name).user_mng
  unfolding leave_for
  leave_for-IsSound =
      let sound = leave_group-IsSound s.user_mng w sockfd name in
      elim (Bool-cases (is_ok (UserMng.leave_group s.user_mng sockfd name).0)) [
        | inl good ↦
            rw (good, leave_for) (send_status-IsSound _ sockfd sound ChatOpcode.leave_group_rep _)
        | inr bad ↦
            rw (bad, leave_for) (send_status-IsSound _ sockfd sound ChatOpcode.leave_group_rep _)
      ]

module _ (s : ServerMng) (sockfd : Option ℕ) (name : Bytes) (w : IsSound s.user_mng) where
  pub create_for-IsSound : IsSound (create_for s sockfd name).user_mng
  unfolding create_for
  create_for-IsSound = elim (Bool-cases (UserMng.is_logged_in s.user_mng sockfd)) [
    | inr out ↦
        rw (out, create_for)
          (send_status-IsSound s sockfd w ChatOpcode.create_group_rep ChatStatus.not_logged_in)
    | inl logged ↦ elim (Option-cases (GroupMng.create_group s.group_mng name s.mem).1) [
      | inl none_made ↦
          rw (logged, none_made, create_for)
            (send_status-IsSound _ sockfd w ChatOpcode.create_group_rep _)
      | inr (p, made) ↦ elim (Bool-cases (is_ok (GroupMng.create_group s.group_mng name s.mem).0)) [
        | inl good ↦ rw (logged, made, good, create_for) (finish_create-IsSound _ sockfd name w p)
        | inr bad ↦
            rw (logged, made, bad, create_for)
              (send_status-IsSound _ sockfd w ChatOpcode.create_group_rep _)
      ]
    ]
  ]

  pub join_for-IsSound : IsSound (join_for s sockfd name).user_mng
  unfolding join_for
  join_for-IsSound = elim (Bool-cases (UserMng.is_logged_in s.user_mng sockfd)) [
    | inr out ↦
        rw (out, join_for)
          (send_status-IsSound s sockfd w ChatOpcode.join_group_rep ChatStatus.not_logged_in)
    | inl logged ↦ elim (Option-cases (GroupMng.join_group s.group_mng name).1) [
      | inl none_found ↦
          rw (logged, none_found, join_for)
            (send_status-IsSound _ sockfd w ChatOpcode.join_group_rep _)
      | inr (p, found) ↦ elim (Bool-cases (is_ok (GroupMng.join_group s.group_mng name).0)) [
        | inl good ↦ rw (logged, found, good, join_for) (finish_join-IsSound _ sockfd name w p)
        | inr bad ↦
            rw (logged, found, bad, join_for)
              (send_status-IsSound _ sockfd w ChatOpcode.join_group_rep _)
      ]
    ]
  ]
