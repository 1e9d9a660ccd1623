-- ===== src/UserMng/Steps.antt =====
-- What the operations of server/user_mng.c do to the sockets and the users, on all their branches.
use chat_project.Prelude.{
  ℕ, ◌≡◌, inl, inr, false, Option, none, some, List, [], Bool-cases, Option-cases, get_elem?, set,
}
use mathlib.Core.Path.{subst}
use mathlib.Core.Option.{some-injective}
use chat_project.Memory.{Bytes}
use chat_project.Malloc.{Mem, malloc}
use chat_project.HashMap
use chat_project.HashUtils.{str_eq}
use chat_project.UserMng.{
  UserMng, User, UserState, is_online, login_as, login, logout, join_group, leave_group, joined,
  valid_socket, set_socket, user_on, set_groups,
}

-- The manager with new sockets and a new user at `p`.
abbrev pub with_user : UserMng → (ℕ → Option ℕ) → ℕ → User → UserMng
with_user mng sockets p user = record mng { active_sockets = sockets; store = set mng.store p user }

pub user_on-some :
    (mng : UserMng) (fd : ℕ) (found : ℕ × User)
    → user_on mng fd ≡ some found
    → (mng.active_sockets fd ≡ some found.0) × (get_elem? mng.store found.0 ≡ some found.1)
user_on-some mng fd found e = elim (Option-cases (mng.active_sockets fd)) [
  | inl off ↦ let z : Path (Option (ℕ × User)) none (some found) = (rw (off, user_on) at e) in cc
  | inr (p, on) ↦ elim (Option-cases (get_elem? mng.store p)) [
    | inl wild ↦
        let z : Path (Option (ℕ × User)) none (some found) = (rw (on, wild, user_on) at e) in cc
    | inr (user, at) ↦
        let same : (p, user) ≡ found = some-injective _ _ (rw (on, at, user_on) at e) in
        subst (λ t. (mng.active_sockets fd ≡ some t.0) × (get_elem? mng.store t.0 ≡ some t.1)) same
          (on, at)
  ]
]

module _ (P : UserMng → Type 0) (mng : UserMng) (same : P mng) where
  -- A login leaves the manager as it is, or a user who was offline goes online on a free socket.
  pub login_cases :
      (username password : Bytes) (sockfd : Option ℕ)
      → ((p : ℕ) (user : User) (fd : ℕ)
          → get_elem? mng.store p ≡ some user
          → is_online user.state ≡ false
          → mng.active_sockets fd ≡ none
          → P (
              with_user mng
                (set_socket mng.active_sockets fd (some p))
                p
                (record user { state = UserState.online; socket_fd = some fd })))
      → P (login mng username password sockfd).1
  unfolding login login_as
  login_cases username password sockfd logged_in = elim (Option-cases (valid_socket sockfd)) [
    | inl bad ↦ rw (bad, login) same
    | inr (fd, ok) ↦ elim (Option-cases (mng.active_sockets fd)) [
      | inr (other, busy) ↦ rw (ok, busy, login) same
      | inl free ↦ elim (Option-cases (HashMap.find (some mng.users_by_name) (some username)).1) [
        | inl missing ↦ rw (ok, free, missing, login) same
        | inr (p, found) ↦ elim (Option-cases (get_elem? mng.store p)) [
          | inl wild ↦ rw (ok, free, found, wild, login) same
          | inr (user, at) ↦ elim (Bool-cases (str_eq user.password password)) [
            | inr bad ↦ rw (ok, free, found, at, bad, login) same
            | inl good ↦ elim (Bool-cases (is_online user.state)) [
              | inl on ↦ rw (ok, free, found, at, good, on, login) same
              | inr off ↦
                  rw (ok, free, found, at, good, off, login) (logged_in p user fd at off free)
            ]
          ]
        ]
      ]
    ]
  ]

  -- A logout leaves the manager as it is, or the user on the socket goes offline.
  pub logout_cases {ℓ} :
      {S : Type ℓ} (sockfd : Option ℕ) (leave_cb : Option (Bytes → S → S)) (s : S)
      → ((p : ℕ) (user : User) (fd : ℕ)
          → get_elem? mng.store p ≡ some user
          → mng.active_sockets fd ≡ some p
          → P (
              with_user mng
                (set_socket mng.active_sockets fd none)
                p
                (record user { state = UserState.offline; socket_fd = none; joined_groups = [] })))
      → P (logout mng sockfd leave_cb s).1
  unfolding logout
  logout_cases sockfd leave_cb s logged_out = elim (Option-cases (valid_socket sockfd)) [
    | inl bad ↦ rw (bad, logout) same
    | inr (fd, ok) ↦ elim (Option-cases (user_on mng fd)) [
      | inl off ↦ rw (ok, off, logout) same
      | inr (found, on) ↦
          let (here, at) = user_on-some mng fd found on in
          rw (ok, on, logout) (logged_out found.0 found.1 fd at here)
    ]
  ]

  -- A join leaves the manager as it is, or changes the groups of one user.
  pub join_group_cases :
      (sockfd : Option ℕ) (name : Bytes) (mem : Mem)
      → ((p : ℕ) (user : User) (groups : List Bytes)
          → get_elem? mng.store p ≡ some user
          → P (set_groups mng p user groups))
      → P (join_group mng sockfd name mem).1
  unfolding join_group
  join_group_cases sockfd name mem regrouped = elim (Option-cases (valid_socket sockfd)) [
    | inl bad ↦ rw (bad, join_group) same
    | inr (fd, ok) ↦ elim (Option-cases (user_on mng fd)) [
      | inl off ↦ rw (ok, off, join_group) same
      | inr (found, on) ↦
          let (here, at) = user_on-some mng fd found on in
          elim (Bool-cases (joined found.1.joined_groups name)) [
            | inl dup ↦ rw (ok, on, dup, join_group) same
            | inr fresh ↦ elim (Bool-cases (malloc mem).0) [
              | inr no_copy ↦ rw (ok, on, fresh, no_copy, join_group) same
              | inl copy ↦ elim (Bool-cases (malloc (malloc mem).1).0) [
                | inr no_node ↦ rw (ok, on, fresh, copy, no_node, join_group) same
                | inl node ↦
                    rw (ok, on, fresh, copy, node, join_group) (regrouped found.0 found.1 _ at)
              ]
            ]
          ]
    ]
  ]

  -- Leaving leaves the manager as it is, or changes the groups of one user.
  pub leave_group_cases :
      (sockfd : Option ℕ) (name : Bytes)
      → ((p : ℕ) (user : User) (groups : List Bytes)
          → get_elem? mng.store p ≡ some user
          → P (set_groups mng p user groups))
      → P (leave_group mng sockfd name).1
  unfolding leave_group
  leave_group_cases sockfd name regrouped = elim (Option-cases (valid_socket sockfd)) [
    | inl bad ↦ rw (bad, leave_group) same
    | inr (fd, ok) ↦ elim (Option-cases (user_on mng fd)) [
      | inl off ↦ rw (ok, off, leave_group) same
      | inr (found, on) ↦
          let (here, at) = user_on-some mng fd found on in
          elim (Bool-cases (joined found.1.joined_groups name)) [
            | inr out ↦ rw (ok, on, out, leave_group) same
            | inl within ↦ rw (ok, on, within, leave_group) (regrouped found.0 found.1 _ at)
          ]
    ]
  ]
