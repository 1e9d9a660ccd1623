-- ===== src/UserMng/Sessions.antt =====
-- The sessions of server/user_mng.c: a user that is online has one socket, and the array of active
-- sockets leads back to it.
use chat_project.Prelude.{
  ℕ, ◌≡◌, ap, ◌∙◌, inl, inr, Bool, false, Option, none, some, List, [], arith, Option-cases,
  get_elem?, get_elem?-inside, get_elem?-set, set, ◌==◌, if◌then◌else◌,
}
use chat_project.Memory.{Bytes}
use chat_project.HashMap.Find.{is_some}
use chat_project.Protocol.{ChatStatus}
use chat_project.UserMng.Steps.{with_user, login_cases, logout_cases}
use chat_project.UserMng.{
  UserMng, User, UserState, is_online, login, logout, is_logged_in, valid_socket, set_socket,
  user_on, set_groups, pop_groups,
}

abbrev pub socket_of : Option User → Option ℕ
socket_of none = none
socket_of (some user) = user.socket_fd

abbrev pub online_of : Option User → Bool
online_of none = false
online_of (some user) = is_online user.state

-- The array of sockets and the users' own fields say the same.
pub record IsPaired (mng : UserMng) : Type 0 where
  pub leads :
      (fd p : ℕ) → mng.active_sockets fd ≡ some p → socket_of (get_elem? mng.store p) ≡ some fd
  pub leads_back :
      (p fd : ℕ) → socket_of (get_elem? mng.store p) ≡ some fd → mng.active_sockets fd ≡ some p
  pub online :
      (p : ℕ) → online_of (get_elem? mng.store p) ≡ is_some (socket_of (get_elem? mng.store p))

-- What a pointer leads to once the user at `p` is written.
read_user :
    (mng : UserMng) (sockets : ℕ → Option ℕ) (p : ℕ) (old user : User)
    → get_elem? mng.store p ≡ some old
    → (q : ℕ)
    → get_elem? (with_user mng sockets p user).store q
      ≡ (if q == p then some user else get_elem? mng.store q)
read_user mng sockets p old user at q =
    get_elem?-set mng.store p q user (get_elem?-inside mng.store p old at)

-- A change of the groups alone.
pub regrouped-IsPaired :
    (mng : UserMng) (p : ℕ) (user : User) (groups : List Bytes)
    → IsPaired mng
    → get_elem? mng.store p ≡ some user
    → IsPaired (set_groups mng p user groups)
regrouped-IsPaired mng p user groups w at =
    let read =
      read_user mng mng.active_sockets p user (record user { joined_groups = groups }) at in
    record {
      leads = λ fd q e. ground (arith, read q, w.leads fd q e, at);
      leads_back = λ q fd e. w.leads_back q fd (ground (arith, read q, e, at));
      online = λ q. ground (arith, read q, w.online q, at);
    }

logged_in-IsPaired :
    (mng : UserMng) (p : ℕ) (user : User) (fd : ℕ)
    → IsPaired mng
    → get_elem? mng.store p ≡ some user
    → is_online user.state ≡ false
    → mng.active_sockets fd ≡ none
    → IsPaired (
        with_user mng
          (set_socket mng.active_sockets fd (some p))
          p
          (record user { state = UserState.online; socket_fd = some fd }))
logged_in-IsPaired mng p user fd w at off free =
    let read =
      read_user mng (set_socket mng.active_sockets fd (some p)) p user
        (record user { state = UserState.online; socket_fd = some fd }) at in
    record {
      leads = λ i q e. ground (arith, read q, w.leads i q, at, w.online p, off);
      leads_back = λ q i e. ground (arith, read q, w.leads_back q i, e, at, free);
      online = λ q. ground (arith, read q, w.online q);
    }

logged_out-IsPaired :
    (mng : UserMng) (p : ℕ) (user : User) (fd : ℕ)
    → IsPaired mng
    → get_elem? mng.store p ≡ some user
    → mng.active_sockets fd ≡ some p
    → IsPaired (
        with_user mng
          (set_socket mng.active_sockets fd none)
          p
          (record user { state = UserState.offline; socket_fd = none; joined_groups = [] }))
logged_out-IsPaired mng p user fd w at here =
    let read =
      read_user mng (set_socket mng.active_sockets fd none) p user
        (record user { state = UserState.offline; socket_fd = none; joined_groups = [] }) at in
    record {
      leads = λ i q e.
          ground (arith, read q, w.leads i q, at, w.leads fd p here, w.leads_back q i, e, here);
      leads_back = λ q i e. ground (arith, read q, w.leads_back q i, e, at, here);
      online = λ q. ground (arith, read q, w.online q);
    }

-- A login keeps the sockets and the users paired.
pub login-IsPaired :
    (mng : UserMng) (username password : Bytes) (sockfd : Option ℕ)
    → IsPaired mng
    → IsPaired (login mng username password sockfd).1
login-IsPaired mng username password sockfd w =
    login_cases IsPaired mng w username password sockfd
      (λ p user fd at off free. logged_in-IsPaired mng p user fd w at off free)

-- The outcome of a logout on a socket where no user is found.
abbrev outcome {ℓ} :
    {S : Type ℓ}
    → UserMng
    → ℕ
    → Option (Bytes → S → S)
    → S
    → Option (ℕ × User)
    → ChatStatus × UserMng × S
outcome mng fd leave_cb s none = (ChatStatus.not_logged_in, mng, s)
outcome mng fd leave_cb s (some (p, user)) = (
  ChatStatus.st_ok,
  record mng {
    active_sockets = set_socket mng.active_sockets fd none;
    store =
        set mng.store p
          (record user { state = UserState.offline; socket_fd = none; joined_groups = [] });
  },
  pop_groups leave_cb user.joined_groups s,
)

logout-outcome {ℓ} :
    {S : Type ℓ} (mng : UserMng) (sockfd : Option ℕ) (fd : ℕ) (leave_cb : Option (Bytes → S → S))
    (s : S) (o : Option (ℕ × User))
    → valid_socket sockfd ≡ some fd
    → user_on mng fd ≡ o
    → logout mng sockfd leave_cb s ≡ outcome mng fd leave_cb s o
unfolding logout
logout-outcome mng sockfd fd leave_cb s none ok e = rw (ok, e, logout)
logout-outcome mng sockfd fd leave_cb s (some found) ok e = rw (ok, e, logout)

-- A logout keeps the sockets and the users paired.
pub logout-IsPaired {ℓ} :
    {S : Type ℓ} (mng : UserMng) (sockfd : Option ℕ) (leave_cb : Option (Bytes → S → S)) (s : S)
    → IsPaired mng
    → IsPaired (logout mng sockfd leave_cb s).1
logout-IsPaired mng sockfd leave_cb s w =
    logout_cases IsPaired mng w sockfd leave_cb s
      (λ p user fd at here. logged_out-IsPaired mng p user fd w at here)

user_on-none :
    (mng : UserMng) (fd : ℕ) → IsPaired mng → user_on mng fd ≡ none → mng.active_sockets fd ≡ none
user_on-none mng fd w e = elim (Option-cases (mng.active_sockets fd)) [
  | inl off ↦ off
  | inr (p, on) ↦ elim (Option-cases (get_elem? mng.store p)) [
    | inl wild ↦ let z : Path (Option ℕ) none (some fd) = (rw wild at (w.leads fd p on)) in cc
    | inr (user, at) ↦
        let z : Path (Option (ℕ × User)) (some (p, user)) none = (rw (on, at, user_on) at e) in cc
  ]
]

-- If the sockets and the users are paired, nobody is logged in on a socket after a logout there.
pub logout-is_logged_in {ℓ} :
    {S : Type ℓ} (mng : UserMng) (sockfd : Option ℕ) (leave_cb : Option (Bytes → S → S)) (s : S)
    → IsPaired mng
    → is_logged_in (logout mng sockfd leave_cb s).1 sockfd ≡ false
unfolding is_logged_in
logout-is_logged_in mng sockfd leave_cb s w = elim (Option-cases (valid_socket sockfd)) [
  | inl bad ↦ rw (bad, is_logged_in)
  | inr (fd, ok) ↦ elim (Option-cases (user_on mng fd)) [
    | inl off ↦
        ap (λ r. is_logged_in r.1 sockfd) (logout-outcome mng sockfd fd leave_cb s none ok off)
        ∙ rw (ok, user_on-none mng fd w off, is_logged_in)
    | inr (found, on) ↦
        ap (λ r. is_logged_in r.1 sockfd)
          (logout-outcome mng sockfd fd leave_cb s (some found) ok on)
        ∙ rw (ok, is_logged_in) (ground arith)
  ]
]
