-- ===== src/UserMng.antt =====
-- The users of server/user_mng.c and server/user.h. A `User *` is an index into the store of users,
-- which are never freed while the server runs. A socket is an `int`; a negative one is `none`. The
-- NULL tests on the manager and the strings are left out: the server passes what exists.
pub mod Steps
pub mod Sessions
pub mod Members
pub mod Register
pub mod Index
mod Tests
use chat_project.Prelude.{
  ℕ, zero, suc, ◌+◌, ◌-◌, Bool, true, false, Option, none, some, List, [], ◌∷◌, ◌++◌, ltb, ◌==◌,
  if◌then◌else◌, not, get_elem?, set, length, take,
}
use chat_project.Memory.{Bytes}
use chat_project.Malloc.{Mem, malloc}
use chat_project.HashMap
use chat_project.HashMap.{HashMap}
use chat_project.HashMap.Find.{is_success}
use chat_project.HashUtils.{str_eq}
use chat_project.HashUtils.Laws.{hash_key, equal_keys}
use chat_project.Protocol.{ChatStatus, chat_max_username_len, chat_max_password_len}

pub data UserState : Type 0 where
  offline online : UserState

pub record User : Type 0 where
  pub username : Bytes
  pub password : Bytes
  pub state : UserState
  pub socket_fd : Option ℕ
  pub joined_groups : List Bytes

abbrev pub fd_setsize : ℕ
fd_setsize = 1024

-- `struct UserMng`, with the store that its pointers lead to.
pub record UserMng : Type 0 where
  pub users_by_name : HashMap Bytes ℕ
  pub active_sockets : ℕ → Option ℕ
  pub store : List User

-- `fuel` is that of the search for a prime in `HashMap_Create`.
unfoldable pub create : ℕ → Mem → Option (Option UserMng × Mem)
create fuel mem =
    let (mng_ok, mem1) = malloc mem in
    if mng_ok
    then elim (HashMap.create {V = ℕ} fuel 100 (some hash_key) (some equal_keys) mem1) [
      | none ↦ none
      | some r ↦ elim r.0 [
        | none ↦ some (none, r.1)
        | some map ↦
            some
              (some (record { users_by_name = map; active_sockets = λ fd. none; store = [] }), r.1)
      ]
    ]
    else some (none, mem1)

-- The third step of a registration: the user's fields, with the copies that `strncpy` makes.
abbrev pub new_user : Bytes → Bytes → User
new_user username password = record {
  username = take chat_max_username_len username;
  password = take chat_max_password_len password;
  state = UserState.offline;
  socket_fd = none;
  joined_groups = [];
}

-- The fourth step: the user goes into the map, or is freed.
unfoldable pub insert_user : UserMng → User → Mem → ChatStatus × UserMng × Mem
insert_user mng user mem =
    let p = length mng.store in
    let (r, map, mem1) = HashMap.insert (some mng.users_by_name) (some user.username) p mem in
    elim map [
      | none ↦ (ChatStatus.server_full, mng, mem1)
      | some map' ↦
          if is_success r
          then (
            ChatStatus.st_ok,
            record mng { users_by_name = map'; store = mng.store ++ user ∷ [] },
            mem1,
          )
          else (ChatStatus.server_full, record mng { users_by_name = map' }, mem1)
    ]

unfoldable pub register : UserMng → Bytes → Bytes → Mem → ChatStatus × UserMng × Mem
register mng username password mem =
    let (found, dummy) = HashMap.find (some mng.users_by_name) (some username) in
    if is_success found
    then (ChatStatus.user_exists, mng, mem)
    else let (user_ok, mem1) = malloc mem in
      if user_ok
      then (let (list_ok, mem2) = malloc mem1 in
          if list_ok
          then insert_user mng (new_user username password) mem2
          else (ChatStatus.server_full, mng, mem2))
      else (ChatStatus.server_full, mng, mem1)

-- A socket that the array has room for, or `none` where the code returns `ST_ERR_PROTOCOL`.
abbrev pub valid_socket : Option ℕ → Option ℕ
valid_socket none = none
valid_socket (some fd) = if ltb fd fd_setsize then some fd else none

-- `_mng->activeSockets[fd] = value`
abbrev pub set_socket : (ℕ → Option ℕ) → ℕ → Option ℕ → ℕ → Option ℕ
set_socket sockets fd value i = if i == fd then value else sockets i

abbrev pub is_online : UserState → Bool
is_online UserState.online = true
is_online UserState.offline = false

-- The tests and updates of a login, once the user is found at `p`.
unfoldable pub login_as : UserMng → ℕ → User → Bytes → ℕ → ChatStatus × UserMng
login_as mng p user password fd =
    if not (str_eq user.password password)
    then (ChatStatus.bad_password, mng)
    else if is_online user.state
    then (ChatStatus.already_logged_in, mng)
    else (
      ChatStatus.st_ok,
      record mng {
        active_sockets = set_socket mng.active_sockets fd (some p);
        store = set mng.store p (record user { state = UserState.online; socket_fd = some fd });
      },
    )

-- A pointer that leads nowhere, which the invariant excludes, counts as a missing user.
unfoldable pub login : UserMng → Bytes → Bytes → Option ℕ → ChatStatus × UserMng
login mng username password sockfd = elim (valid_socket sockfd) [
  | none ↦ (ChatStatus.protocol, mng)
  | some fd ↦ elim (mng.active_sockets fd) [
    | some other ↦ (ChatStatus.already_logged_in, mng)
    | none ↦
        let (found, value) = HashMap.find (some mng.users_by_name) (some username) in
        elim value [
          | none ↦ (ChatStatus.user_not_found, mng)
          | some p ↦ elim (get_elem? mng.store p) [
            | none ↦ (ChatStatus.user_not_found, mng)
            | some user ↦ login_as mng p user password fd
          ]
        ]
  ]
]

-- The user that is logged in on a socket, with its pointer.
abbrev pub user_on : UserMng → ℕ → Option (ℕ × User)
user_on mng fd = elim (mng.active_sockets fd) [
  | none ↦ none
  | some p ↦ elim (get_elem? mng.store p) [ none ↦ none | some user ↦ some (p, user) ]
]

-- The loop of `UserMng_Logout`: the groups are popped from the head, each with its callback.
unfoldable pub pop_groups {ℓ} : {S : Type ℓ} → Option (Bytes → S → S) → List Bytes → S → S
pop_groups leave_cb [] s = s
pop_groups none (g ∷ gs) s = pop_groups none gs s
pop_groups (some leave) (g ∷ gs) s = pop_groups (some leave) gs (leave g s)

unfoldable pub logout {ℓ} :
    {S : Type ℓ} → UserMng → Option ℕ → Option (Bytes → S → S) → S → ChatStatus × UserMng × S
logout mng sockfd leave_cb s = elim (valid_socket sockfd) [
  | none ↦ (ChatStatus.protocol, mng, s)
  | some fd ↦ elim (user_on mng fd) [
    | none ↦ (ChatStatus.not_logged_in, mng, s)
    | some found ↦ (
      ChatStatus.st_ok,
      record mng {
        active_sockets = set_socket mng.active_sockets fd none;
        store =
            set mng.store found.0
              (record found.1 { state = UserState.offline; socket_fd = none; joined_groups = [] });
      },
      pop_groups leave_cb found.1.joined_groups s,
    )
  ]
]

unfoldable pub disconnect {ℓ} :
    {S : Type ℓ} → UserMng → Option ℕ → Option (Bytes → S → S) → S → UserMng × S
disconnect mng sockfd leave_cb s =
    let (status, mng', s') = logout mng sockfd leave_cb s in (mng', s')

-- The search of the joined groups for a name.
unfoldable pub joined : List Bytes → Bytes → Bool
joined [] name = false
joined (g ∷ gs) name = if str_eq g name then true else joined gs name

-- The first group of that name is taken off the list.
unfoldable pub remove_joined : List Bytes → Bytes → List Bytes
remove_joined [] name = []
remove_joined (g ∷ gs) name =
    let rest = remove_joined gs name in if str_eq g name then gs else g ∷ rest

-- `ListPushTail` and `ListItrRemove` on the list of the user at `p`.
abbrev pub set_groups : UserMng → ℕ → User → List Bytes → UserMng
set_groups mng p user groups = record mng {
  store = set mng.store p (record user { joined_groups = groups });
}

unfoldable pub join_group : UserMng → Option ℕ → Bytes → Mem → ChatStatus × UserMng × Mem
join_group mng sockfd name mem = elim (valid_socket sockfd) [
  | none ↦ (ChatStatus.protocol, mng, mem)
  | some fd ↦ elim (user_on mng fd) [
    | none ↦ (ChatStatus.not_logged_in, mng, mem)
    | some found ↦
        let user = found.1 in
        if joined user.joined_groups name
        then (ChatStatus.already_in_group, mng, mem)
        else (let (copy_ok, mem1) = malloc mem in
            if copy_ok
            then (let (node_ok, mem2) = malloc mem1 in
                if node_ok
                then (
                  ChatStatus.st_ok,
                  set_groups mng found.0 user (user.joined_groups ++ name ∷ []),
                  mem2,
                )
                else (ChatStatus.server_full, mng, mem2))
            else (ChatStatus.server_full, mng, mem1))
  ]
]

unfoldable pub leave_group : UserMng → Option ℕ → Bytes → ChatStatus × UserMng
leave_group mng sockfd name = elim (valid_socket sockfd) [
  | none ↦ (ChatStatus.protocol, mng)
  | some fd ↦ elim (user_on mng fd) [
    | none ↦ (ChatStatus.not_logged_in, mng)
    | some found ↦
        let user = found.1 in
        if joined user.joined_groups name
        then (ChatStatus.st_ok, set_groups mng found.0 user (remove_joined user.joined_groups name))
        else (ChatStatus.not_in_group, mng)
  ]
]

unfoldable pub is_logged_in : UserMng → Option ℕ → Bool
is_logged_in mng sockfd = elim (valid_socket sockfd) [
  | none ↦ false
  | some fd ↦ elim (mng.active_sockets fd) [ none ↦ false | some p ↦ true ]
]
