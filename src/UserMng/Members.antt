-- ===== src/UserMng/Members.antt =====
-- The registration and the group membership of server/user_mng.c.
use chat_project.Prelude.{
  ℕ, ◌+◌, ◌<◌, ◌≡◌, refl, inl, inr, true, false, Option, List, [], ◌∷◌, ◌++◌, arith, Bool-cases,
  if◌then◌else◌,
}
use mathlib.Core.Path.{subst}
use chat_project.Memory.{Bytes}
use chat_project.Malloc.{Mem}
use chat_project.HashUtils.{str_eq}
use chat_project.HashUtils.Laws.{str_eq→eq, str_eq_refl}
use chat_project.UserMng.{UserMng, join_group, leave_group, joined, remove_joined}
use chat_project.UserMng.Sessions.{IsPaired, regrouped-IsPaired}
use chat_project.UserMng.Steps.{join_group_cases, leave_group_cases}

-- How often a name stands in a list of joined groups.
abbrev pub times : List Bytes → Bytes → ℕ
times [] name = 0
times (g ∷ gs) name = (if str_eq g name then 1 else 0) + times gs name

joined-times : (gs : List Bytes) (name : Bytes) → joined gs name ≡ false → times gs name ≡ 0
unfolding joined
joined-times [] name h = refl
joined-times (g ∷ gs) name h = ground (arith, joined-times gs name)

times-append :
    (gs hs : List Bytes) (name : Bytes) → times (gs ++ hs) name ≡ times gs name + times hs name
times-append [] hs name = omega arith
times-append (g ∷ gs) hs name = omega (arith, times-append gs hs name)

-- A list that holds no name twice.
unfoldable pub AreDistinct : List Bytes → Type 0
AreDistinct gs = (name : Bytes) → times gs name < 2

joined-append : (gs : List Bytes) (name : Bytes) → joined (gs ++ name ∷ []) name ≡ true
unfolding joined
joined-append [] name = rw (str_eq_refl name)
joined-append (g ∷ gs) name = ground (arith, joined-append gs name)

-- A name that the search of a join does not find can be put behind a list without repetitions: the
-- list still has none, and the search finds the name.
pub join-AreDistinct :
    (gs : List Bytes) (name : Bytes)
    → joined gs name ≡ false
    → AreDistinct gs
    → AreDistinct (gs ++ name ∷ []) × (joined (gs ++ name ∷ []) name ≡ true)
unfolding AreDistinct joined
join-AreDistinct gs name fresh d = (
  λ q. elim (Bool-cases (str_eq name q)) [
    | inl same ↦
        let e = str_eq→eq name q same in
        let none_yet : times gs q ≡ 0 =
          subst (λ t. times gs t ≡ 0) e (joined-times gs name fresh) in
        rw (times-append gs (name ∷ []) q, none_yet, same) (omega arith)
    | inr other ↦ rw (times-append gs (name ∷ []) q, other) (omega (arith, d q))
  ],
  joined-append gs name,
)

-- If the search finds the name, leaving takes one entry of it off the list and no other entry.
pub remove_joined-times :
    (gs : List Bytes) (name q : Bytes)
    → joined gs name ≡ true
    → times gs q ≡ times (remove_joined gs name) q + (if str_eq name q then 1 else 0)
unfolding joined remove_joined
remove_joined-times [] name q h = cc
remove_joined-times (g ∷ gs) name q h = elim (Bool-cases (str_eq g name)) [
  | inl same ↦ let e = str_eq→eq g name same in rw (same, remove_joined) (rw e (omega arith))
  | inr other ↦
      rw (other, remove_joined)
        (omega (arith, remove_joined-times gs name q (ground (arith, other))))
]

-- Joining a group keeps the sockets and the users paired.
pub join_group-IsPaired :
    (mng : UserMng) (sockfd : Option ℕ) (name : Bytes) (mem : Mem)
    → IsPaired mng
    → IsPaired (join_group mng sockfd name mem).1
join_group-IsPaired mng sockfd name mem w =
    join_group_cases IsPaired mng w sockfd name mem
      (λ p user groups at. regrouped-IsPaired mng p user groups w at)

-- Leaving a group keeps the sockets and the users paired.
pub leave_group-IsPaired :
    (mng : UserMng) (sockfd : Option ℕ) (name : Bytes)
    → IsPaired mng
    → IsPaired (leave_group mng sockfd name).1
leave_group-IsPaired mng sockfd name w =
    leave_group_cases IsPaired mng w sockfd name
      (λ p user groups at. regrouped-IsPaired mng p user groups w at)
