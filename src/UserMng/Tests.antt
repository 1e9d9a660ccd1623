-- ===== src/UserMng/Tests.antt =====
-- The users of server/user_mng.c with one registered user.
use chat_project.Prelude.{
  ℕ, zero, suc, ◌≡◌, refl, ap, sym, ◌∙◌, ◌%◌, inl, inr, Bool-cases, true, false, Option, none, some,
  List, [], ◌∷◌, ◌++◌, arith, get_elem?, ◌==◌, if◌then◌else◌,
}
use chat_project.Memory.{Bytes}
use chat_project.HashMap.{get_bucket_index}
use chat_project.HashMap.Buckets.{view, chain_at}
use chat_project.HashMap.Chains.{value_of}
use chat_project.HashMap.Find.{is_some}
use chat_project.HashUtils.{str_eq}
use chat_project.HashUtils.Laws.{hash_key, equal_keys, equal_keys→eq}
use chat_project.FreeMcQueue.{codes}
use chat_project.GroupMng.Tests.{one_name, one_name-IsValid}
use chat_project.UserMng.{UserMng, User, UserState, register, joined}
use chat_project.UserMng.Sessions.{IsPaired, socket_of, online_of}
use chat_project.UserMng.Members.{AreDistinct}
use chat_project.UserMng.Register.{IsIndexed, Registered, user_of, register-Registered}

abbrev ann : Bytes
ann = codes "ann"

abbrev chess : Bytes
chess = codes "chess"

-- Ann is offline.
abbrev idle : UserMng
idle = record {
  users_by_name = one_name ann;
  active_sockets = λ fd. none;
  store =
      record {
        username = ann;
        password = codes "pw";
        state = UserState.offline;
        socket_fd = none;
        joined_groups = [];
      }
      ∷ [];
}

idle-online :
    (p : ℕ) → online_of (get_elem? idle.store p) ≡ is_some (socket_of (get_elem? idle.store p))
idle-online zero = refl
idle-online (suc p) = refl

idle-leads_back :
    (p fd : ℕ) → socket_of (get_elem? idle.store p) ≡ some fd → idle.active_sockets fd ≡ some p
idle-leads_back zero fd e = cc
idle-leads_back (suc p) fd e = cc

idle-IsPaired : IsPaired idle
idle-IsPaired = record { leads = λ fd p e. cc; leads_back = idle-leads_back; online = idle-online }

-- Ann is logged in on the socket 5, and is in one group.
abbrev busy : UserMng
busy = record {
  users_by_name = one_name ann;
  active_sockets = λ fd. if fd == 5 then some 0 else none;
  store =
      record {
        username = ann;
        password = codes "pw";
        state = UserState.online;
        socket_fd = some 5;
        joined_groups = chess ∷ [];
      }
      ∷ [];
}

busy-leads :
    (fd p : ℕ) → busy.active_sockets fd ≡ some p → socket_of (get_elem? busy.store p) ≡ some fd
busy-leads fd zero e = ground arith
busy-leads fd (suc p) e = ground arith

busy-leads_back :
    (p fd : ℕ) → socket_of (get_elem? busy.store p) ≡ some fd → busy.active_sockets fd ≡ some p
busy-leads_back zero fd e = ground arith
busy-leads_back (suc p) fd e = cc

busy-online :
    (p : ℕ) → online_of (get_elem? busy.store p) ≡ is_some (socket_of (get_elem? busy.store p))
busy-online zero = refl
busy-online (suc p) = refl

busy-IsPaired : IsPaired busy
busy-IsPaired = record { leads = busy-leads; leads_back = busy-leads_back; online = busy-online }

abbrev note : Bytes → List Bytes → List Bytes
note group left = left ++ group ∷ []

one_group-AreDistinct : AreDistinct (chess ∷ [])
unfolding AreDistinct
one_group-AreDistinct name = ground arith

not_joined : joined (chess ∷ []) (codes "go") ≡ false
unfolding joined str_eq
not_joined = refl

is_joined : joined (chess ∷ []) chess ≡ true
unfolding joined str_eq
is_joined = refl

ann_found : (name : Bytes) → user_of idle name ≡ (if equal_keys name ann then some 0 else none)
unfolding view get_bucket_index
ann_found name =
    let first : hash_key name % 1 ≡ 0 = omega arith in
    ap (λ i. value_of equal_keys (chain_at (one_name ann) i) name) first

ann_named :
    (name : Bytes) (p : ℕ)
    → user_of idle name ≡ some p
    → (user : User) × (get_elem? idle.store p ≡ some user) × (user.username ≡ name)
ann_named name zero e = elim (Bool-cases (equal_keys name ann)) [
  | inl same ↦ (_, refl, sym (equal_keys→eq name ann same))
  | inr other ↦
      let absent : Path (Option ℕ) none (some 0) = rw other at (sym (ann_found name) ∙ e) in cc
]
ann_named name (suc p) e = elim (Bool-cases (equal_keys name ann)) [
  | inl same ↦
      let wrong : Path (Option ℕ) (some 0) (some (suc p)) = rw same at (sym (ann_found name) ∙ e) in
      ground (arith, wrong)
  | inr other ↦
      let absent : Path (Option ℕ) none (some (suc p)) = rw other at (sym (ann_found name) ∙ e) in
      cc
]

idle-IsIndexed : IsIndexed idle
idle-IsIndexed = record { valid = one_name-IsValid ann; strings = refl; named = ann_named }

register-Registered_example :
    Registered idle
      (codes "eve")
      (register idle (codes "eve") (codes "key") []).0
      (register idle (codes "eve") (codes "key") []).1
register-Registered_example =
    register-Registered idle (codes "eve") (codes "key") [] idle-IsPaired idle-IsIndexed
      (omega arith)
