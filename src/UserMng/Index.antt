-- ===== src/UserMng/Index.antt =====
-- The index of names of server/user_mng.c through the operations that write a user.
use chat_project.Prelude.{
  ℕ, ◌≡◌, ap, sym, ◌∙◌, inl, inr, Option, some, Bool-cases, get_elem?, get_elem?-inside,
  get_elem?-set, ◌==◌, eqb→eq,
}
use mathlib.Core.Path.{subst}
use mathlib.Core.Option.{some-injective}
use chat_project.UserMng.{UserMng, User}
use chat_project.UserMng.Steps.{with_user}
use chat_project.UserMng.Register.{IsIndexed}

-- A user that is written keeps the index of names in order, if its name stays.
pub with_user-IsIndexed :
    (mng : UserMng) (sockets : ℕ → Option ℕ) (p : ℕ) (old user : User)
    → IsIndexed mng
    → get_elem? mng.store p ≡ some old
    → user.username ≡ old.username
    → IsIndexed (with_user mng sockets p user)
with_user-IsIndexed mng sockets p old user ix at same_name = record {
  valid = ix.valid;
  strings = ix.strings;
  named = λ name q e.
      let (u, here, is) = ix.named name q e in
      let read = get_elem?-set mng.store p q user (get_elem?-inside mng.store p old at) in
      elim (Bool-cases (q == p)) [
        | inl hit ↦
            let both : some u ≡ some old =
              sym here ∙ subst (λ t. get_elem? mng.store t ≡ some old) (sym (eqb→eq q p hit)) at in
            let u_old = some-injective u old both in
            (user, read ∙ rw hit, same_name ∙ ap (λ t. t.username) (sym u_old) ∙ is)
        | inr miss ↦ (u, read ∙ rw miss here, is)
      ];
}
