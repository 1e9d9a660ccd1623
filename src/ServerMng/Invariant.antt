-- ===== src/ServerMng/Invariant.antt =====
-- The invariant of the users that every request of server/server_mng.c keeps.
use chat_project.Prelude.{
  ℕ, ◌+◌, ◌≤◌, ◌≡◌, refl, inl, inr, Option, [], ◌∷◌, ◌++◌, arith, Bool-cases, length, ltb, leb,
  ◌&&◌,
}
use chat_project.Memory.{Bytes, Run, ok, reject, fault, c_str, load, copy_out}
use chat_project.Memory.Reads.{>>=-eq-ok, guard-eq-ok}
use chat_project.Protocol.{read_field}
use chat_project.Protocol.Decode.{copy_out-length}
use mathlib.Core.Path.{subst}
use chat_project.UserMng
use chat_project.UserMng.Sessions.{IsPaired}
use chat_project.UserMng.Register.{IsIndexed}
use chat_project.UserMng.Steps.{login_cases, logout_cases, join_group_cases, leave_group_cases}
use chat_project.UserMng.Sessions.{login-IsPaired, logout-IsPaired}
use chat_project.UserMng.Members.{join_group-IsPaired, leave_group-IsPaired}
use chat_project.UserMng.Index.{with_user-IsIndexed}
use chat_project.ServerMng.{ServerMng, if_decoded, send_reply}

-- The sockets and the users are paired, and the index of names is in order.
pub record IsSound (mng : UserMng.UserMng) : Type 0 where
  pub paired : IsPaired mng
  pub indexed : IsIndexed mng

module _ (mng : UserMng.UserMng) (w : IsSound mng) where
  pub login-IsSound :
      (username password : Bytes) (sockfd : Option ℕ)
      → IsSound (UserMng.login mng username password sockfd).1
  login-IsSound username password sockfd = record {
    paired = login-IsPaired mng username password sockfd w.paired;
    indexed =
        login_cases IsIndexed mng w.indexed username password sockfd
          (λ p user fd at off free. with_user-IsIndexed mng _ p user _ w.indexed at refl);
  }

  pub logout-IsSound :
      {S : Type 0} (sockfd : Option ℕ) (leave_cb : Option (Bytes → S → S)) (s : S)
      → IsSound (UserMng.logout mng sockfd leave_cb s).1
  logout-IsSound sockfd leave_cb s = record {
    paired = logout-IsPaired mng sockfd leave_cb s w.paired;
    indexed =
        logout_cases IsIndexed mng w.indexed sockfd leave_cb s
          (λ p user fd at here. with_user-IsIndexed mng _ p user _ w.indexed at refl);
  }

  pub join_group-IsSound :
      (sockfd : Option ℕ) (name : Bytes) (mem : _)
      → IsSound (UserMng.join_group mng sockfd name mem).1
  join_group-IsSound sockfd name mem = record {
    paired = join_group-IsPaired mng sockfd name mem w.paired;
    indexed =
        join_group_cases IsIndexed mng w.indexed sockfd name mem
          (λ p user groups at. with_user-IsIndexed mng _ p user _ w.indexed at refl);
  }

  pub leave_group-IsSound :
      (sockfd : Option ℕ) (name : Bytes) → IsSound (UserMng.leave_group mng sockfd name).1
  leave_group-IsSound sockfd name = record {
    paired = leave_group-IsPaired mng sockfd name w.paired;
    indexed =
        leave_group_cases IsIndexed mng w.indexed sockfd name
          (λ p user groups at. with_user-IsIndexed mng _ p user _ w.indexed at refl);
  }

-- A reply does not touch the users.
pub send_reply-IsSound :
    (s : ServerMng) (sockfd : Option ℕ) (r : Run (ℕ × Bytes))
    → IsSound s.user_mng
    → IsSound (send_reply s sockfd r).user_mng
unfolding send_reply
send_reply-IsSound s sockfd reject w = w
send_reply-IsSound s sockfd fault w = w
send_reply-IsSound s sockfd (ok r) w = elim (Bool-cases (ltb 0 r.0)) [
  | inl sent ↦ rw sent w
  | inr none_sent ↦ rw none_sent w
]

pub if_decoded-IsSound :
    {A : Type 0} (r : Run A) (s : ServerMng) (next : A → ServerMng)
    → IsSound s.user_mng
    → ((a : A) → r ≡ ok a → IsSound (next a).user_mng)
    → IsSound (if_decoded r s next).user_mng
unfolding if_decoded
if_decoded-IsSound (ok a) s next w k = k a refl
if_decoded-IsSound reject s next w k = w
if_decoded-IsSound fault s next w k = w

-- A field that is read ends in a NUL behind at most `max_len` bytes.
c_str-short : (chars : Bytes) → length (c_str (chars ++ 0 ∷ [])) ≤ length chars
unfolding c_str
c_str-short [] = omega arith
c_str-short (b ∷ bs) = ground (arith, c_str-short bs)

pub read_field-short :
    (buf : Bytes) (n max_len pos : ℕ) {r : Bytes × ℕ}
    → read_field buf n max_len pos ≡ ok r
    → length (c_str r.0) ≤ max_len
unfolding read_field
read_field-short buf n max_len pos {r} h =
    let (inside, h1) = guard-eq-ok (ltb pos n) _ h in
    let (flen, got, h2) = >>=-eq-ok (load buf pos) _ h1 in
    let (small, h3) = guard-eq-ok (leb flen max_len && leb (pos + 1 + flen) n) _ h2 in
    let (chars, read, h4) = >>=-eq-ok (copy_out buf (pos + 1) flen) _ h3 in
    let shape : chars ++ 0 ∷ [] ≡ r.0 = cc in
    let short : length (c_str r.0) ≤ length chars =
      subst (λ t. length (c_str t) ≤ length chars) shape (c_str-short chars) in
    ground (arith, short, copy_out-length buf (pos + 1) flen read)
