-- ===== src/Session/Kept.antt =====
-- Every operation of client/client_mng.c that the screens call keeps a client in order.
use mathlib.Core.Path.{subst}
use chat_project.Prelude.{
  ℕ, suc, ◌≤◌, ◌≡◌, refl, sym, Bool, true, false, some, List, [], ◌∷◌, ◌++◌, length, length-append,
  arith, Bool-cases, inl, inr, if◌then◌else◌,
}
use chat_project.Memory.{Bytes, Run, reject}
use chat_project.Memory.Windows.{length-written}
use chat_project.HashUtils.{str_eq}
use chat_project.Protocol.{
  ChatOpcode, is_ok, chat_encode_user_pass_req, chat_encode_groupname_req, chat_encode_logout_req,
}
use chat_project.Protocol.Encode.{
  field, frame, emitted, chat_encode_user_pass_req-frame, chat_encode_groupname_req-frame,
  chat_encode_logout_req-frame,
}
use chat_project.ClientGroupsMng.{GroupEntry}
use chat_project.ClientGroupsMng.Close.{on_leave-Leaves, clear-kill_all, without}
use chat_project.ClientMng.{
  Client, msg_buf, do_user_pass, client_mng_register, client_mng_login, logged_in_as, with_windows,
  client_mng_logout, client_mng_leave_group,
}
use chat_project.Session.Requests.{IsInOrder, length-all_some, Runs, Encoded, status_exchange-Runs}

emitted-Encoded :
    (run : Run (ℕ × Bytes)) (b : Bool) (bytes : Bytes)
    → run ≡ (if b then emitted bytes msg_buf else reject)
    → (b ≡ true → length bytes ≤ 257)
    → Encoded run
emitted-Encoded run true bytes e short =
    let fits = short refl in
    let long = length-written bytes msg_buf fits in
    subst Encoded (sym e) (omega (arith, long), omega (arith, long, fits))
emitted-Encoded run false bytes e short = subst Encoded (sym e) tt

user_pass-Encoded :
    (op : ChatOpcode) (user pass : Bytes)
    → Encoded (chat_encode_user_pass_req (some msg_buf) op (some user) (some pass))
user_pass-Encoded op user pass =
    emitted-Encoded _ _ (frame op (field user ++ field pass))
      (chat_encode_user_pass_req-frame msg_buf op user pass (omega arith))
      (λ fits. ground (arith, length-append (field user) (field pass)))

pub groupname-Encoded :
    (op : ChatOpcode) (group : Bytes)
    → Encoded (chat_encode_groupname_req (some msg_buf) op (some group))
groupname-Encoded op group =
    emitted-Encoded _ _ (frame op (field group))
      (chat_encode_groupname_req-frame msg_buf op group (omega arith)) (λ fits. ground arith)

logout-Encoded : Encoded (chat_encode_logout_req (some msg_buf))
logout-Encoded =
    emitted-Encoded _ true (frame ChatOpcode.logout_req [])
      (chat_encode_logout_req-frame msg_buf (omega arith)) (λ fits. omega arith)

do_user_pass-Runs :
    (asked : ℕ) (c : Client) (op : ChatOpcode) (user pass : Bytes)
    → IsInOrder c asked
    → Runs asked (do_user_pass c op user pass)
unfolding do_user_pass
do_user_pass-Runs asked c op user pass o =
    status_exchange-Runs asked _ c _ (user_pass-Encoded op user pass) o
      (λ status c1 o1. ((status, c1), refl, o1))

pub client_mng_register-Runs :
    (asked : ℕ) (c : Client) (user pass : Bytes)
    → IsInOrder c asked
    → Runs asked (client_mng_register c (some user) (some pass))
unfolding client_mng_register
client_mng_register-Runs asked c user pass o =
    do_user_pass-Runs asked c ChatOpcode.reg_req user pass o

pub client_mng_login-Runs :
    (asked : ℕ) (c : Client) (user pass : Bytes)
    → IsInOrder c asked
    → Runs asked (client_mng_login c (some user) (some pass))
unfolding client_mng_login
client_mng_login-Runs asked c user pass o =
    let ((status, c1), run, o1) = do_user_pass-Runs asked c ChatOpcode.login_req user pass o in
    elim (Bool-cases (is_ok status)) [
      | inl good ↦ (logged_in_as user (status, c1), rw (run, client_mng_login) refl, rw good o1)
      | inr bad ↦ (logged_in_as user (status, c1), rw (run, client_mng_login) refl, rw bad o1)
    ]

-- The windows are closed at a logout.
pub client_mng_logout-Runs :
    (asked : ℕ) (c : Client) → IsInOrder c asked → Runs asked (client_mng_logout (suc asked) c)
unfolding client_mng_logout with_windows
client_mng_logout-Runs asked c o = status_exchange-Runs asked _ c _ logout-Encoded o λ status c1 o1.
    elim (Bool-cases (is_ok status)) [
      | inr bad ↦ rw bad ((status, c1), refl, o1)
      | inl good ↦
          let (h', run, empty) =
            clear-kill_all c1.heap c1.mng.groups o1.nodes o1.entries (suc asked) o1.tracks
              (omega (arith, o1.bound)) in
          rw (good, run)
            (
              _,
              refl,
              record {
                nodes = [];
                entries = [];
                tracks = empty;
                bound = omega arith;
                bytes = o1.bytes;
                quiet = o1.quiet;
              },
            )
    ]

length-without : (es : List GroupEntry) (name : Bytes) → length (without es name) ≤ length es
length-without [] name = omega arith
length-without (e ∷ es) name = elim (Bool-cases (str_eq e.name name)) [
  | inl hit ↦ rw hit (omega arith)
  | inr miss ↦ rw miss (omega (arith, length-without es name))
]

pub client_mng_leave_group-Runs :
    (asked : ℕ) (c : Client) (group : Bytes)
    → IsInOrder c asked
    → Runs asked (client_mng_leave_group (suc asked) c (some group))
unfolding client_mng_leave_group with_windows
client_mng_leave_group-Runs asked c group o =
    status_exchange-Runs asked _ c _ (groupname-Encoded ChatOpcode.leave_group_req group) o
      λ status c1 o1. elim (Bool-cases (is_ok status)) [
        | inr bad ↦ rw bad ((status, c1), refl, o1)
        | inl good ↦
            let (h', ps, run, tracks) =
              on_leave-Leaves c1.heap c1.mng.groups o1.nodes o1.entries o1.tracks (suc asked) group
                (omega (arith, o1.bound)) in
            rw (good, run)
              (
                _,
                refl,
                record {
                  nodes = ps;
                  entries = without o1.entries group;
                  tracks = tracks;
                  bound = omega (
                    arith,
                    o1.bound,
                    length-without o1.entries group,
                    length-all_some _ _ _ o1.tracks.entries,
                    length-all_some _ _ _ tracks.entries,
                  );
                  bytes = o1.bytes;
                  quiet = o1.quiet;
                },
              )
      ]
