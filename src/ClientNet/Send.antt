-- ===== src/ClientNet/Send.antt =====
-- `client_net_send_all` of client/client_net.c against what goes out.
use chat_project.Prelude.{
  ℕ, zero, suc, ◌≡◌, ◌≤◌, refl, ◌∙◌, Bool, true, false, some, [], ◌∷◌, ◌++◌, append_assoc,
  append-nil, ap, take, drop, take-append-drop, if◌then◌else◌, Bool-cases, inl, inr, length, leb,
  ◌&&◌, le→leb,
}
use chat_project.Memory.{Bytes}
use chat_project.ClientNet.{SendAnswer, SendResult, Outgoing, send_loop, client_net_send_all}

-- No call fails, and none takes nothing.
abbrev pub all_taken : Outgoing → Bool
all_taken [] = true
all_taken (SendAnswer.failed ∷ answers) = false
all_taken (SendAnswer.sigpipe ∷ answers) = false
all_taken (SendAnswer.taken zero ∷ answers) = false
all_taken (SendAnswer.taken (suc n) ∷ answers) = all_taken answers

-- It returns 0.
abbrev pub is_zero : SendResult → Bool
is_zero SendResult.all_sent = true
is_zero _ = false

send_loop-prefix :
    (bytes : Bytes) (answers : Outgoing)
    → let (r, sent, _) = send_loop bytes answers in
      (unsent : Bytes) × (sent ++ unsent ≡ bytes) × ((if is_zero r then unsent else []) ≡ [])
unfolding send_loop
send_loop-prefix [] answers = ([], refl, refl)
send_loop-prefix (b ∷ bs) [] = ([], append-nil (b ∷ bs), refl)
send_loop-prefix (b ∷ bs) (SendAnswer.failed ∷ answers) = (b ∷ bs, refl, refl)
send_loop-prefix (b ∷ bs) (SendAnswer.sigpipe ∷ answers) = (b ∷ bs, refl, refl)
send_loop-prefix (b ∷ bs) (SendAnswer.taken zero ∷ answers) = (b ∷ bs, refl, refl)
send_loop-prefix (b ∷ bs) (SendAnswer.taken (suc n) ∷ answers) =
    let (unsent, e, all) = send_loop-prefix (drop n bs) answers in
    (
      unsent,
      ap (λ t. b ∷ t)
          (append_assoc (take n bs) (send_loop (drop n bs) answers).1 unsent
            ∙ ap (λ t. take n bs ++ t) e
            ∙ take-append-drop n bs),
      all,
    )

send_loop-all :
    (bytes : Bytes) (answers : Outgoing)
    → all_taken answers ≡ true
    → (send_loop bytes answers).0 ≡ SendResult.all_sent
unfolding send_loop
send_loop-all [] answers h = refl
send_loop-all (b ∷ bs) [] h = refl
send_loop-all (b ∷ bs) (SendAnswer.failed ∷ answers) h = absurd cc
send_loop-all (b ∷ bs) (SendAnswer.sigpipe ∷ answers) h = absurd cc
send_loop-all (b ∷ bs) (SendAnswer.taken zero ∷ answers) h = absurd cc
send_loop-all (b ∷ bs) (SendAnswer.taken (suc n) ∷ answers) h = send_loop-all (drop n bs) answers h

pub client_net_send_all-all :
    (fd : ℕ) (buf : Bytes) (len : ℕ) (answers : Outgoing)
    → len ≤ length buf
    → all_taken answers ≡ true
    → (client_net_send_all (some fd) (some buf) len answers).0 ≡ SendResult.all_sent
unfolding client_net_send_all
client_net_send_all-all fd buf len answers fits h =
    rw (le→leb len (length buf) fits) (send_loop-all (take len buf) answers h)

-- Whatever `send` answers, the bytes that `client_net_send_all` sends are the front of the first `len`
-- bytes of the buffer, all of them if it returns 0; and it returns 0 if the buffer has `len` bytes and no
-- call fails or takes nothing.
pub client_net_send_all-front :
    (fd : ℕ) (buf : Bytes) (len : ℕ) (answers : Outgoing)
    → let (r, sent, _) = client_net_send_all (some fd) (some buf) len answers in
      ((unsent : Bytes) × (sent ++ unsent ≡ take len buf)
        × ((if is_zero r then unsent else []) ≡ []))
      × ((if leb len (length buf) && all_taken answers then is_zero r else true) ≡ true)
unfolding client_net_send_all
client_net_send_all-front fd buf len answers = elim (Bool-cases (leb len (length buf))) [
  | inr outside ↦ rw outside ((take len buf, refl, refl), refl)
  | inl fits ↦ rw fits (
    send_loop-prefix (take len buf) answers,
    elim (Bool-cases (all_taken answers)) [
      | inl h ↦ rw h (ap is_zero (send_loop-all (take len buf) answers h))
      | inr h ↦ rw h
    ],
  )
]

-- SIGPIPE does not come.
abbrev pub no_sigpipe : Outgoing → Bool
no_sigpipe [] = true
no_sigpipe (SendAnswer.failed ∷ answers) = no_sigpipe answers
no_sigpipe (SendAnswer.sigpipe ∷ answers) = false
no_sigpipe (SendAnswer.taken n ∷ answers) = no_sigpipe answers

-- The call returns.
abbrev pub Returns : SendResult → Type 0
Returns SendResult.all_sent = Unit
Returns SendResult.send_failed = Unit
Returns SendResult.killed = ⊥
Returns SendResult.read_outside = ⊥

send_loop-Returns :
    (bytes : Bytes) (answers : Outgoing)
    → no_sigpipe answers ≡ true
    → let (r, _, later) = send_loop bytes answers in Returns r × (no_sigpipe later ≡ true)
unfolding send_loop
send_loop-Returns [] answers h = (tt, h)
send_loop-Returns (b ∷ bs) [] h = (tt, h)
send_loop-Returns (b ∷ bs) (SendAnswer.failed ∷ answers) h = (tt, h)
send_loop-Returns (b ∷ bs) (SendAnswer.sigpipe ∷ answers) h = absurd cc
send_loop-Returns (b ∷ bs) (SendAnswer.taken zero ∷ answers) h = (tt, h)
send_loop-Returns (b ∷ bs) (SendAnswer.taken (suc n) ∷ answers) h =
    send_loop-Returns (drop n bs) answers h

pub client_net_send_all-Returns :
    (fd : ℕ) (buf : Bytes) (len : ℕ) (answers : Outgoing)
    → len ≤ length buf
    → no_sigpipe answers ≡ true
    → let (r, _, later) = client_net_send_all (some fd) (some buf) len answers in
      Returns r × (no_sigpipe later ≡ true)
unfolding client_net_send_all
client_net_send_all-Returns fd buf len answers fits h =
    rw (le→leb len (length buf) fits) (send_loop-Returns (take len buf) answers h)
