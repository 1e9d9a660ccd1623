-- ===== src/ChatWindow/Close.antt =====
-- The ends of the mains of client/chat_sender.c and client/chat_receiver.c: no socket stays open.
use chat_project.Prelude.{
  ℕ, zero, suc, ◌<◌, ◌≡◌, ◌≢◌, refl, ◌∙◌, ap, Bool, true, Option, some, List, [], ◌∷◌, ◌++◌, ◌==◌,
  length, arith, Bool-cases, Option-cases, inl, inr, if◌then◌else◌,
}
use chat_project.Memory.{Bytes, fault, c_str}
use chat_project.Ui.{take_line}
use chat_project.Memory.Reads.{Run-cases}
use chat_project.Ui.Ends.{length-take_line_lt}
use chat_project.ChatWindow.{
  ℤ, pos, negsuc, Call, Args, SenderOs, lan_ip, hand_over, read_args, payload, sender_loop, sends,
  send_from, sender_main,
}

abbrev erase : ℕ → List ℕ → List ℕ
erase fd [] = []
erase fd (g ∷ fds) = if g == fd then fds else g ∷ erase fd fds

-- The sockets that are open after the calls.
abbrev pub left_open : List ℕ → List Call → List ℕ
left_open fds [] = fds
left_open fds (Call.socket fd ∷ calls) = left_open (fd ∷ fds) calls
left_open fds (Call.close fd ∷ calls) = left_open (erase fd fds) calls
left_open fds (Call.set_multicast_ttl fd ttl ∷ calls) = left_open fds calls
left_open fds (Call.set_multicast_if fd addr ∷ calls) = left_open fds calls
left_open fds (Call.set_reuseaddr fd ∷ calls) = left_open fds calls
left_open fds (Call.bind fd addr port ∷ calls) = left_open fds calls
left_open fds (Call.add_membership fd addr ∷ calls) = left_open fds calls
left_open fds (Call.drop_membership fd addr ∷ calls) = left_open fds calls
left_open fds (Call.msgsnd msqid mtype pid ∷ calls) = left_open fds calls
left_open fds (Call.sendto fd payload addr port ∷ calls) = left_open fds calls

left_open-append :
    (fds : List ℕ) (xs ys : List Call) → left_open fds (xs ++ ys) ≡ left_open (left_open fds xs) ys
left_open-append fds [] ys = refl
left_open-append fds (Call.socket fd ∷ xs) ys = left_open-append (fd ∷ fds) xs ys
left_open-append fds (Call.close fd ∷ xs) ys = left_open-append (erase fd fds) xs ys
left_open-append fds (Call.set_multicast_ttl fd ttl ∷ xs) ys = left_open-append fds xs ys
left_open-append fds (Call.set_multicast_if fd addr ∷ xs) ys = left_open-append fds xs ys
left_open-append fds (Call.set_reuseaddr fd ∷ xs) ys = left_open-append fds xs ys
left_open-append fds (Call.bind fd addr port ∷ xs) ys = left_open-append fds xs ys
left_open-append fds (Call.add_membership fd addr ∷ xs) ys = left_open-append fds xs ys
left_open-append fds (Call.drop_membership fd addr ∷ xs) ys = left_open-append fds xs ys
left_open-append fds (Call.msgsnd msqid mtype pid ∷ xs) ys = left_open-append fds xs ys
left_open-append fds (Call.sendto fd payload addr port ∷ xs) ys = left_open-append fds xs ys

erase_self : (fd : ℕ) (fds : List ℕ) → erase fd (fd ∷ fds) ≡ fds
erase_self fd fds = let same : (fd == fd) ≡ true = ground arith in rw same

left_open-sends :
    (fds : List ℕ) (fd addr port : ℕ) (ps : List Bytes)
    → left_open fds (sends fd addr port ps) ≡ fds
left_open-sends fds fd addr port [] = refl
left_open-sends fds fd addr port (p ∷ ps) = left_open-sends fds fd addr port ps

left_open-hand_over :
    (fds : List ℕ) (msqid : ℤ) (mtype pid : ℕ) → left_open fds (hand_over msqid mtype pid) ≡ fds
unfolding hand_over
left_open-hand_over fds (pos n) mtype pid = refl
left_open-hand_over fds (negsuc n) mtype pid = refl

left_open-lan_ip : (fds : List ℕ) (os : SenderOs) → left_open fds (lan_ip os).1 ≡ fds
unfolding lan_ip
left_open-lan_ip fds os = elim (Option-cases os.probe) [
  | inl failed ↦ rw failed
  | inr (tmp, got) ↦ rw got (erase_self tmp fds)
]

-- The loop ends, whatever `sendto` answers.
sender_loop_ends :
    (fuel : ℕ) (sendto_ok : ℕ → Bool) (k : ℕ) (username : Option Bytes) (input : Bytes)
    → length input < fuel
    → (ps : List Bytes) × (sender_loop fuel sendto_ok k username input ≡ some ps)
unfolding sender_loop
sender_loop_ends zero sendto_ok k username input enough = absurd (omega arith)
sender_loop_ends (suc fuel) sendto_ok k username [] enough = ([], refl)
sender_loop_ends (suc fuel) sendto_ok k username (c ∷ input) enough =
    let (line, rest) = take_line 1023 (c ∷ input) in
    let (ps, run) =
      sender_loop_ends fuel sendto_ok (suc k) username rest
        (omega (arith, length-take_line_lt 1023 c input (omega arith), enough)) in
    elim (Bool-cases (sendto_ok k)) [
      | inl good ↦ (payload username (c_str line) ∷ ps, rw (good, run))
      | inr bad ↦ (payload username (c_str line) ∷ [], rw bad)
    ]

-- A run that ends, with every socket closed.
abbrev pub EndsClosed : Option (ℕ × List Call) → Type 0
EndsClosed run = (r : ℕ × List Call) × (run ≡ some r) × (left_open [] r.1 ≡ [])

-- The calls between the first and the last leave the socket as it is.
closed :
    {run : Option (ℕ × List Call)} (status fd : ℕ) (calls : List Call)
    → run ≡ some (status, Call.socket fd ∷ calls ++ Call.close fd ∷ [])
    → left_open (fd ∷ []) calls ≡ fd ∷ []
    → EndsClosed run
closed status fd calls run kept = (
  (status, Call.socket fd ∷ calls ++ Call.close fd ∷ []),
  run,
  left_open-append (fd ∷ []) calls (Call.close fd ∷ []) ∙ ap (erase fd) kept ∙ erase_self fd [],
)

send_from-EndsClosed :
    (fuel : ℕ) (os : SenderOs) (fd : ℕ) (a : Args) (input : Bytes)
    → length input < fuel
    → EndsClosed (send_from fuel os fd a input)
unfolding send_from lan_ip
send_from-EndsClosed fuel os fd a input enough =
    let fds = fd ∷ [] in
    let (ps, run) = sender_loop_ends fuel os.sendto_ok 0 a.text input enough in
    let set_ttl = Call.set_multicast_ttl fd 1 in
    let route = (lan_ip os).1 ++ Call.set_multicast_if fd (lan_ip os).0 ∷ [] in
    let routed : left_open fds route ≡ fds =
      left_open-append fds (lan_ip os).1 (Call.set_multicast_if fd (lan_ip os).0 ∷ [])
      ∙ left_open-lan_ip fds os in
    elim (Bool-cases os.ttl_ok) [
      | inr bad ↦ closed 1 fd (set_ttl ∷ []) (rw bad) refl
      | inl good ↦ elim (Bool-cases os.iface_ok) [
        | inr bad ↦ closed 1 fd (set_ttl ∷ route) (rw (good, bad)) routed
        | inl good' ↦ elim (Option-cases (os.inet_pton a.mcast_ip)) [
          | inl bad ↦ closed 1 fd (set_ttl ∷ route) (rw (good, good', bad)) routed
          | inr (dst, parsed) ↦
              let hand = hand_over a.msqid 1 os.pid in
              let sent = hand ++ sends fd dst a.port ps in
              closed 0 fd (set_ttl ∷ route ++ sent) (rw (good, good', parsed, run)) (
                left_open-append fds route sent
                ∙ ap (λ o. left_open o sent) routed
                ∙ left_open-append fds hand (sends fd dst a.port ps)
                ∙ ap (λ o. left_open o (sends fd dst a.port ps))
                    (left_open-hand_over fds a.msqid 1 os.pid)
                ∙ left_open-sends fds fd dst a.port ps)
        ]
      ]
    ]

-- Unless `atoi` is undefined on the command line, and with more fuel than bytes of input, the sender's
-- main ends, whatever the operating system answers, and every socket it has opened is closed, the one
-- that finds the local address included.
pub sender_main-EndsClosed :
    (fuel : ℕ) (os : SenderOs) (argv : List Bytes) (input : Bytes)
    → read_args argv ≢ fault
    → length input < fuel
    → EndsClosed (sender_main fuel os argv input)
unfolding sender_main
sender_main-EndsClosed fuel os argv input defined enough = elim (Run-cases (read_args argv)) [
  | inl undefined ↦ absurd (defined undefined)
  | inr (inl usage) ↦ ((1, []), rw (usage, sender_main) refl, refl)
  | inr (inr (a, parsed)) ↦ elim (Option-cases os.socket) [
    | inl failed ↦ ((1, []), rw (parsed, failed, sender_main) refl, refl)
    | inr (fd, got) ↦ rw (parsed, got, sender_main) (send_from-EndsClosed fuel os fd a input enough)
  ]
]
