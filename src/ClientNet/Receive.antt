-- ===== src/ClientNet/Receive.antt =====
-- `client_net_recv_msg` of client/client_net.c against the stream of bytes.
use chat_project.Prelude.{
  ℕ, zero, suc, ◌+◌, ◌-◌, ◌≤◌, ◌<◌, ◌≡◌, refl, sym, ◌∙◌, false, Option, none, some, [], ◌∷◌, ◌++◌,
  ap, ltb, leb, length, get_or, take, drop, length-take, length-append, take-append_le,
  drop-append_le, if◌then◌else◌, Bool-cases, inl, inr, arith, ltb→lt, ne→eqb,
}
use chat_project.Memory.{Bytes, Run, ok, reject, load}
use chat_project.Memory.Windows.{written, copy_in-written}
use chat_project.Protocol.{chat_max_msg_size, chat_peek_header}
use chat_project.ClientNet.{
  Incoming, prepend, recv_exact, recv_payload, put_header, client_net_recv_msg,
}

-- The stream of bytes, up to the first error or end of the connection.
abbrev pub stream : Incoming → Bytes
stream [] = []
stream (none ∷ incoming) = []
stream (some [] ∷ incoming) = []
stream (some (b ∷ bs) ∷ incoming) = b ∷ bs ++ stream incoming

-- The reference: a whole frame in front of a stream, and what follows it.
abbrev pub read_frame : Bytes → Option (Bytes × Bytes)
read_frame [] = none
read_frame (t ∷ []) = none
read_frame (t ∷ l ∷ rest) =
    if leb l (length rest) then some (t ∷ l ∷ take l rest, drop l rest) else none

take-append_ge :
    (n : ℕ) (xs ys : Bytes) → length xs ≤ n → take n (xs ++ ys) ≡ xs ++ take (n - length xs) ys
take-append_ge n [] ys h = ap (λ m. take m ys) (omega arith)
take-append_ge zero (x ∷ xs) ys h = absurd (omega arith)
take-append_ge (suc n) (x ∷ xs) ys h =
    ap (λ t. x ∷ t)
      (take-append_ge n xs ys (omega arith)
        ∙ ap (λ m. xs ++ take m ys)
            (let e : n - length xs ≡ suc n - suc (length xs) = omega arith in e))

drop-append_ge :
    (n : ℕ) (xs ys : Bytes) → length xs ≤ n → drop n (xs ++ ys) ≡ drop (n - length xs) ys
drop-append_ge n [] ys h = ap (λ m. drop m ys) (omega arith)
drop-append_ge zero (x ∷ xs) ys h = absurd (omega arith)
drop-append_ge (suc n) (x ∷ xs) ys h =
    drop-append_ge n xs ys (omega arith)
    ∙ ap (λ m. drop m ys) (let e : n - length xs ≡ suc n - suc (length xs) = omega arith in e)

-- What is left of a piece stays in front of the stream.
stream-drop :
    (n : ℕ) (bs : Bytes) (incoming : Incoming)
    → n < length bs
    → stream (some (drop n bs) ∷ incoming) ≡ drop n bs ++ stream incoming
stream-drop n [] incoming h = absurd (omega arith)
stream-drop zero (b ∷ bs) incoming h = refl
stream-drop (suc n) (b ∷ bs) incoming h = stream-drop n bs incoming (omega arith)

recv_exact-stream :
    (n : ℕ) (incoming : Incoming)
    → n ≤ length (stream incoming)
    → ((recv_exact n incoming).0 ≡ some (take n (stream incoming)))
      × (stream (recv_exact n incoming).1 ≡ drop n (stream incoming))
unfolding recv_exact
recv_exact-stream zero incoming h = (refl, refl)
recv_exact-stream (suc n) [] h = absurd (omega arith)
recv_exact-stream (suc n) (none ∷ incoming) h = absurd (omega arith)
recv_exact-stream (suc n) (some [] ∷ incoming) h = absurd (omega arith)
recv_exact-stream (suc n) (some (b ∷ bs) ∷ incoming) h = elim (Bool-cases (ltb n (length bs))) [
  | inl long ↦
      let lt : n < length bs = ltb→lt n (length bs) long in
      rw long (
        ap (λ t. some (b ∷ t)) (sym (take-append_le n bs (stream incoming) (omega arith))),
        stream-drop n bs incoming lt ∙ sym (drop-append_le n bs (stream incoming) (omega arith)),
      )
  | inr short ↦
      let ge : length bs ≤ n = ground (arith, short) in
      let (got, left) =
        recv_exact-stream (n - length bs) incoming
          (omega (arith, length-append bs (stream incoming))) in
      rw short (
        ap (prepend (b ∷ bs)) got
            ∙ ap (λ t. some (b ∷ t)) (sym (take-append_ge n bs (stream incoming) ge)),
        left ∙ sym (drop-append_ge n bs (stream incoming) ge),
      )
]

recv_exact-short :
    (n : ℕ) (incoming : Incoming) → length (stream incoming) < n → (recv_exact n incoming).0 ≡ none
unfolding recv_exact
recv_exact-short zero incoming h = absurd (omega arith)
recv_exact-short (suc n) [] h = refl
recv_exact-short (suc n) (none ∷ incoming) h = refl
recv_exact-short (suc n) (some [] ∷ incoming) h = refl
recv_exact-short (suc n) (some (b ∷ bs) ∷ incoming) h =
    let short : ltb n (length bs) ≡ false = ground (arith, length-append bs (stream incoming)) in
    rw short (
      ap (prepend (b ∷ bs)) (
        recv_exact-short (n - length bs) incoming
          (omega (arith, length-append bs (stream incoming)))))

-- The header in the buffer.
put_header-written :
    (buf : Bytes) (t l : ℕ)
    → chat_max_msg_size ≤ length buf
    → put_header buf (t ∷ l ∷ []) ≡ ok (written (t ∷ l ∷ []) buf, l)
unfolding chat_peek_header load
put_header-written buf t l h = rw (copy_in-written [] buf 0 (t ∷ l ∷ []) refl (omega arith))

recv_payload-stream :
    (buf : Bytes) (t l : ℕ) (incoming : Incoming)
    → chat_max_msg_size ≤ length buf
    → l < 256
    → l ≤ length (stream incoming)
    → ((recv_payload (written (t ∷ l ∷ []) buf) l incoming).0
        ≡ ok (2 + l, written (t ∷ l ∷ take l (stream incoming)) buf))
      × (stream (recv_payload (written (t ∷ l ∷ []) buf) l incoming).1 ≡ drop l (stream incoming))
unfolding recv_payload
recv_payload-stream buf t zero incoming h small enough = (refl, refl)
recv_payload-stream buf t (suc l) incoming h small enough =
    let (got, left) = recv_exact-stream (suc l) incoming enough in
    let whole : length (take (suc l) (stream incoming)) ≡ suc l =
      omega (arith, length-take (suc l) (stream incoming)) in
    rw (got, ne→eqb (suc l) 0 (omega arith))
      (
        rw (
            copy_in-written (t ∷ suc l ∷ []) buf 2 (take (suc l) (stream incoming)) refl
              (omega arith)),
        left,
      )

recv_payload-short :
    (buf : Bytes) (l : ℕ) (incoming : Incoming)
    → length (stream incoming) < l
    → (recv_payload buf l incoming).0 ≡ reject
unfolding recv_payload
recv_payload-short buf zero incoming h = absurd (omega arith)
recv_payload-short buf (suc l) incoming h =
    rw (recv_exact-short (suc l) incoming h, ne→eqb (suc l) 0 (omega arith))

-- What a call of `client_net_recv_msg` that has returned `r` has done with a stream whose frame in
-- front is `framed`: the frame stands in the buffer, its length is known, and the rest of the stream
-- is still to come; without a whole frame the call has returned -1.
abbrev pub Receives : Option (Bytes × Bytes) → Bytes → Run (ℕ × Bytes) × Incoming → Type 0
Receives none buf r = r.0 ≡ reject
Receives (some (message, rest)) buf r =
    (r.0 ≡ ok (length message, written message buf)) × (stream r.1 ≡ rest)

receives :
    (s : Bytes) (fd : ℕ) (buf : Bytes) (incoming : Incoming)
    → chat_max_msg_size ≤ length buf
    → ((i : ℕ) → get_or (stream incoming) i 0 < 256)
    → stream incoming ≡ s
    → Receives (read_frame s) buf (client_net_recv_msg (some fd) (some buf) incoming)
unfolding client_net_recv_msg
receives [] fd buf incoming h small e =
    rw (recv_exact-short 2 incoming (omega (arith, ap length e)), client_net_recv_msg)
receives (t ∷ []) fd buf incoming h small e =
    rw (recv_exact-short 2 incoming (omega (arith, ap length e)), client_net_recv_msg)
receives (t ∷ l ∷ rest) fd buf incoming h small e =
    let (got, left) = recv_exact-stream 2 incoming (omega (arith, ap length e)) in
    let header = got ∙ ap (λ b. some (take 2 b)) e in
    let behind = left ∙ ap (drop 2) e in
    let l_small : l < 256 = ground (arith, small 1, ap (λ b. get_or b 1 0) e) in
    let following = (recv_exact 2 incoming).1 in
    rw (header, put_header-written buf t l h, client_net_recv_msg)
      (elim (Bool-cases (leb l (length rest))) [
        | inl whole ↦
            let fits : l ≤ length (stream following) = ground (arith, whole, ap length behind) in
            let (run, later) = recv_payload-stream buf t l following h l_small fits in
            let count : 2 + l ≡ length (t ∷ l ∷ take l rest) =
              ground (arith, whole, length-take l rest) in
            rw whole (
              run
                  ∙ ap (λ b. ok (2 + l, written (t ∷ l ∷ take l b) buf)) behind
                  ∙ ap (λ n. ok (n, written (t ∷ l ∷ take l rest) buf)) count,
              later ∙ ap (drop l) behind,
            )
        | inr short ↦ rw short (
            recv_payload-short (written (t ∷ l ∷ []) buf) l following
              (ground (arith, short, ap length behind)))
      ])

-- However the bytes of a stream are cut into pieces, `client_net_recv_msg` takes one whole frame off its
-- front into a buffer of at least 257 bytes, as the reference does, and leaves the rest; if an error or
-- the end of the connection comes before the frame is whole, it returns -1.
pub client_net_recv_msg-read_frame :
    (fd : ℕ) (buf : Bytes) (incoming : Incoming)
    → chat_max_msg_size ≤ length buf
    → ((i : ℕ) → get_or (stream incoming) i 0 < 256)
    → Receives
        (read_frame (stream incoming))
        buf
        (client_net_recv_msg (some fd) (some buf) incoming)
client_net_recv_msg-read_frame fd buf incoming h small =
    receives (stream incoming) fd buf incoming h small refl
