-- ===== src/Net/Process.antt =====
-- `ProcessBuffer` delivers exactly the whole messages at the front of the buffer, in order.
use chat_project.Prelude.{
  ℕ, zero, suc, ◌+◌, ◌-◌, ◌≤◌, ◌<◌, ◌≡◌, refl, ap, ap₂, sym, ◌∙◌, inl, inr, false, Option, some,
  List, [], ◌∷◌, ◌++◌, arith, ltb, length, length-append, length-take, length-drop, take, drop,
  take-append-drop, take-append, take-take, Bool-cases,
}
use mathlib.Core.Path.{subst}
use chat_project.Memory.{Bytes, Run, ok, reject, load}
use chat_project.Protocol.{chat_peek_header}
use chat_project.Protocol.Decode.{chat_peek_header-Agrees}
use chat_project.Net.{ClientState, OnMessageFn, consume, process_buffer}
use chat_project.Net.Frames.{IsPartial, Framed, partial, whole}

-- The bytes of a client that are not parsed yet.
abbrev pub pending : ClientState → Bytes
pending c = take c.len c.buffer

-- The header at the front of some bytes.
abbrev header_of : Bytes → Run (ℕ × ℕ)
header_of [] = reject
header_of (t ∷ []) = reject
header_of (t ∷ l ∷ p) = ok (t, l)

header_of-peek : (w : Bytes) (n : ℕ) → n ≡ length w → chat_peek_header (some w) n ≡ header_of w
unfolding chat_peek_header load
header_of-peek [] n e = rw e
header_of-peek (t ∷ []) n e = rw e
header_of-peek (t ∷ l ∷ p) n e = ground arith

peek-pending :
    (c : ClientState)
    → c.len ≤ length c.buffer
    → chat_peek_header (some c.buffer) c.len ≡ header_of (pending c)
peek-pending c h =
    sym ((chat_peek_header-Agrees c.buffer c.len h).0)
    ∙ header_of-peek (pending c) c.len (omega (arith, length-take c.len c.buffer))

drop-take : (i n : ℕ) (xs : Bytes) → drop i (take n xs) ≡ take (n - i) (drop i xs)
drop-take zero n xs = ap (λ k. take k xs) (let e : n ≡ n - zero = omega arith in e)
drop-take (suc i) zero xs =
    ap (λ k. take k (drop (suc i) xs)) (let e : 0 ≡ 0 - suc i = omega arith in e)
drop-take (suc i) (suc n) [] = nothing (suc n - suc i)
  where
    nothing : (k : ℕ) → ◌≡◌ {A = Bytes} [] (take k [])
    nothing zero = refl
    nothing (suc k) = refl
drop-take (suc i) (suc n) (x ∷ xs) =
    drop-take i n xs
    ∙ ap (λ k. take k (drop i xs)) (let e : n - i ≡ suc n - suc i = omega arith in e)

pending-consume :
    (c : ClientState) (total : ℕ)
    → c.len ≤ length c.buffer
    → total ≤ c.len
    → (pending (consume c total) ≡ drop total (pending c))
      × ((consume c total).len ≡ c.len - total)
      × (length (consume c total).buffer ≡ length c.buffer)
      × ((consume c total).fd ≡ c.fd)
unfolding consume
pending-consume c total h k =
    let len = c.len - total in
    let front = take len (drop total c.buffer) in
    let front_length : len ≡ length front =
      omega (arith, length-take len (drop total c.buffer), length-drop total c.buffer) in
    elim (Bool-cases (ltb 0 len)) [
      | inl more ↦ rw more (
        take-append front (drop len c.buffer) len front_length
            ∙ sym (drop-take total c.len c.buffer),
        refl,
        omega (arith, length-append front (drop len c.buffer), length-drop len c.buffer),
        refl,
      )
      | inr done ↦
          let gone : len ≡ 0 = ground (arith, done) in
          rw done (
            ap (λ n. take n c.buffer) gone
                ∙ sym
                    (drop-take total c.len c.buffer ∙ ap (λ n. take n (drop total c.buffer)) gone),
            refl,
            refl,
            refl,
          )
    ]

-- The callback looks at no more of the buffer than the length that it is given.
abbrev pub IsLocal {ℓ} : {S : Type ℓ} → OnMessageFn S → Type ℓ
IsLocal {S} on_msg =
    (fd : Option ℕ) (buf : Bytes) (n : ℕ) (s : S)
    → n ≤ length buf
    → on_msg fd buf n s ≡ on_msg fd (take n buf) n s

module _ {ℓ} {S : Type ℓ} (on_msg : OnMessageFn S) where
  -- The callback run over a sequence of messages.
  abbrev pub deliver_all : Option ℕ → List Bytes → S → S
  deliver_all fd [] s = s
  deliver_all fd (m ∷ ms) s = deliver_all fd ms (on_msg fd m (length m) s)

  -- What a run of `ProcessBuffer` has done.
  pub record Processed (c : ClientState) (s : S) (c' : ClientState) (s' : S) : Type ℓ where
    pub messages : List Bytes
    pub framed : Framed messages (pending c) (pending c')
    pub effect : s' ≡ deliver_all c.fd messages s
    pub in_buffer : c'.len ≤ length c'.buffer
    pub same_size : length c'.buffer ≡ length c.buffer
    pub same_fd : c'.fd ≡ c.fd

  stopped :
      (c : ClientState) (s : S)
      → c.len ≤ length c.buffer
      → IsPartial (pending c)
      → Processed c s c s
  stopped c s h p = record {
    messages = [];
    framed = partial p;
    effect = refl;
    in_buffer = h;
    same_size = refl;
    same_fd = refl;
  }

  delivered :
      IsLocal on_msg
      → (c : ClientState) (s : S) (t l : ℕ) (p : Bytes) → pending c ≡ t ∷ l ∷ p
      → c.len ≤ length c.buffer
      → 2 + l ≤ c.len
      → (c' : ClientState) (s' : S)
      → Processed (consume c (2 + l)) (on_msg c.fd c.buffer (2 + l) s) c' s'
      → Processed c s c' s'
  delivered local c s t l p e h k c' s' r =
      let (rest, len, size, fd) = pending-consume c (2 + l) h k in
      let m = t ∷ l ∷ take l p in
      let frame : length (take l p) ≡ l =
        omega (arith, ap length e, length-take c.len c.buffer, length-take l p) in
      let two : 2 + l ≡ suc (suc l) = omega arith in
      let left : pending (consume c (2 + l)) ≡ drop l p =
        rest ∙ ap (drop (2 + l)) e ∙ ap (λ n. drop n (t ∷ l ∷ p)) two in
      let front : take (2 + l) c.buffer ≡ m =
        sym (take-take (2 + l) c.len c.buffer k)
        ∙ ap (take (2 + l)) e
        ∙ ap (λ n. take n (t ∷ l ∷ p)) two in
      let seen : on_msg c.fd c.buffer (2 + l) s ≡ on_msg c.fd m (length m) s =
        local c.fd c.buffer (2 + l) s (omega arith)
        ∙ ap₂ (λ b n. on_msg c.fd b n s) front (two ∙ ap (λ n. suc (suc n)) (sym frame)) in
      record {
        messages = m ∷ r.messages;
        framed =
            whole frame
              (e
                ∙ ap (λ z. t ∷ l ∷ z)
                    (sym (take-append-drop l p) ∙ ap (λ z. take l p ++ z) (sym left)))
              r.framed;
        effect = r.effect ∙ ap₂ (λ fd' z. deliver_all fd' r.messages z) fd seen;
        in_buffer = r.in_buffer;
        same_size = r.same_size ∙ size;
        same_fd = r.same_fd ∙ fd;
      }

  abbrev Runs : ℕ → ClientState → S → Type ℓ
  Runs fuel c s =
      (r : ClientState × S) × (process_buffer fuel (some on_msg) c s ≡ some r)
      × Processed c s r.0 r.1

  round_step :
      (fuel : ℕ) (c : ClientState) (s : S) (header : ℕ × ℕ)
      → chat_peek_header (some c.buffer) c.len ≡ ok header
      → ltb c.len (2 + header.1) ≡ false
      → process_buffer (suc fuel) (some on_msg) c s
        ≡ process_buffer fuel
            (some on_msg)
            (consume c (2 + header.1))
            (on_msg c.fd c.buffer (2 + header.1) s)
  unfolding process_buffer
  round_step fuel c s header e long = rw (e, long, process_buffer)

  one_round :
      IsLocal on_msg
      → (fuel : ℕ) (c : ClientState) (s : S) → c.len ≤ length c.buffer
      → ((l : ℕ) → 2 + l ≤ c.len → Runs fuel (consume c (2 + l)) (on_msg c.fd c.buffer (2 + l) s))
      → (w : Bytes) → pending c ≡ w
      → Runs (suc fuel) c s
  unfolding process_buffer
  one_round local fuel c s h rec [] e = (
    (c, s),
    rw (peek-pending c h ∙ ap header_of e, process_buffer),
    stopped c s h (subst IsPartial (sym e) tt),
  )
  one_round local fuel c s h rec (t ∷ []) e = (
    (c, s),
    rw (peek-pending c h ∙ ap header_of e, process_buffer),
    stopped c s h (subst IsPartial (sym e) tt),
  )
  one_round local fuel c s h rec (t ∷ l ∷ p) e =
      let size : c.len ≡ 2 + length p = omega (arith, ap length e, length-take c.len c.buffer) in
      elim (Bool-cases (ltb c.len (2 + l))) [
        | inl short ↦
            let few : length p < l = ground (arith, short, size) in
            (
              (c, s),
              rw (peek-pending c h ∙ ap header_of e, short, process_buffer),
              stopped c s h (subst IsPartial (sym e) few),
            )
        | inr long ↦
            let all : 2 + l ≤ c.len = ground (arith, long) in
            let (r, run, done) = rec l all in
            (
              r,
              round_step fuel c s (t, l) (peek-pending c h ∙ ap header_of e) long ∙ run,
              delivered local c s t l p e h all r.0 r.1 done,
            )
      ]

  -- With more fuel than unparsed bytes, which lie in the buffer, and a callback that looks at its
  -- message only, `ProcessBuffer` ends without leaving the buffer, after it has delivered the whole
  -- messages in front, in order; an incomplete message is left.
  pub process_buffer-Processed :
      IsLocal on_msg
      → (fuel : ℕ) (c : ClientState) (s : S) → c.len ≤ length c.buffer
      → c.len < fuel
      → (r : ClientState × S) × (process_buffer fuel (some on_msg) c s ≡ some r)
        × Processed c s r.0 r.1
  process_buffer-Processed local zero c s h enough = absurd (omega arith)
  process_buffer-Processed local (suc fuel) c s h enough =
      one_round local fuel c s h
        (λ l all.
          let (rest, len, size, fd) = pending-consume c (2 + l) h all in
          process_buffer-Processed local fuel (consume c (2 + l)) (on_msg c.fd c.buffer (2 + l) s)
            (omega arith) (omega arith))
        (pending c) refl
