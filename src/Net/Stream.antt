-- ===== src/Net/Stream.antt =====
-- What a client sends reaches the callback as its whole messages, however recv cuts the stream up.
use chat_project.Prelude.{
  ℕ, suc, ◌+◌, ◌-◌, ◌≤◌, ◌<◌, ◌≡◌, refl, ap, ap₂, sym, ◌∙◌, Option, none, some, List, [], ◌∷◌, ◌++◌,
  append_assoc, append-nil, arith, length, length-append, length-take, length-drop, take, drop,
  take-append, ne→eqb,
}
use mathlib.Core.Path.{subst}
use chat_project.Memory.{Bytes}
use chat_project.Net.{
  ClientState, OnMessageFn, OnDisconnectFn, FdSet, recv_buffer_size, handle_client_data,
}
use chat_project.Net.Frames.{
  IsPartial, Framed, Framed-append, Framed-unique, Framed-IsPartial, partial,
}
use chat_project.Net.Process.{pending, IsLocal, deliver_all, process_buffer-Processed}

-- All entries are bytes.
abbrev pub AreBytes : Bytes → Type 0
AreBytes [] = Unit
AreBytes (b ∷ bs) = (b < 256) × AreBytes bs

AreBytes-append : (a b : Bytes) → AreBytes a → AreBytes b → AreBytes (a ++ b)
AreBytes-append [] b h k = k
AreBytes-append (x ∷ a) b h k = (h.0, AreBytes-append a b h.1 k)

AreBytes-drop : (a b : Bytes) → AreBytes (a ++ b) → AreBytes b
AreBytes-drop [] b h = h
AreBytes-drop (x ∷ a) b h = AreBytes-drop a b h.1

-- An incomplete message is shorter than the longest message.
partial-lt : (r : Bytes) → AreBytes r → IsPartial r → length r < 257
partial-lt [] h p = omega arith
partial-lt (t ∷ []) h p = omega arith
partial-lt (t ∷ l ∷ payload) h p = omega arith

Framed-AreBytes :
    {ms : List Bytes} {all rest : Bytes} → Framed ms all rest → AreBytes all → AreBytes rest
Framed-AreBytes (partial p) h = h
Framed-AreBytes (Framed.whole {m = m} {stream = s} f e fr) h =
    Framed-AreBytes fr (AreBytes-drop m s (subst AreBytes e h))

-- A client between two calls of recv: its buffer has its full size, and holds an incomplete message.
pub record IsWaiting (c : ClientState) : Type 0 where
  pub sized : length c.buffer ≡ recv_buffer_size
  pub in_buffer : c.len ≤ length c.buffer
  pub incomplete : IsPartial (pending c)
  pub bytes : AreBytes (pending c)

pub pending-lt : (c : ClientState) → IsWaiting c → c.len < 257
pending-lt c w =
    omega
      (arith, partial-lt (pending c) w.bytes w.incomplete, length-take c.len c.buffer, w.in_buffer)

-- A client that waits always has room for more bytes than the longest message has, so the branch
-- for a full buffer is never taken.
pub room_left : (c : ClientState) → IsWaiting c → 514 < recv_buffer_size - c.len
room_left c w = omega (arith, pending-lt c w)

fill : ClientState → Bytes → ClientState
fill c chunk = record c {
  buffer = take c.len c.buffer ++ (chunk ++ drop (c.len + length chunk) c.buffer);
  len = c.len + length chunk;
}

fill-pending :
    (c : ClientState) (chunk : Bytes) → IsWaiting c → pending (fill c chunk) ≡ pending c ++ chunk
unfolding fill
fill-pending c chunk w =
    ap (take (c.len + length chunk))
      (sym (append_assoc (pending c) chunk (drop (c.len + length chunk) c.buffer)))
    ∙ take-append (pending c ++ chunk) (drop (c.len + length chunk) c.buffer) (c.len + length chunk)
        (omega (arith, length-append (pending c) chunk, length-take c.len c.buffer, w.in_buffer))

fill-length :
    (c : ClientState) (chunk : Bytes)
    → IsWaiting c
    → length chunk ≤ recv_buffer_size - c.len
    → length (fill c chunk).buffer ≡ recv_buffer_size
unfolding fill
fill-length c chunk w fits = omega (
  arith,
  w.sized,
  w.in_buffer,
  length-append (pending c) (chunk ++ drop (c.len + length chunk) c.buffer),
  length-append chunk (drop (c.len + length chunk) c.buffer),
  length-take c.len c.buffer,
  length-drop (c.len + length chunk) c.buffer,
  pending-lt c w,
)

-- Chunks of bytes, none longer than the room that a waiting client always has.
abbrev pub AreChunks : List Bytes → Type 0
AreChunks [] = Unit
AreChunks (chunk ∷ chunks) = AreBytes chunk × (length chunk ≤ 514) × AreChunks chunks

abbrev pub join : List Bytes → Bytes
join [] = []
join (chunk ∷ chunks) = chunk ++ join chunks

deliver_all-append {ℓ} :
    {S : Type ℓ} (on_msg : OnMessageFn S) (fd : Option ℕ) (ms ns : List Bytes) (s : S)
    → deliver_all on_msg fd (ms ++ ns) s ≡ deliver_all on_msg fd ns (deliver_all on_msg fd ms s)
deliver_all-append on_msg fd [] ns s = refl
deliver_all-append on_msg fd (m ∷ ms) ns s =
    deliver_all-append on_msg fd ms ns (on_msg fd m (length m) s)

module _ {ℓ} {S : Type ℓ} (on_msg : OnMessageFn S) (local : IsLocal on_msg) where
  -- What the arrival of `chunk` has done.
  pub record Received (c : ClientState) (s : S) (chunk : Bytes) (c' : ClientState) (s' : S)
      : Type ℓ where
    pub messages : List Bytes
    pub framed : Framed messages (pending c ++ chunk) (pending c')
    pub effect : s' ≡ deliver_all on_msg c.fd messages s
    pub waits : IsWaiting c'
    pub same_fd : c'.fd ≡ c.fd

  -- With a callback that looks at its message only, a client that waits takes in a chunk of bytes that
  -- fits its buffer: the whole messages of the old rest and the chunk are delivered in order, the set
  -- of watched sockets stays, and the client waits with the new rest.
  pub handle_client_data-Received :
      (on_disc : Option (OnDisconnectFn S)) (c : ClientState) (fds : FdSet) (s : S) (chunk : Bytes)
      → IsWaiting c
      → AreBytes chunk
      → length chunk ≤ recv_buffer_size - c.len
      → (r : ClientState × FdSet × S) × (handle_client_data
            (suc recv_buffer_size)
            (some on_msg)
            on_disc
            (some chunk)
            c
            fds
            s
          ≡ some r)
        × (r.1 ≡ fds)
        × Received c s chunk r.0 r.2
  unfolding handle_client_data fill
  handle_client_data-Received on_disc c fds s chunk w bytes fits =
      let filled = fill c chunk in
      let lt = pending-lt c w in
      let size = fill-length c chunk w fits in
      let (r, run, done) =
        process_buffer-Processed on_msg local 772 filled s (omega arith) (omega (arith, w.sized)) in
      let framed =
        subst (λ all. Framed done.messages all (pending r.0)) (fill-pending c chunk w)
          done.framed in
      (
        (r.0, fds, r.1),
        rw (ne→eqb (771 - c.len) 0 (omega arith), run),
        refl,
        record {
          messages = done.messages;
          framed = framed;
          effect = done.effect;
          waits = record {
            sized = done.same_size ∙ size;
            in_buffer = done.in_buffer;
            incomplete = Framed-IsPartial framed;
            bytes = Framed-AreBytes framed (AreBytes-append (pending c) chunk w.bytes bytes);
          };
          same_fd = done.same_fd;
        },
      )

  -- A sequence of answers of recv for one client.
  unfoldable pub receive_all :
      Option (OnDisconnectFn S)
      → List Bytes
      → ClientState
      → FdSet
      → S
      → Option (ClientState × FdSet × S)
  receive_all on_disc [] c fds s = some (c, fds, s)
  receive_all on_disc (chunk ∷ chunks) c fds s =
      elim (handle_client_data 772 (some on_msg) on_disc (some chunk) c fds s) [
        | none ↦ none
        | some r ↦ receive_all on_disc chunks r.0 r.1 r.2
      ]

  receive_step :
      (on_disc : Option (OnDisconnectFn S)) (chunk : Bytes) (chunks : List Bytes) (c : ClientState)
      (fds : FdSet) (s : S) {r : ClientState × FdSet × S}
      → handle_client_data 772 (some on_msg) on_disc (some chunk) c fds s ≡ some r
      → receive_all on_disc (chunk ∷ chunks) c fds s ≡ receive_all on_disc chunks r.0 r.1 r.2
  unfolding receive_all
  receive_step on_disc chunk chunks c fds s run = rw (run, receive_all)

  -- With a callback that looks at its message only, a client that waits takes in any sequence of chunks
  -- of at most 514 bytes, and all whole messages of their bytes are delivered in order.
  pub receive_all-Received :
      (on_disc : Option (OnDisconnectFn S)) (chunks : List Bytes) (c : ClientState) (fds : FdSet)
      (s : S)
      → IsWaiting c
      → AreChunks chunks
      → (r : ClientState × FdSet × S) × (receive_all on_disc chunks c fds s ≡ some r)
        × Received c s (join chunks) r.0 r.2
  unfolding receive_all
  receive_all-Received on_disc [] c fds s w h = (
    (c, fds, s),
    refl,
    record {
      messages = [];
      framed =
          subst (λ all. Framed [] all (pending c)) (sym (append-nil (pending c)))
            (partial w.incomplete);
      effect = refl;
      waits = w;
      same_fd = refl;
    },
  )
  receive_all-Received on_disc (chunk ∷ chunks) c fds s w h =
      let (r, run, _, got) =
        handle_client_data-Received on_disc c fds s chunk w h.0
          (omega (arith, room_left c w, h.1)) in
      let (t, run', rest) = receive_all-Received on_disc chunks r.0 r.1 r.2 got.waits h.2 in
      (
        t,
        receive_step on_disc chunk chunks c fds s run ∙ run',
        record {
          messages = got.messages ++ rest.messages;
          framed =
              subst (λ all. Framed (got.messages ++ rest.messages) all (pending t.0))
                (append_assoc (pending c) chunk (join chunks))
                (Framed-append (join chunks) got.framed rest.framed);
          effect =
              rest.effect
              ∙ ap₂ (λ fd z. deliver_all on_msg fd rest.messages z) got.same_fd got.effect
              ∙ sym (deliver_all-append on_msg c.fd got.messages rest.messages s);
          waits = rest.waits;
          same_fd = rest.same_fd ∙ got.same_fd;
        },
      )

  -- However the same bytes are cut into chunks, the callback runs over the same messages: the state
  -- and the unparsed rest come out the same.
  pub receive_all_fragmentation :
      (on_disc : Option (OnDisconnectFn S)) (chunks chunks' : List Bytes) (c : ClientState)
      (fds : FdSet) (s : S)
      → IsWaiting c
      → AreChunks chunks
      → AreChunks chunks'
      → join chunks ≡ join chunks'
      → (r r' : ClientState × FdSet × S) × (receive_all on_disc chunks c fds s ≡ some r)
        × (receive_all on_disc chunks' c fds s ≡ some r')
        × (r.2 ≡ r'.2)
        × (pending r.0 ≡ pending r'.0)
  receive_all_fragmentation on_disc chunks chunks' c fds s w h h' same =
      let (r, run, got) = receive_all-Received on_disc chunks c fds s w h in
      let (r', run', got') = receive_all-Received on_disc chunks' c fds s w h' in
      let (msgs, left) = Framed-unique got.framed got'.framed (ap (λ t. pending c ++ t) same) in
      (
        r,
        r',
        run,
        run',
        got.effect ∙ ap (λ ms. deliver_all on_msg c.fd ms s) msgs ∙ sym got'.effect,
        left,
      )
