-- ===== src/Session/Requests.antt =====
-- The requests of client/client_mng.c, whatever the server answers: each ends, and keeps the windows in
-- order.
use mathlib.Core.Path.{subst}
use chat_project.Prelude.{
  ◌⊎◌, true, ℕ, suc, ◌≤◌, ◌≡◌, ◌≢◌, refl, Option, some, List, [], ◌∷◌, ◌++◌, ap, length, arith, inl,
  inr,
}
use chat_project.Memory.{Bytes, Run, ok, reject, fault}
use chat_project.Protocol.{ChatStatus, chat_max_msg_size, chat_decode_status_rep}
use chat_project.Protocol.Decode.{chat_decode_status_rep-Agrees}
use chat_project.DList.{Ptr, Heap}
use chat_project.DList.Represents.{contents}
use chat_project.ClientNet.Send.{Returns, no_sigpipe, client_net_send_all-Returns}
use chat_project.ClientNet.{
  SendResult, Incoming, Outgoing, client_net_send_all, client_net_recv_msg,
}
use chat_project.ClientGroupsMng.{GroupEntry, ClientGroupsMng}
use chat_project.ClientGroupsMng.Track.{Tracks, all_some}
use chat_project.ClientMng.{Client, on_ok, receive, after_send, exchange, status_exchange}
use chat_project.Session.Stream.{
  AreBytes, InBuffer, client_net_recv_msg-AreBytes, client_net_recv_msg-InBuffer,
}

-- The windows are tracked, at most as many as groups have been asked for, bytes are on their way, and
-- SIGPIPE will not come.
pub record InOrder (h : Heap GroupEntry) (m : ClientGroupsMng) (incoming : Incoming)
    (outgoing : Outgoing) (asked : ℕ) : Type 0 where
  pub nodes : List Ptr
  pub entries : List GroupEntry
  pub tracks : Tracks h m.groups nodes entries
  pub bound : length nodes ≤ asked
  pub bytes : AreBytes incoming
  pub quiet : no_sigpipe outgoing ≡ true

abbrev pub IsInOrder : Client → ℕ → Type 0
IsInOrder c asked = InOrder c.heap c.mng.groups c.incoming c.outgoing asked

pub more-InOrder :
    {h : Heap GroupEntry} {m : ClientGroupsMng} {incoming : Incoming} {outgoing : Outgoing}
    (asked asked' : ℕ)
    → asked ≤ asked'
    → InOrder h m incoming outgoing asked
    → InOrder h m incoming outgoing asked'
more-InOrder asked asked' le o = record {
  nodes = o.nodes;
  entries = o.entries;
  tracks = o.tracks;
  bound = omega (arith, o.bound, le);
  bytes = o.bytes;
  quiet = o.quiet;
}

-- There are as many nodes as entries.
pub length-all_some :
    (item : Ptr → Option GroupEntry) (ps : List Ptr) (es : List GroupEntry)
    → contents item ps ≡ all_some es
    → length ps ≡ length es
length-all_some item [] [] e = refl
length-all_some item [] (f ∷ es) e = absurd cc
length-all_some item (p ∷ ps) [] e = absurd cc
length-all_some item (p ∷ ps) (f ∷ es) e = ap suc (length-all_some item ps es cc)

-- The run does not fault, and has a buffer for the longest message, with one that it has encoded.
abbrev pub Encoded : Run (ℕ × Bytes) → Type 0
Encoded fault = ⊥
Encoded reject = Unit
Encoded (ok t) = (chat_max_msg_size ≤ length t.1) × (t.0 ≤ length t.1)

-- A call that returns gives 0 or -1.
returned : (r : SendResult) → Returns r → (r ≡ SendResult.all_sent) ⊎ (r ≡ SendResult.send_failed)
returned SendResult.all_sent h = inl refl
returned SendResult.send_failed h = inr refl
returned SendResult.killed h = absurd h
returned SendResult.read_outside h = absurd h

module _ {ℓ} {R : Type ℓ} where
  -- The run ends, with the client in order.
  abbrev pub Runs : ℕ → Option (R × Client) → Type ℓ
  Runs asked run = (r : R × Client) × (run ≡ some r) × IsInOrder r.1 asked

  pub on_ok-Runs {κ} :
      {B : Type κ} (asked : ℕ) (failed : R) (run : Run B) (c : Client)
      (next : B → Option (R × Client))
      → run ≢ fault
      → IsInOrder c asked
      → ((b : B) → run ≡ ok b → Runs asked (next b))
      → Runs asked (on_ok failed run c next)
  unfolding on_ok
  on_ok-Runs asked failed (ok b) c next safe o then_runs = then_runs b refl
  on_ok-Runs asked failed reject c next safe o then_runs = ((failed, c), refl, o)
  on_ok-Runs asked failed fault c next safe o then_runs = absurd (safe refl)

  -- What an exchange goes on with: it may ask for a group.
  abbrev pub Goes : ℕ → ℕ → Heap GroupEntry → (ℕ × Bytes → Client → Option (R × Client)) → Type ℓ
  Goes asked asked' h next =
      (t : ℕ × Bytes) (c : Client)
      → t.0 ≤ length t.1
      → c.heap ≡ h
      → IsInOrder c asked
      → Runs asked' (next t c)

  module _ (asked asked' : ℕ) (le : asked ≤ asked') (failed : R) where
    receive-Runs :
        (buf : Bytes) (c : Client) (next : ℕ × Bytes → Client → Option (R × Client))
        → chat_max_msg_size ≤ length buf
        → IsInOrder c asked
        → Goes asked asked' c.heap next
        → Runs asked' (receive failed buf c next)
    unfolding receive
    receive-Runs buf c next room o goes =
        let (got, incoming) = client_net_recv_msg (some c.mng.sockfd) (some buf) c.incoming in
        let stands = client_net_recv_msg-InBuffer c.mng.sockfd buf c.incoming room o.bytes in
        let c1 = record c { incoming = incoming } in
        let o1 : IsInOrder c1 asked = record {
          nodes = o.nodes;
          entries = o.entries;
          tracks = o.tracks;
          bound = o.bound;
          bytes = client_net_recv_msg-AreBytes c.mng.sockfd buf c.incoming o.bytes;
          quiet = o.quiet;
        } in
        on_ok-Runs asked' failed got c1 (λ t. next t c1) (λ bad. subst InBuffer bad stands)
          (more-InOrder asked asked' le o1)
          (λ t done. goes t c1 (subst InBuffer done stands) refl o1)

    -- An exchange ends in order if what follows the reply does.
    pub exchange-Runs :
        (encoded : Run (ℕ × Bytes)) (c : Client) (next : ℕ × Bytes → Client → Option (R × Client))
        → Encoded encoded
        → IsInOrder c asked
        → Goes asked asked' c.heap next
        → Runs asked' (exchange failed encoded c next)
    unfolding exchange after_send
    exchange-Runs encoded c next safe o goes =
        on_ok-Runs asked' failed encoded c _ (λ bad. subst Encoded bad safe)
          (more-InOrder asked asked' le o)
          λ t done.
            let (room, inside) : (chat_max_msg_size ≤ length t.1) × (t.0 ≤ length t.1) =
              subst Encoded done safe in
            let (result, sent, outgoing) =
              client_net_send_all (some c.mng.sockfd) (some t.1) t.0 c.outgoing in
            let (returns, quiet) =
              client_net_send_all-Returns c.mng.sockfd t.1 t.0 c.outgoing inside o.quiet in
            let c1 = record c { sent = c.sent ++ sent; outgoing = outgoing } in
            let o1 : IsInOrder c1 asked = record {
              nodes = o.nodes;
              entries = o.entries;
              tracks = o.tracks;
              bound = o.bound;
              bytes = o.bytes;
              quiet = quiet;
            } in
            elim (returned result returns) [
              | inr bad ↦ rw bad ((failed, c1), refl, more-InOrder asked asked' le o1)
              | inl good ↦ rw good (receive-Runs t.1 c1 next room o1 goes)
            ]

-- An exchange for a status ends in order if what follows the status does.
pub status_exchange-Runs :
    (asked : ℕ) (encoded : Run (ℕ × Bytes)) (c : Client)
    (next : ChatStatus → Client → Option (ChatStatus × Client))
    → Encoded encoded
    → IsInOrder c asked
    → ((status : ChatStatus) (c1 : Client) → IsInOrder c1 asked → Runs asked (next status c1))
    → Runs asked (status_exchange encoded c next)
unfolding status_exchange
status_exchange-Runs asked encoded c next safe o goes =
    exchange-Runs asked asked (omega arith) ChatStatus.protocol encoded c _ safe o
      λ t c1 fits same o1.
        on_ok-Runs asked ChatStatus.protocol (chat_decode_status_rep (some t.1) t.0) c1 _
          (chat_decode_status_rep-Agrees t.1 t.0 fits).1 o1 (λ status done. goes status c1 o1)
