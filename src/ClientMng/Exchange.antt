-- ===== src/ClientMng/Exchange.antt =====
-- One exchange of client/client_mng.c when the server answers: the request goes out whole, and the
-- reply is taken off the stream, however both are cut.
use mathlib.Core.Path.{subst}
use chat_project.Prelude.{
  ℕ, suc, ◌≤◌, ◌<◌, ◌≡◌, refl, sym, ◌∙◌, true, Option, some, [], ◌∷◌, ◌++◌, append-nil, ap, length,
  get_or, take-append, le→leb, arith,
}
use chat_project.Memory.{Bytes, ok, load}
use chat_project.Memory.Windows.{written, length-written}
use chat_project.Protocol.{ChatStatus, chat_max_msg_size, status_of_byte, chat_decode_status_rep}
use chat_project.ClientNet.{SendResult, Outgoing, client_net_send_all, client_net_recv_msg}
use chat_project.ClientNet.Send.{all_taken, client_net_send_all-all, client_net_send_all-front}
use chat_project.ClientNet.Receive.{stream, read_frame, Receives, client_net_recv_msg-read_frame}
use chat_project.ClientMng.{Client, msg_buf, on_ok, receive, after_send, exchange, status_exchange}

-- The client has sent `request` and taken one reply off its stream, of which `rest` is left; nothing
-- else has changed.
pub record Exchanged (c c' : Client) (request rest : Bytes) : Type 0 where
  pub mng_eq : c'.mng ≡ c.mng
  pub heap_eq : c'.heap ≡ c.heap
  pub events_eq : c'.events ≡ c.events
  pub sent_eq : c'.sent ≡ c.sent ++ request
  pub left : stream c'.incoming ≡ rest

-- All of a request goes out if no call of `send` fails.
sends-all :
    (fd : ℕ) (request buf : Bytes) (outgoing : Outgoing)
    → length request ≤ length buf
    → all_taken outgoing ≡ true
    → let (r, sent, _) =
        client_net_send_all (some fd) (some (written request buf)) (length request) outgoing in
      (r ≡ SendResult.all_sent) × (sent ≡ request)
sends-all fd request buf outgoing fits h =
    let whole = written request buf in
    let ((unsent, e, all), _) = client_net_send_all-front fd whole (length request) outgoing in
    let ran =
      client_net_send_all-all fd whole (length request) outgoing
        (omega (arith, length-written request buf fits, fits)) h in
    let nothing : unsent ≡ [] = (rw ran at all) in
    let sent = (client_net_send_all (some fd) (some whole) (length request) outgoing).1 in
    (
      ran,
      sym (append-nil sent)
          ∙ ap (λ t. sent ++ t) (sym nothing)
          ∙ e
          ∙ take-append request _ (length request) refl,
    )

module _ (c : Client) (request reply rest : Bytes) (taken : all_taken c.outgoing ≡ true)
    (fits : length request ≤ chat_max_msg_size)
    (whole : read_frame (stream c.incoming) ≡ some (reply, rest))
    (small : (i : ℕ) → get_or (stream c.incoming) i 0 < 256) where
  abbrev outcome : Client
  outcome = record c {
    incoming =
        (client_net_recv_msg (some c.mng.sockfd) (some (written request msg_buf)) c.incoming).1;
    outgoing =
        (client_net_send_all (some c.mng.sockfd) (some (written request msg_buf)) (length request)
          c.outgoing).2;
    sent = c.sent ++ request;
  }

  received :
      Receives
        (some (reply, rest))
        (written request msg_buf)
        (client_net_recv_msg (some c.mng.sockfd) (some (written request msg_buf)) c.incoming)
  received =
      subst
        (λ t.
          Receives t (written request msg_buf)
            (client_net_recv_msg (some c.mng.sockfd) (some (written request msg_buf)) c.incoming))
        whole
        (client_net_recv_msg-read_frame c.mng.sockfd (written request msg_buf) c.incoming
          (omega (arith, length-written request msg_buf fits)) small)

  outcome-Exchanged : Exchanged c outcome request rest
  outcome-Exchanged = record {
    mng_eq = refl;
    heap_eq = refl;
    events_eq = refl;
    sent_eq = refl;
    left = received.1;
  }

  pub exchange-Exchanged {ℓ} :
      {R : Type ℓ} (failed : R) (next : ℕ × Bytes → Client → Option (R × Client))
      → (c' : Client) × (exchange failed (ok (length request, written request msg_buf)) c next
          ≡ next (length reply, written reply (written request msg_buf)) c')
        × Exchanged c c' request rest
  unfolding exchange on_ok receive after_send
  exchange-Exchanged failed next =
      let (done, sent) = sends-all c.mng.sockfd request msg_buf c.outgoing fits taken in
      (outcome, rw (done, sent, received.0, exchange), outcome-Exchanged)

-- A reply with a status in front of a stream.
abbrev pub status_frame : ℕ → ℕ → Bytes
status_frame op code = op ∷ 1 ∷ code ∷ []

-- If all of a request goes out and the server's stream begins with a status reply, that status is what
-- the exchange goes on with.
pub status_exchange-Exchanged :
    (c : Client) (request rest : Bytes) (op code : ℕ)
    → all_taken c.outgoing ≡ true
    → length request ≤ chat_max_msg_size
    → stream c.incoming ≡ status_frame op code ++ rest
    → ((i : ℕ) → get_or (stream c.incoming) i 0 < 256)
    → (next : ChatStatus → Client → Option (ChatStatus × Client))
    → (c' : Client) × (status_exchange (ok (length request, written request msg_buf)) c next
        ≡ next (status_of_byte code) c')
      × Exchanged c c' request rest
unfolding status_exchange chat_decode_status_rep load on_ok
status_exchange-Exchanged c request rest op code taken fits e small next =
    let framed : read_frame (stream c.incoming) ≡ some (status_frame op code, rest) =
      ap read_frame e ∙ rw (le→leb 1 (suc (length rest)) (omega arith)) in
    exchange-Exchanged c request (status_frame op code) rest taken fits framed small
      ChatStatus.protocol _
