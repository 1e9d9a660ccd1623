-- ===== src/ChatWindow/Tests.antt =====
-- Two lines and a command line, for client/chat_sender.c and client/chat_receiver.c.
use chat_project.Prelude.{
  ℕ, ◌≡◌, ◌≢◌, refl, Bool, true, false, Option, none, some, List, [], ◌∷◌, arith,
}
use chat_project.Memory.{Bytes, Run, ok, fault, c_str}
use chat_project.Memory.Windows.{IsText}
use chat_project.Ui.{take_line}
use chat_project.ChatWindow.{
  pos, negsuc, SenderOs, ReceiverOs, Call, atoi, read_port, read_fields, read_args, payload,
  sender_loop, sender_main, receive_on, receiver_loop, receive_from, receiver_main, hand_over,
}
use chat_project.ChatWindow.Chat.{Fits, Delivered, sender_loop-Delivered}
use chat_project.ChatWindow.Close.{EndsClosed, sender_main-EndsClosed}

-- "hi", and "yo" on the next line
abbrev typed : Bytes
typed = 104 ∷ 105 ∷ 10 ∷ 121 ∷ 111 ∷ []

typed-IsText : IsText typed
typed-IsText = (ground arith, (ground arith, (ground arith, (ground arith, (ground arith, tt)))))

abbrev bo : Option Bytes
bo = some (98 ∷ 111 ∷ [])

abbrev always : ℕ → Bool
always i = true

bo-Fits : Fits bo
bo-Fits = (omega arith, (ground arith, (ground arith, tt)))

sender_loop-Delivered_example : Delivered (sender_loop 6 always 0 bo typed) bo typed
sender_loop-Delivered_example =
    sender_loop-Delivered 6 always 0 bo typed (omega arith) (λ i. refl) bo-Fits typed-IsText
      (omega arith, (omega arith, tt))

-- Two datagrams, each behind the name.
sent_with_name :
    sender_loop 6 always 0 bo typed
    ≡ some ((98 ∷ 111 ∷ 58 ∷ 32 ∷ 104 ∷ 105 ∷ 10 ∷ []) ∷ (98 ∷ 111 ∷ 58 ∷ 32 ∷ 121 ∷ 111 ∷ []) ∷ [])
unfolding sender_loop payload take_line c_str
sent_with_name = refl

-- " 80", "-7" and "99999999999"
atoi_space : atoi (32 ∷ 56 ∷ 48 ∷ []) ≡ ok (pos 80)
unfolding atoi
atoi_space = refl

atoi_minus : atoi (45 ∷ 55 ∷ []) ≡ ok (negsuc 6)
unfolding atoi
atoi_minus = refl

atoi_too_large : atoi (57 ∷ 57 ∷ 57 ∷ 57 ∷ 57 ∷ 57 ∷ 57 ∷ 57 ∷ 57 ∷ 57 ∷ 57 ∷ []) ≡ fault
unfolding atoi
atoi_too_large = refl

-- Any address parses, and everything is granted but the interface.
abbrev no_interface : SenderOs
no_interface = record {
  socket = some 3;
  ttl_ok = true;
  probe = some 4;
  connect_ok = true;
  getsockname_ok = true;
  local_addr = 7;
  iface_ok = false;
  inet_pton = λ s. some 9;
  pid = 42;
  sendto_ok = always;
}

-- "s", "m", "80"
abbrev command : List Bytes
command = (115 ∷ []) ∷ (109 ∷ []) ∷ (56 ∷ 48 ∷ []) ∷ []

ok-fault : {A : Type 0} (run : Run A) (a : A) → run ≡ ok a → run ≢ fault
ok-fault run a e f = absurd cc

command-read :
    read_args command
    ≡ ok (record { mcast_ip = 109 ∷ []; port = 80; msqid = negsuc 0; text = none })
unfolding read_args read_fields read_port atoi
command-read = refl

sender_main-EndsClosed_example : EndsClosed (sender_main 6 no_interface command typed)
sender_main-EndsClosed_example =
    sender_main-EndsClosed 6 no_interface command typed
      (ok-fault (read_args command)
        (record { mcast_ip = 109 ∷ []; port = 80; msqid = negsuc 0; text = none }) command-read)
      (omega arith)

-- A receiver that gets one datagram and then an error.
abbrev all_granted : ReceiverOs
all_granted = record {
  socket = some 3;
  reuse_ok = true;
  inet_pton = λ s. some 9;
  bind_ok = true;
  membership_ok = true;
  pid = 42;
}

received_once :
    receiver_main all_granted command (some (104 ∷ 105 ∷ []) ∷ none ∷ [])
    ≡ some (
      some 0,
      Call.socket 3
          ∷ Call.set_reuseaddr 3
          ∷ Call.bind 3 9 80
          ∷ Call.add_membership 3 9
          ∷ Call.drop_membership 3 9
          ∷ Call.close 3
          ∷ [],
      104 ∷ 105 ∷ [],
    )
unfolding receiver_main receive_from receive_on receiver_loop hand_over read_args read_fields
    read_port atoi c_str
received_once = refl
