-- ===== src/ChatWindow.antt =====
-- The two chat windows of the client, client/chat_sender.c and client/chat_receiver.c: one sends what is
-- typed to a multicast group, the other prints what the group gets. The answers of the operating system
-- are arguments, and its calls are collected, latest last; what goes to stderr is left out. A run is
-- `none` where `atoi` is undefined, or where the sender's loop runs out of fuel.
pub mod Chat
pub mod Close
mod Tests
use chat_project.Prelude.{
  ℕ, zero, suc, ◌+◌, ◌-◌, ◌*◌, ◌^◌, Bool, true, false, Option, none, some, List, [], ◌∷◌, ◌++◌, ltb,
  leb, not, take, ◌==◌, ◌&&◌, ◌||◌, if◌then◌else◌,
}
use chat_project.Memory.{Bytes, Run, ok, reject, fault, ◌>>=◌, c_str}
use chat_project.Ui.{fgets}

pub data ℤ : Type 0 where
  pos : ℕ → ℤ
  negsuc : ℕ → ℤ

abbrev is_space : ℕ → Bool
is_space c = c == 32 || (leb 9 c && leb c 13)

abbrev is_digit : ℕ → Bool
is_digit c = leb 48 c && leb c 57

abbrev skip_space : Bytes → Bytes
skip_space [] = []
skip_space (c ∷ s) = if is_space c then skip_space s else c ∷ s

abbrev digits : ℕ → Bytes → ℕ
digits n [] = n
digits n (c ∷ s) = if is_digit c then digits (n * 10 + (c - 48)) s else n

abbrev negate : ℕ → ℤ
negate zero = pos zero
negate (suc n) = negsuc n

-- An `int` has 32 bits; beyond that `atoi` is undefined.
abbrev positive : ℕ → Run ℤ
positive n = if ltb n (2 ^ 31) then ok (pos n) else fault

abbrev negative : ℕ → Run ℤ
negative n = if leb n (2 ^ 31) then ok (negate n) else fault

abbrev signed : Bytes → Run ℤ
signed [] = ok (pos 0)
signed (c ∷ s) =
    if c == 45
    then negative (digits 0 s)
    else if c == 43
    then positive (digits 0 s)
    else positive (digits 0 (c ∷ s))

-- The standard library's `atoi`.
unfoldable pub atoi : Bytes → Run ℤ
atoi s = signed (skip_space s)

-- What the command line of a window gives; no message queue is -1.
pub record Args : Type 0 where
  pub mcast_ip : Bytes
  pub port : ℕ
  pub msqid : ℤ
  pub text : Option Bytes

unfoldable pub read_port : ℤ → Run ℕ
read_port (negsuc n) = reject
read_port (pos n) = if not (ltb 0 n) || ltb 65535 n then reject else ok n

abbrev read_msqid : Option Bytes → Run ℤ
read_msqid none = ok (negsuc 0)
read_msqid (some s) = atoi s

abbrev non_empty : Option Bytes → Option Bytes
non_empty none = none
non_empty (some []) = none
non_empty (some (c ∷ s)) = some (c ∷ s)

unfoldable pub read_fields : Bytes → Bytes → Option Bytes → Option Bytes → Run Args
read_fields ip port msqid text = atoi port >>= λ n. read_port n >>= λ p. read_msqid msqid >>= λ q.
    ok (record { mcast_ip = ip; port = p; msqid = q; text = non_empty text })

-- The start of both mains, `argv[0]` included; `return 1` is `reject`.
unfoldable pub read_args : List Bytes → Run Args
read_args (prog ∷ ip ∷ port ∷ []) = read_fields ip port none none
read_args (prog ∷ ip ∷ port ∷ msqid ∷ []) = read_fields ip port (some msqid) none
read_args (prog ∷ ip ∷ port ∷ msqid ∷ text ∷ []) = read_fields ip port (some msqid) (some text)
read_args _ = reject

pub data Call : Type 0 where
  socket : (fd : ℕ) → Call
  set_multicast_ttl : (fd ttl : ℕ) → Call
  set_multicast_if : (fd addr : ℕ) → Call
  set_reuseaddr : (fd : ℕ) → Call
  bind : (fd addr port : ℕ) → Call
  add_membership : (fd addr : ℕ) → Call
  drop_membership : (fd addr : ℕ) → Call
  msgsnd : (msqid mtype pid : ℕ) → Call
  sendto : (fd : ℕ) (payload : Bytes) (addr port : ℕ) → Call
  close : (fd : ℕ) → Call

-- What the operating system answers to a sender; a descriptor of -1 and an address that does not parse
-- are `none`, and `sendto_ok` has the answers to `sendto` in their order.
pub record SenderOs : Type 0 where
  pub socket : Option ℕ
  pub ttl_ok : Bool
  pub probe : Option ℕ
  pub connect_ok : Bool
  pub getsockname_ok : Bool
  pub local_addr : ℕ
  pub iface_ok : Bool
  pub inet_pton : Bytes → Option ℕ
  pub pid : ℕ
  pub sendto_ok : ℕ → Bool

abbrev inaddr_any : ℕ
inaddr_any = 0

-- The address, and the calls for it.
unfoldable pub lan_ip : SenderOs → ℕ × List Call
lan_ip os = elim os.probe [
  | none ↦ (inaddr_any, [])
  | some tmp ↦ (
    if not os.connect_ok || not os.getsockname_ok then inaddr_any else os.local_addr,
    Call.socket tmp ∷ Call.close tmp ∷ [],
  )
]

abbrev child_mtype_sender : ℕ
child_mtype_sender = 1

abbrev child_mtype_receiver : ℕ
child_mtype_receiver = 2

-- The process id for the client, if it has given a queue.
unfoldable pub hand_over : ℤ → ℕ → ℕ → List Call
hand_over (negsuc n) mtype pid = []
hand_over (pos msqid) mtype pid = Call.msgsnd msqid mtype pid ∷ []

abbrev pub max_line : ℕ
max_line = 1024

abbrev pub max_name : ℕ
max_name = 33

-- `snprintf(out, sizeof(out), "%s: %s", username, line)` if there is a username.
unfoldable pub payload : Option Bytes → Bytes → Bytes
payload none line = line
payload (some username) line = take (max_name + 2 + max_line - 1) (username ++ 58 ∷ 32 ∷ line)

-- The payload goes before those of the rest of the loop, if the loop goes on.
abbrev pub sent_first : Bool → Bytes → Option (List Bytes) → Option (List Bytes)
sent_first false p rest = some (p ∷ [])
sent_first true p none = none
sent_first true p (some ps) = some (p ∷ ps)

-- The payloads of the calls of `sendto`, from the `k`th on.
unfoldable pub sender_loop : ℕ → (ℕ → Bool) → ℕ → Option Bytes → Bytes → Option (List Bytes)
sender_loop zero sendto_ok k username input = none
sender_loop (suc fuel) sendto_ok k username input = elim (fgets max_line input) [
  | none ↦ some []
  | some t ↦
      sent_first (sendto_ok k) (payload username (c_str t.0))
        (sender_loop fuel sendto_ok (suc k) username t.1)
]

abbrev sends : ℕ → ℕ → ℕ → List Bytes → List Call
sends fd addr port [] = []
sends fd addr port (p ∷ ps) = Call.sendto fd p addr port ∷ sends fd addr port ps

-- The sender behind its command line and its first call.
unfoldable pub send_from : ℕ → SenderOs → ℕ → Args → Bytes → Option (ℕ × List Call)
send_from fuel os fd a input =
    let ttl_set = Call.socket fd ∷ Call.set_multicast_ttl fd 1 ∷ [] in
    let (addr, route) = lan_ip os in
    let iface_set = ttl_set ++ route ++ Call.set_multicast_if fd addr ∷ [] in
    if not os.ttl_ok
    then some (1, ttl_set ++ Call.close fd ∷ [])
    else if not os.iface_ok
    then some (1, iface_set ++ Call.close fd ∷ [])
    else elim (os.inet_pton a.mcast_ip) [
      | none ↦ some (1, iface_set ++ Call.close fd ∷ [])
      | some dst ↦ elim (sender_loop fuel os.sendto_ok 0 a.text input) [
        | none ↦ none
        | some payloads ↦
            let sent =
              hand_over a.msqid child_mtype_sender os.pid ++ sends fd dst a.port payloads in
            some (0, (iface_set ++ sent) ++ Call.close fd ∷ [])
      ]
    ]

-- The exit status and the calls.
unfoldable pub sender_main : ℕ → SenderOs → List Bytes → Bytes → Option (ℕ × List Call)
sender_main fuel os argv input = elim (read_args argv) [
  | fault ↦ none
  | reject ↦ some (1, [])
  | ok a ↦ elim os.socket [ none ↦ some (1, []) | some fd ↦ send_from fuel os fd a input ]
]

pub record ReceiverOs : Type 0 where
  pub socket : Option ℕ
  pub reuse_ok : Bool
  pub inet_pton : Bytes → Option ℕ
  pub bind_ok : Bool
  pub membership_ok : Bool
  pub pid : ℕ

abbrev pub max_dgram : ℕ
max_dgram = 1500

-- What the receiver prints from the answers to `recvfrom`, an error as `none`, and whether its loop has
-- ended; behind the last answer it waits.
unfoldable pub receiver_loop : List (Option Bytes) → Bytes × Bool
receiver_loop [] = ([], false)
receiver_loop (none ∷ arrivals) = ([], true)
receiver_loop (some datagram ∷ arrivals) =
    let (printed, ended) = receiver_loop arrivals in
    (c_str (take max_dgram datagram) ++ printed, ended)

-- The exit status, or `none` while the receiver waits, the calls, and what is printed.
abbrev pub Receipt : Type 0
Receipt = Option ℕ × List Call × Bytes

-- The loop, and the end if it has one.
unfoldable pub receive_on : ℕ → ℕ → List Call → List (Option Bytes) → Receipt
receive_on fd addr joined arrivals =
    let (printed, ended) = receiver_loop arrivals in
    if ended
    then (some 0, joined ++ Call.drop_membership fd addr ∷ Call.close fd ∷ [], printed)
    else (none, joined, printed)

unfoldable pub receive_from : ReceiverOs → ℕ → Args → List (Option Bytes) → Receipt
receive_from os fd a arrivals =
    let reused = Call.socket fd ∷ Call.set_reuseaddr fd ∷ [] in
    if not os.reuse_ok
    then (some 1, reused ++ Call.close fd ∷ [], [])
    else elim (os.inet_pton a.mcast_ip) [
      | none ↦ (some 1, reused ++ Call.close fd ∷ [], [])
      | some addr ↦
          let bound = reused ++ Call.bind fd addr a.port ∷ [] in
          let joined = bound ++ Call.add_membership fd addr ∷ [] in
          if not os.bind_ok
          then (some 1, bound ++ Call.close fd ∷ [], [])
          else if not os.membership_ok
          then (some 1, joined ++ Call.close fd ∷ [], [])
          else receive_on fd addr (joined ++ hand_over a.msqid child_mtype_receiver os.pid) arrivals
    ]

unfoldable pub receiver_main : ReceiverOs → List Bytes → List (Option Bytes) → Option Receipt
receiver_main os argv arrivals = elim (read_args argv) [
  | fault ↦ none
  | reject ↦ some (some 1, [], [])
  | ok a ↦ elim os.socket [
    | none ↦ some (some 1, [], [])
    | some fd ↦ some (receive_from os fd a arrivals)
  ]
]
