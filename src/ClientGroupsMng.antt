-- ===== src/ClientGroupsMng.antt =====
-- The chat windows of the client, client/client_groups_mng.c: the groups the client has joined stand in
-- a doubly linked list, each with the processes of its two windows. The answers of the operating system
-- and of malloc are arguments; the calls of system, kill and msgctl are collected, latest last. What is
-- printed is left out, and so is the text of the shell commands, which an event gives by its arguments.
pub mod Find
pub mod Track
pub mod Join
pub mod Close
pub mod Tests
use chat_project.Prelude.{
  ℕ, zero, suc, Bool, true, false, Option, none, some, List, [], ◌∷◌, ◌++◌, ltb, not, take, ◌==◌,
  if◌then◌else◌,
}
use chat_project.Memory.{Bytes}
use chat_project.HashUtils.{str_eq}
use chat_project.Protocol.{chat_max_groupname_len}
use chat_project.DList
use chat_project.DList.{Ptr, Cmd, null, return, ◌>>=◌, ◌>>◌}

-- A process id of -1 is `none`.
pub record GroupEntry : Type 0 where
  pub name : Bytes
  pub sender_pid : Option ℕ
  pub receiver_pid : Option ℕ

pub record ClientGroupsMng : Type 0 where
  pub msqid : ℕ
  pub groups : Ptr

-- `system` with a window's command, `kill` with SIGTERM, and `msgctl` with IPC_RMID.
pub data Event : Type 0 where
  open_sender : (name mcast_ip : Bytes) (mcast_port msqid : ℕ) (username : Bytes) → Event
  open_receiver : (name mcast_ip : Bytes) (mcast_port msqid : ℕ) → Event
  kill : ℕ → Event
  remove_queue : ℕ → Event

-- Whether the entry that an iterator gives has the name.
abbrev pub is_named : Option GroupEntry → Bytes → Bool
is_named none name = false
is_named (some e) name = str_eq e.name name

unfoldable pub find_loop : ℕ → Ptr → Ptr → Bytes → Cmd GroupEntry Ptr
find_loop zero itr last name = λ h. none
find_loop (suc fuel) itr last name = if itr == last then return last else (do
  e ← DList.itr_get itr
  if is_named e name
      then return itr
      else (do next ← DList.itr_next itr; find_loop fuel next last name))

unfoldable pub find_entry : ℕ → Ptr → Bytes → Cmd GroupEntry Ptr
find_entry fuel list name = do
  itr ← DList.itr_begin list
  last ← DList.itr_end list
  find_loop fuel itr last name

abbrev pub kill_pid : Option ℕ → List Event
kill_pid none = []
kill_pid (some pid) = if ltb 0 pid then Event.kill pid ∷ [] else []

unfoldable pub kill_entry : Option GroupEntry → List Event
kill_entry none = []
kill_entry (some e) = kill_pid e.sender_pid ++ kill_pid e.receiver_pid

-- What calloc, ftok, msgget and malloc answer; a failure of ftok or msgget is `none` or false.
unfoldable pub create :
    Bool → Bool → Option ℕ → Ptr → Cmd GroupEntry (Option ClientGroupsMng × List Event)
create calloc_ok ftok_ok msgget node =
    if not calloc_ok
    then return (none, [])
    else if not ftok_ok
    then return (none, [])
    else elim msgget [
      | none ↦ return (none, [])
      | some msqid ↦ do
        groups ← DList.create node
        if groups == null
            then return (none, Event.remove_queue msqid ∷ [])
            else return (some (record { msqid = msqid; groups = groups }), [])
    ]

-- What the operating system answers while the windows are opened: whether `system` and calloc succeed,
-- what `recv_child_pid` gets from the windows, and what malloc answers for the node.
pub record Answers : Type 0 where
  pub sender_started : Bool
  pub receiver_started : Bool
  pub calloc_ok : Bool
  pub sender_pid : Option ℕ
  pub receiver_pid : Option ℕ
  pub node : Ptr

-- The entry for a group whose windows are open.
abbrev pub new_entry : Bytes → Answers → GroupEntry
new_entry name answers = record {
  name = take chat_max_groupname_len name;
  sender_pid = answers.sender_pid;
  receiver_pid = answers.receiver_pid;
}

-- The windows are open, and the entry `e` goes into the list.
unfoldable pub track :
    ClientGroupsMng → Ptr → GroupEntry → List Event → Cmd GroupEntry (Bool × List Event)
track m node e opened = do
  itr ← DList.push_tail node m.groups (some e)
  if itr == null then return (false, opened ++ kill_entry (some e)) else return (true, opened)

-- The windows of a group that the list does not have.
unfoldable pub open_windows :
    ClientGroupsMng → Bytes → Bytes → ℕ → Bytes → Answers → Cmd GroupEntry (Bool × List Event)
open_windows m name ip port username answers =
    let sender = Event.open_sender name ip port m.msqid username in
    let receiver = Event.open_receiver name ip port m.msqid in
    if not answers.sender_started
    then return (false, sender ∷ [])
    else if not answers.receiver_started
    then return (false, sender ∷ receiver ∷ [])
    else if not answers.calloc_ok
    then return (false, sender ∷ receiver ∷ [])
    else track m answers.node (new_entry name answers) (sender ∷ receiver ∷ [])

abbrev pub or_empty : Option Bytes → Bytes
or_empty none = []
or_empty (some s) = s

-- Whether it returns 0, with the events; a NULL pointer is `none`.
unfoldable pub on_join :
    ℕ
    → Option ClientGroupsMng
    → Option Bytes
    → Option Bytes
    → ℕ
    → Option Bytes
    → Answers
    → Cmd GroupEntry (Bool × List Event)
on_join fuel (some m) (some name) (some ip) port username answers = do
  found ← find_entry fuel m.groups name
  last ← DList.itr_end m.groups
  if not (found == last)
      then return (false, [])
      else open_windows m name ip port (or_empty username) answers
on_join fuel _ _ _ port username answers = return (false, [])

unfoldable pub on_leave : ℕ → Option ClientGroupsMng → Option Bytes → Cmd GroupEntry (List Event)
on_leave fuel (some m) (some name) = do
  itr ← find_entry fuel m.groups name
  last ← DList.itr_end m.groups
  if itr == last then return [] else (do e ← DList.itr_remove itr; return (kill_entry e))
on_leave fuel _ _ = return []

-- The loop of `client_groups_mng_clear`.
unfoldable pub clear_loop : ℕ → Ptr → List Event → Cmd GroupEntry (List Event)
clear_loop zero list events = λ h. none
clear_loop (suc fuel) list events = do
  e ← DList.pop_head list
  elim e [
    | none ↦ return events
    | some entry ↦ clear_loop fuel list (events ++ kill_entry (some entry))
  ]

unfoldable pub clear : ℕ → Option ClientGroupsMng → Cmd GroupEntry (List Event)
clear fuel none = return []
clear fuel (some m) = if m.groups == null then return [] else clear_loop fuel m.groups []

-- The manager is gone afterwards; the entries that the list still has are only freed.
unfoldable pub destroy :
    ℕ → Option ClientGroupsMng → Cmd GroupEntry (List Event × Option ClientGroupsMng)
destroy fuel none = return ([], none)
destroy fuel (some m) = do
  events ← clear fuel (some m)
  freed ← DList.destroy fuel m.groups
  return (events ++ Event.remove_queue m.msqid ∷ [], none)
