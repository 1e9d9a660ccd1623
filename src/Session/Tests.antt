-- ===== src/Session/Tests.antt =====
-- A session for client/client_main.c: a login, a new group, a logout and the end.
use chat_project.Prelude.{true, false, none, some, [], ◌∷◌, if◌then◌else◌}
use chat_project.Memory.{Bytes}
use chat_project.DList.{Heap}
use chat_project.ClientNet.{Incoming}
use chat_project.ClientGroupsMng.{GroupEntry}
use chat_project.Session.{Windows, Start}

-- Both windows open, and malloc has one node.
abbrev one_node : Windows
one_node asked h = record {
  sender_started = true;
  receiver_started = true;
  calloc_ok = true;
  sender_pid = some 90;
  receiver_pid = some 91;
  node = if h.alive 2 then 0 else 2;
}

-- Three replies: to the login, to the new group, with the address "9" and port 5000, and to the logout.
abbrev replies : Incoming
replies =
    some (4 ∷ 1 ∷ 0 ∷ [])
    ∷ some (8 ∷ 6 ∷ 0 ∷ 1 ∷ [])
    ∷ some (57 ∷ 2 ∷ 19 ∷ 136 ∷ [])
    ∷ some (6 ∷ 1 ∷ 0 ∷ [])
    ∷ []

abbrev connected : Start
connected = record {
  calloc_ok = true;
  connected = some 3;
  groups_calloc_ok = true;
  ftok_ok = true;
  msgget = some 9;
  sentinel = 1;
  incoming = replies;
  outgoing = [];
}

abbrev empty_heap : Heap GroupEntry
empty_heap = record {
  alive = λ p. false;
  item = λ p. none;
  next = λ p. 0;
  prev = λ p. 0;
  is_sentinel = λ p. false;
}

-- "2", "a", "b", "1", "g", "4", "3"
abbrev typed : Bytes
typed = 50 ∷ 10 ∷ 97 ∷ 10 ∷ 98 ∷ 10 ∷ 49 ∷ 10 ∷ 103 ∷ 10 ∷ 52 ∷ 10 ∷ 51 ∷ 10 ∷ []
