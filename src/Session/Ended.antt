-- ===== src/Session/Ended.antt =====
-- A session of client/client_main.c ends, whatever is typed and whatever the server sends.
use chat_project.Prelude.{ℕ, ◌≡◌, Option, none, some, List, [], ◌∷◌, ◌++◌}
use chat_project.DList.{Heap}
use chat_project.ClientGroupsMng
use chat_project.ClientGroupsMng.{GroupEntry, ClientGroupsMng, Event}
use chat_project.ClientMng
use chat_project.ClientMng.{ClientMng, Client}
use chat_project.Session.{Session, Windows}
use chat_project.Session.Started.{Started}
use chat_project.Session.Requests.{IsInOrder}
use chat_project.Session.Joined.{Unused}

-- A session without undefined behaviour, with the client in order.
abbrev pub IsSound : Session → Type 0
IsSound none = ⊥
IsSound (some (c, asked)) = IsInOrder c asked

-- malloc gives NULL or an address without a node, whenever windows are opened.
abbrev pub AreUnused : Windows → Type 0
AreUnused windows = (asked : ℕ) (h : Heap GroupEntry) → Unused (windows asked h) h

-- A client that could not be created returns 1; otherwise 0, and the last call removes the queue of the
-- windows' process ids.
abbrev pub IsOver : ℕ → Option Client → Type 0
IsOver status none = status ≡ 1
IsOver status (some c) =
    (status ≡ 0)
    × ((front : List Event) × (c.events ≡ front ++ Event.remove_queue c.mng.groups.msqid ∷ []))

abbrev pub Over : Option (ℕ × Option Client) → Type 0
Over run = (r : ℕ × Option Client) × (run ≡ some r) × IsOver r.0 r.1
