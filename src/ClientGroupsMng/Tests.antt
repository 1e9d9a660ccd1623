-- ===== src/ClientGroupsMng/Tests.antt =====
-- A client with two groups, for client/client_groups_mng.c.
use chat_project.Prelude.{
  ◌≡◌, refl, true, not, some, none, [], ◌∷◌, ◌==◌, ◌||◌, ◌&&◌, if◌then◌else◌, arith,
}
use chat_project.HashUtils.{str_eq}
use chat_project.DList.{Heap}
use chat_project.ClientGroupsMng.{
  GroupEntry, ClientGroupsMng, Event, Answers, new_entry, kill_entry, on_join, on_leave, clear,
}
use chat_project.ClientGroupsMng.Track.{Tracks, has_name}
use chat_project.ClientGroupsMng.Join.{granted, Joins, opening, on_join-Joins}
use chat_project.ClientGroupsMng.Close.{Leaves, on_leave-Leaves, clear-kill_all}

abbrev go_entry : GroupEntry
go_entry = record { name = 103 ∷ []; sender_pid = some 70; receiver_pid = some 71 }

abbrev art_entry : GroupEntry
art_entry = record { name = 97 ∷ []; sender_pid = some 80; receiver_pid = none }

abbrev pub two_groups : Heap GroupEntry
two_groups = record {
  alive = λ p. p == 1 || (p == 2 || p == 3);
  item = λ p. if p == 2 then some go_entry else if p == 3 then some art_entry else none;
  next = λ p. if p == 1 then 2 else if p == 2 then 3 else if p == 3 then 1 else 0;
  prev = λ p. if p == 1 then 3 else if p == 2 then 1 else if p == 3 then 2 else 0;
  is_sentinel = λ p. p == 1;
}

abbrev pub manager : ClientGroupsMng
manager = record { msqid = 9; groups = 1 }

two_groups-Tracks : Tracks two_groups 1 (2 ∷ 3 ∷ []) (go_entry ∷ art_entry ∷ [])
unfolding str_eq
two_groups-Tracks = record {
  list = record {
    chain = (refl, refl, (refl, refl, (refl, refl)));
    apart = refl;
    live = λ p i. ground arith;
    marked = λ p i. ground arith;
    nonnull = refl;
  };
  entries = refl;
  apart = refl;
}

abbrev all_granted : Answers
all_granted = record {
  sender_started = true;
  receiver_started = true;
  calloc_ok = true;
  sender_pid = some 90;
  receiver_pid = some 91;
  node = 4;
}

on_join-Joins_example :
    Joins two_groups manager
      (2 ∷ 3 ∷ [])
      (go_entry ∷ art_entry ∷ [])
      two_groups-Tracks
      (not (has_name (go_entry ∷ art_entry ∷ []) (120 ∷ [])) && granted all_granted)
      (if has_name (go_entry ∷ art_entry ∷ []) (120 ∷ [])
        then []
        else opening 9 (120 ∷ []) (49 ∷ []) 5000 [] all_granted)
      (on_join 3 (some manager) (some (120 ∷ [])) (some (49 ∷ [])) 5000 none all_granted)
      4
      (new_entry (120 ∷ []) all_granted)
on_join-Joins_example =
    on_join-Joins two_groups manager (2 ∷ 3 ∷ []) (go_entry ∷ art_entry ∷ []) two_groups-Tracks
      (120 ∷ []) (49 ∷ []) 5000 all_granted (λ good. refl) (omega arith) 3 none (omega arith)

on_leave-Leaves_example :
    Leaves two_groups manager
      (2 ∷ 3 ∷ [])
      (go_entry ∷ art_entry ∷ [])
      two_groups-Tracks
      (on_leave 3 (some manager) (some (97 ∷ [])))
      (97 ∷ [])
on_leave-Leaves_example =
    on_leave-Leaves two_groups manager (2 ∷ 3 ∷ []) (go_entry ∷ art_entry ∷ []) two_groups-Tracks 3
      (97 ∷ []) (omega arith)

clear-kill_all_example :
    (h' : Heap GroupEntry) × (clear 3 (some manager) two_groups
      ≡ some (Event.kill 70 ∷ Event.kill 71 ∷ Event.kill 80 ∷ [], h'))
    × Tracks h' 1 [] []
unfolding kill_entry
clear-kill_all_example =
    clear-kill_all two_groups manager (2 ∷ 3 ∷ []) (go_entry ∷ art_entry ∷ []) 3 two_groups-Tracks
      (omega arith)
