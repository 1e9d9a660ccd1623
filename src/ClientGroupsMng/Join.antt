-- ===== src/ClientGroupsMng/Join.antt =====
-- `client_groups_mng_on_join` of client/client_groups_mng.c.
use chat_project.Prelude.{
  if◌then◌else◌, ℕ, ◌<◌, ◌≤◌, ◌≡◌, inl, inr, refl, sym, ◌∙◌, Bool, true, false, Option, some, List,
  [], ◌∷◌, ◌++◌, ap, ◌==◌, ◌&&◌, not, length, take_all, arith, Bool-cases,
}
use chat_project.Memory.{Bytes}
use chat_project.HashUtils.Laws.{str_eq_symm}
use chat_project.Protocol.{chat_max_groupname_len}
use chat_project.DList.{push_tail, Ptr, Heap, null}
use chat_project.DList.Circle.{has, has-append}
use chat_project.DList.Link.{bind_run}
use chat_project.DList.Insert.{Inserted, push_tail-null, push_tail-Inserts}
use chat_project.DList.Iterate.{itr_end_lem}
use chat_project.ClientGroupsMng.{
  GroupEntry, ClientGroupsMng, Event, Answers, new_entry, kill_entry, track, open_windows, or_empty,
  find_entry, on_join,
}
use chat_project.ClientGroupsMng.Find.{find_entry-first_named}
use chat_project.ClientGroupsMng.Track.{
  Tracks, Found, all_some-append, has_name, has_name-append, names_apart, search,
}

-- All that is asked for while the windows are opened is granted.
abbrev pub granted : Answers → Bool
granted a = a.sender_started && (a.receiver_started && (a.calloc_ok && not (a.node == null)))

-- The calls when the windows of a group are opened: the sender's, the receiver's if that has started,
-- and if only the node is refused, those that kill both again.
abbrev pub opening :
    (msqid : ℕ) (name ip : Bytes) (port : ℕ) (username : Bytes) (answers : Answers) → List Event
opening msqid name ip port username a =
    let sender = Event.open_sender name ip port msqid username in
    let receiver = Event.open_receiver name ip port msqid in
    let killed = kill_entry (some (new_entry name a)) in
    if a.sender_started
    then if a.receiver_started && (a.calloc_ok && (a.node == null))
      then (sender ∷ receiver ∷ []) ++ killed
      else sender ∷ receiver ∷ []
    else sender ∷ []

-- The list at `l` tracks one entry more, behind the others, or nothing has changed.
abbrev pub Grown :
    Bool
    → Heap GroupEntry
    → Heap GroupEntry
    → Ptr
    → List Ptr
    → List GroupEntry
    → Ptr
    → GroupEntry
    → Type 0
Grown true h h' l ps es node e = Tracks h' l (ps ++ node ∷ []) (es ++ e ∷ [])
Grown false h h' l ps es node e = h' ≡ h

names_apart-snoc :
    (es : List GroupEntry) (e : GroupEntry)
    → names_apart es ≡ true
    → has_name es e.name ≡ false
    → names_apart (es ++ e ∷ []) ≡ true
names_apart-snoc [] e h out = refl
names_apart-snoc (f ∷ es) e h out =
    ground
      (arith, names_apart-snoc es e, has_name-append es (e ∷ []) f.name, str_eq_symm e.name f.name)

pub found-inside :
    (h : Heap GroupEntry) (m : ClientGroupsMng) (ps : List Ptr) (es : List GroupEntry)
    (name : Bytes)
    → Tracks h m.groups ps es
    → (f : Found h.item ps es name m.groups) → (f.node == m.groups) ≡ false
found-inside h m ps es name tracks f = ground (
  arith,
  tracks.list.apart,
  ap (has m.groups) f.nodes,
  has-append m.groups f.front (f.node ∷ f.back),
)

module _ (h : Heap GroupEntry) (m : ClientGroupsMng) (ps : List Ptr) (es : List GroupEntry)
    (tracks : Tracks h m.groups ps es) where
  grown-Tracks :
      (h' : Heap GroupEntry) (node : Ptr) (e : GroupEntry)
      → has_name es e.name ≡ false
      → Inserted h h' m.groups ps node (some e) []
      → Tracks h' m.groups (ps ++ node ∷ []) (es ++ e ∷ [])
  grown-Tracks h' node e out done = record {
    list = done.list;
    entries =
        done.items ∙ ap (λ t. t ++ some e ∷ []) tracks.entries ∙ sym (all_some-append es (e ∷ []));
    apart = names_apart-snoc es e tracks.apart out;
  }

  -- The outcome of a run that answers `opened`, with the events, if it may grow the list.
  abbrev pub Joins :
      Bool
      → List Event
      → (Heap GroupEntry → Option ((Bool × List Event) × Heap GroupEntry))
      → Ptr
      → GroupEntry
      → Type 0
  Joins opened events run node e =
      (h' : Heap GroupEntry) × (run h ≡ some ((opened, events), h'))
      × Grown opened h h' m.groups ps es node e

  track-Joins :
      (node : Ptr) (e : GroupEntry) (opened : List Event)
      → ((node == null) ≡ false → h.alive node ≡ false)
      → has_name es e.name ≡ false
      → Joins
          (not (node == null))
          (if node == null then opened ++ kill_entry (some e) else opened)
          (track m node e opened)
          node
          e
  unfolding track
  track-Joins node e opened unused out = elim (Bool-cases (node == null)) [
    | inl failed ↦
        let is_null : node ≡ null = ground arith in
        let none_left : push_tail node m.groups (some e) h ≡ some (null, h) =
          ap (λ n. push_tail n m.groups (some e) h) is_null
          ∙ push_tail-null h m.groups ps (some e) tracks.list in
        rw failed (h, bind_run _ _ none_left refl, refl)
    | inr good ↦ elim (push_tail-Inserts h m.groups ps node (some e) tracks.list (unused good)) [
      | inl (none_left, run) ↦ absurd (ground arith)
      | inr (h', run, done) ↦
          rw good (h', bind_run _ _ run (rw good), grown-Tracks h' node e out done)
    ]
  ]

  module _ (name ip : Bytes) (port : ℕ) (answers : Answers)
      (unused : (answers.node == null) ≡ false → h.alive answers.node ≡ false)
      (short : length name ≤ chat_max_groupname_len) where
    open_windows-Joins :
        (username : Bytes)
        → has_name es name ≡ false
        → Joins
            (granted answers)
            (opening m.msqid name ip port username answers)
            (open_windows m name ip port username answers)
            answers.node
            (new_entry name answers)
    unfolding open_windows
    open_windows-Joins username out = elim (Bool-cases answers.sender_started) [
      | inr failed ↦ rw failed (h, refl, refl)
      | inl s ↦ elim (Bool-cases answers.receiver_started) [
        | inr failed ↦ rw (s, failed) (h, refl, refl)
        | inl r ↦ elim (Bool-cases answers.calloc_ok) [
          | inr failed ↦ rw (s, r, failed) (h, refl, refl)
          | inl c ↦
              rw (s, r, c)
                (track-Joins answers.node (new_entry name answers) _ unused
                  (ap (has_name es) (take_all chat_max_groupname_len name short) ∙ out))
        ]
      ]
    ]

    -- Joining a group with a name of at most 32 bytes, with more fuel than entries, if malloc gives NULL
    -- or an address without a node. If the name is tracked, -1 comes back, nothing is opened and the
    -- list is as before. Otherwise the sender's window is opened, and if that has started, the receiver's. If
    -- a window or an allocation is refused, -1 comes back and the list is as before; a sender's window that
    -- has started stays open, unless only the node is refused: then both are killed. Otherwise the group is
    -- tracked behind the others. The names stay different.
    pub on_join-Joins :
        (fuel : ℕ) (username : Option Bytes)
        → length ps < fuel
        → Joins
            (not (has_name es name) && granted answers)
            (if has_name es name
              then []
              else opening m.msqid name ip port (or_empty username) answers)
            (on_join fuel (some m) (some name) (some ip) port username answers)
            answers.node
            (new_entry name answers)
    unfolding on_join
    on_join-Joins fuel username enough =
        let found = find_entry-first_named h m.groups ps name tracks.list fuel enough in
        elim (search h.item ps es name m.groups tracks.entries) [
          | inl (out, stops) ↦
              let step : find_entry fuel m.groups name h ≡ some (m.groups, h) =
                found ∙ ap (λ p. some (p, h)) stops in
              let self : (m.groups == m.groups) ≡ true = ground arith in
              let (h', run, grown) = open_windows-Joins (or_empty username) out in
              rw out (
                h',
                bind_run _ _ step
                    (bind_run _ _ (itr_end_lem h m.groups ps tracks.list) (rw self run)),
                grown,
              )
          | inr f ↦
              let step : find_entry fuel m.groups name h ≡ some (f.node, h) =
                found ∙ ap (λ p. some (p, h)) f.stops in
              let there : has_name es name ≡ true =
                ap (λ t. has_name t name) f.entries
                ∙ has_name-append f.front_es (f.entry ∷ f.back_es) name
                ∙ rw (f.first, f.named) in
              rw there (
                h,
                bind_run _ _ step (
                    bind_run _ _ (itr_end_lem h m.groups ps tracks.list)
                      (rw (found-inside h m ps es name tracks f))),
                refl,
              )
        ]
