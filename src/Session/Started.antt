-- ===== src/Session/Started.antt =====
-- The start of client/client_main.c: the client, once it is created, tracks no group.
use mathlib.Core.Path.{subst}
use chat_project.Prelude.{
  ℕ, ◌≡◌, refl, sym, ap, Bool, false, Option, none, some, List, [], ◌∷◌, take, ◌==◌, arith,
  Bool-cases, Option-cases, inl, inr, eqb→eq,
}
use chat_project.Memory.{Bytes}
use chat_project.DList
use chat_project.DList.{Ptr, Heap, null, return, ◌>>=◌}
use chat_project.DList.Link.{bind_run}
use chat_project.DList.Walk.{create-IsList}
use chat_project.ClientGroupsMng
use chat_project.ClientGroupsMng.{GroupEntry, ClientGroupsMng, Answers, Event}
use chat_project.ClientGroupsMng.Track.{Tracks}
use chat_project.ClientMng
use chat_project.ClientMng.{ClientMng, Client, GroupAnswer}
use chat_project.Session.{Start, server_ip, start_client}

-- The client is not created, or tracks no group yet.
abbrev pub Started : Option ClientMng × Heap GroupEntry → Type 0
Started (none, h) = Unit
Started (some m, h) = Tracks h m.groups.groups [] []

-- malloc gives the list NULL or an address without a node.
abbrev pub IsFresh : Ptr → Heap GroupEntry → Type 0
IsFresh node h = (node == null) ≡ false → h.alive node ≡ false

abbrev group_list : Option ClientGroupsMng → Ptr
group_list none = null
group_list (some m) = m.groups

-- The manager of the windows, once it exists, has an empty list.
groups_created :
    (calloc_ok ftok_ok : Bool) (msgget : Option ℕ) (node : Ptr) (h : Heap GroupEntry)
    → IsFresh node h
    → (t : Option ClientGroupsMng × List Event) × (h' : Heap GroupEntry) × (ClientGroupsMng.create
          calloc_ok ftok_ok msgget node h
        ≡ some (t, h'))
      × ((m : ClientGroupsMng) → t.0 ≡ some m → Tracks h' m.groups [] [])
unfolding ClientGroupsMng.create
groups_created calloc_ok ftok_ok msgget node h fresh = elim (Bool-cases calloc_ok) [
  | inr bad ↦ ((none, []), h, rw bad refl, λ m e. absurd cc)
  | inl good ↦ elim (Bool-cases ftok_ok) [
    | inr bad ↦ ((none, []), h, rw (good, bad) refl, λ m e. absurd cc)
    | inl good' ↦ elim (Option-cases msgget) [
      | inl bad ↦ ((none, []), h, rw (good, good', bad) refl, λ m e. absurd cc)
      | inr (msqid, got) ↦ elim (Bool-cases (node == null)) [
        | inl bad ↦
            let no_node : DList.create node h ≡ some (node, h) =
              unfold DList.create in rw bad (ap (λ n. some (n, h)) (sym (eqb→eq node null bad))) in
            (
              (none, Event.remove_queue msqid ∷ []),
              h,
              rw (good, good', got) (bind_run _ _ no_node (rw bad refl)),
              λ m e. absurd cc,
            )
        | inr some_node ↦
            let (h', created, list, _) = create-IsList h node (ground arith) (fresh some_node) in
            (
              (some (record { msqid = msqid; groups = node }), []),
              h',
              rw (good, good', got) (bind_run _ _ created (rw some_node refl)),
              λ m e.
                  let same : node ≡ m.groups = ap group_list e in
                  subst (λ l. Tracks h' l [] []) same
                    (record { list = list; entries = refl; apart = refl }),
            )
      ]
    ]
  ]
]

pub start_client-Started :
    (s : Start) (argv : List Bytes) (h : Heap GroupEntry)
    → IsFresh s.sentinel h
    → (t : Option ClientMng × Heap GroupEntry) × (start_client s argv h ≡ some t) × Started t
unfolding start_client ClientMng.create
start_client-Started s argv h fresh = elim (Bool-cases s.calloc_ok) [
  | inr bad ↦ ((none, h), rw bad refl, tt)
  | inl good ↦ elim (Option-cases s.connected) [
    | inl bad ↦ ((none, h), rw (good, bad) refl, tt)
    | inr (fd, got) ↦
        let ((groups, events), h', created, tracks) =
          groups_created s.groups_calloc_ok s.ftok_ok s.msgget s.sentinel h fresh in
        elim (Option-cases groups) [
          | inl bad ↦ (
            (none, h'),
            rw (good, got) (bind_run _ _ (bind_run _ _ created refl) (rw bad refl)),
            tt,
          )
          | inr (m, e) ↦ (
            (
              some (record {
                sockfd = fd;
                server_ip = take 15 (server_ip argv);
                port = 5000;
                logged_in = false;
                username = [];
                groups = m;
              }),
              h',
            ),
            rw (good, got) (bind_run _ _ (bind_run _ _ created refl) (rw e refl)),
            tracks m e,
          )
        ]
  ]
]
