-- ===== src/ClientGroupsMng/Close.antt =====
-- `client_groups_mng_on_leave` and `client_groups_mng_clear` of client/client_groups_mng.c.
use mathlib.Core.Path.{subst}
use chat_project.Prelude.{
  ℕ, zero, suc, ◌<◌, ◌≡◌, inl, inr, refl, sym, ◌∙◌, true, false, Option, some, List, [], ◌∷◌, ◌++◌,
  append-nil, append_assoc, ap, ap₂, ◌==◌, if◌then◌else◌, length, arith, Bool-cases,
}
use chat_project.Memory.{Bytes}
use chat_project.HashUtils.{str_eq}
use chat_project.DList.{Ptr, Heap, null}
use chat_project.DList.Link.{bind_run}
use chat_project.DList.Represents.{IsList, contents}
use chat_project.DList.Remove.{itr_remove-Removes, pop_head-PopsHead}
use chat_project.DList.Iterate.{itr_end_lem}
use chat_project.ClientGroupsMng.{
  GroupEntry, ClientGroupsMng, Event, kill_entry, on_leave, clear_loop, clear,
}
use chat_project.ClientGroupsMng.Find.{find_entry-first_named}
use chat_project.ClientGroupsMng.Track.{
  Tracks, all_some, all_some-append, has_name, names_apart, search,
}
use chat_project.ClientGroupsMng.Join.{found-inside}

-- The entries without the first one of that name, and the processes that its end kills.
abbrev pub without : List GroupEntry → Bytes → List GroupEntry
without [] name = []
without (e ∷ es) name = if str_eq e.name name then es else e ∷ without es name

abbrev pub killed_for : List GroupEntry → Bytes → List Event
killed_for [] name = []
killed_for (e ∷ es) name = if str_eq e.name name then kill_entry (some e) else killed_for es name

abbrev pub kill_all : List GroupEntry → List Event
kill_all [] = []
kill_all (e ∷ es) = kill_entry (some e) ++ kill_all es

without-split :
    (fs : List GroupEntry) (e : GroupEntry) (gs : List GroupEntry) (name : Bytes)
    → has_name fs name ≡ false
    → str_eq e.name name ≡ true
    → (without (fs ++ e ∷ gs) name ≡ fs ++ gs)
      × (killed_for (fs ++ e ∷ gs) name ≡ kill_entry (some e))
without-split [] e gs name out hit = (rw hit, rw hit)
without-split (f ∷ fs) e gs name out hit =
    let miss : str_eq f.name name ≡ false = ground arith in
    let (kept, killed) = without-split fs e gs name (ground arith) hit in
    (rw miss (ap (λ t. f ∷ t) kept), rw miss killed)

without-missing :
    (es : List GroupEntry) (name : Bytes)
    → has_name es name ≡ false
    → (without es name ≡ es) × (killed_for es name ≡ [])
without-missing [] name out = (refl, refl)
without-missing (f ∷ es) name out =
    let miss : str_eq f.name name ≡ false = ground arith in
    let (kept, killed) = without-missing es name (ground arith) in
    (rw miss (ap (λ t. f ∷ t) kept), rw miss killed)

has_name-without :
    (es : List GroupEntry) (name other : Bytes)
    → has_name es other ≡ false
    → has_name (without es name) other ≡ false
has_name-without [] name other out = refl
has_name-without (e ∷ es) name other out = elim (Bool-cases (str_eq e.name name)) [
  | inl hit ↦ rw hit (ground arith)
  | inr miss ↦ rw miss (ground (arith, has_name-without es name other))
]

names_apart-without :
    (es : List GroupEntry) (name : Bytes)
    → names_apart es ≡ true
    → names_apart (without es name) ≡ true
names_apart-without [] name h = refl
names_apart-without (e ∷ es) name h = elim (Bool-cases (str_eq e.name name)) [
  | inl hit ↦ rw hit (ground arith)
  | inr miss ↦
      rw miss (ground (arith, names_apart-without es name, has_name-without es name e.name))
]

module _ (h : Heap GroupEntry) (m : ClientGroupsMng) (ps : List Ptr) (es : List GroupEntry)
    (tracks : Tracks h m.groups ps es) where
  -- The run that has closed the windows of the group, if it was tracked.
  abbrev pub Leaves : (Heap GroupEntry → Option (List Event × Heap GroupEntry)) → Bytes → Type 0
  Leaves run name =
      (h' : Heap GroupEntry) × (ps' : List Ptr) × (run h ≡ some (killed_for es name, h'))
      × Tracks h' m.groups ps' (without es name)

  -- With more fuel than entries, leaving a group kills the windows of its entry, if there is one, and
  -- takes the entry off; the other entries stay in order. A group that is not tracked changes nothing.
  pub on_leave-Leaves :
      (fuel : ℕ) (name : Bytes)
      → length ps < fuel
      → Leaves (on_leave fuel (some m) (some name)) name
  unfolding on_leave
  on_leave-Leaves fuel name enough =
      let found = find_entry-first_named h m.groups ps name tracks.list fuel enough in
      let last = itr_end_lem h m.groups ps tracks.list in
      elim (search h.item ps es name m.groups tracks.entries) [
        | inl (out, stops) ↦
            let self : (m.groups == m.groups) ≡ true = ground arith in
            let (kept, killed) = without-missing es name out in
            (
              h,
              ps,
              bind_run _ _ (found ∙ ap (λ p. some (p, h)) stops)
                  (bind_run _ _ last (rw self (ap (λ t. some (t, h)) (sym killed)))),
              subst (Tracks h m.groups ps) (sym kept) tracks,
            )
        | inr f ↦
            let split = subst (IsList h m.groups) f.nodes tracks.list in
            let (h', run, done) = itr_remove-Removes h m.groups f.front f.node f.back split in
            let (kept, killed) = without-split f.front_es f.entry f.back_es name f.first f.named in
            let killed' : killed_for es name ≡ kill_entry (h.item f.node) =
              ap (λ t. killed_for t name) f.entries ∙ killed ∙ ap kill_entry (sym f.node_item) in
            let kept' : without es name ≡ f.front_es ++ f.back_es =
              ap (λ t. without t name) f.entries ∙ kept in
            (
              h',
              f.front ++ f.back,
              bind_run _ _ (found ∙ ap (λ p. some (p, h)) f.stops) (
                  bind_run _ _ last (
                    rw (found-inside h m ps es name tracks f)
                      (bind_run _ _ run (ap (λ t. some (t, h')) (sym killed'))))),
              record {
                list = done.list;
                entries =
                    done.items
                    ∙ ap₂ ◌++◌ f.front_items f.back_items
                    ∙ sym (all_some-append f.front_es f.back_es)
                    ∙ ap all_some (sym kept');
                apart = names_apart-without es name tracks.apart;
              },
            )
      ]

clear_loop-kill_all :
    (l : Ptr) (es : List GroupEntry) (h : Heap GroupEntry) (ps : List Ptr) (fuel : ℕ)
    (events : List Event)
    → Tracks h l ps es
    → length ps < fuel
    → (h' : Heap GroupEntry) × (clear_loop fuel l events h ≡ some (events ++ kill_all es, h'))
      × Tracks h' l [] []
unfolding clear_loop
clear_loop-kill_all l es h ps zero events tracks enough = absurd (omega arith)
clear_loop-kill_all l [] h [] (suc fuel) events tracks enough = (
  h,
  bind_run _ _ (pop_head-PopsHead h l [] tracks.list)
      (ap (λ t. some (t, h)) (sym (append-nil events))),
  tracks,
)
clear_loop-kill_all l (e ∷ es) h [] (suc fuel) events tracks enough =
    absurd (let bad = tracks.entries in cc)
clear_loop-kill_all l [] h (p ∷ ps) (suc fuel) events tracks enough =
    absurd (let bad = tracks.entries in cc)
clear_loop-kill_all l (e ∷ es) h (p ∷ ps) (suc fuel) events tracks enough =
    let (h1, run, done) = pop_head-PopsHead h l (p ∷ ps) tracks.list in
    let same = tracks.entries in
    let item : h.item p ≡ some e = cc in
    let rest : contents h.item ps ≡ all_some es = cc in
    let tracks1 : Tracks h1 l ps es = record {
      list = done.list;
      entries = done.items ∙ rest;
      apart = ground (arith, tracks.apart);
    } in
    let (h', later, empty) =
      clear_loop-kill_all l es h1 ps fuel (events ++ kill_entry (some e)) tracks1 (omega arith) in
    (
      h',
      bind_run _ _ (run ∙ ap (λ t. some (t, h1)) item) (
          later ∙ ap (λ t. some (t, h')) (append_assoc events (kill_entry (some e)) (kill_all es))),
      empty,
    )

-- With more fuel than entries, clearing ends: it kills the windows of all tracked groups, in order, and
-- tracks none afterwards.
pub clear-kill_all :
    (h : Heap GroupEntry) (m : ClientGroupsMng) (ps : List Ptr) (es : List GroupEntry) (fuel : ℕ)
    → Tracks h m.groups ps es
    → length ps < fuel
    → (h' : Heap GroupEntry) × (clear fuel (some m) h ≡ some (kill_all es, h'))
      × Tracks h' m.groups [] []
unfolding clear
clear-kill_all h m ps es fuel tracks enough =
    let l_ne : (m.groups == null) ≡ false = ground (arith, tracks.list.nonnull) in
    let (h', run, empty) = clear_loop-kill_all m.groups es h ps fuel [] tracks enough in
    (h', rw l_ne run, empty)
