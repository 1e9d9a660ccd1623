-- ===== src/ClientGroupsMng/Find.antt =====
-- The search of client/client_groups_mng.c for the entry of a group.
use chat_project.Prelude.{
  ℕ, zero, suc, ◌<◌, ◌≡◌, inl, inr, true, false, Option, some, List, [], ◌∷◌, ◌==◌, if◌then◌else◌,
  length, arith, Bool-cases,
}
use chat_project.Memory.{Bytes}
use chat_project.DList.{Ptr, Heap}
use chat_project.DList.Circle.{has, head_or, Chain, Chain-across}
use chat_project.DList.Link.{bind_run}
use chat_project.DList.Represents.{IsList}
use chat_project.DList.Iterate.{itr_begin-head_or, itr_end_lem, itr_get-item, itr_next_run}
use chat_project.ClientGroupsMng.{GroupEntry, is_named, find_loop, find_entry}

-- The first of `ps` whose item has the name, or `last`.
abbrev pub first_named : (Ptr → Option GroupEntry) → List Ptr → Bytes → Ptr → Ptr
first_named item [] name last = last
first_named item (p ∷ ps) name last =
    if is_named (item p) name then p else first_named item ps name last

module _ (h : Heap GroupEntry) (l : Ptr) (all : List Ptr) (name : Bytes) (is : IsList h l all) where
  find_loop-first_named :
      (a : Ptr) (ps : List Ptr) (fuel : ℕ)
      → length ps < fuel
      → Chain h.next h.prev a ps l
      → ((p : Ptr) → has p ps ≡ true → has p all ≡ true)
      → find_loop fuel (head_or ps l) l name h ≡ some (first_named h.item ps name l, h)
  unfolding find_loop
  find_loop-first_named a ps zero enough c sub = absurd (omega arith)
  find_loop-first_named a [] (suc fuel) enough c sub =
      let self : (l == l) ≡ true = ground arith in rw self
  find_loop-first_named a (p ∷ ps) (suc fuel) enough (_, _, c) sub =
      let inside : has p all ≡ true = sub p (ground arith) in
      let other : (p == l) ≡ false = ground (arith, is.apart) in
      let rest = find_loop-first_named p ps fuel (omega arith) c (λ x i. sub x (ground arith)) in
      rw other (
        bind_run _ _ (itr_get-item h l all is p inside)
          (elim (Bool-cases (is_named (h.item p) name)) [
            | inl hit ↦ rw hit
            | inr miss ↦ rw miss (
                bind_run _ _
                  (itr_next_run h l all is p inside (head_or ps l)
                    (Chain-across h.next h.prev p [] ps l c).0)
                  rest)
          ]))

  -- With more fuel than nodes the search ends at the first node whose entry has the name, or at the end
  -- of the list.
  pub find_entry-first_named :
      (fuel : ℕ)
      → length all < fuel
      → find_entry fuel l name h ≡ some (first_named h.item all name l, h)
  unfolding find_entry
  find_entry-first_named fuel enough = bind_run _ _ (itr_begin-head_or h l all is) (
      bind_run _ _ (itr_end_lem h l all is)
        (find_loop-first_named l all fuel enough is.chain (λ p i. i)))
