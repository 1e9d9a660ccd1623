-- ===== src/DList/Walk.antt =====
-- The iterators and the loops of shared/adt/gen_dlist.c, and the new list.
use chat_project.Prelude.{
  ℕ, suc, ◌+◌, ◌<◌, ◌≡◌, ◌≢◌, refl, ◌∙◌, Bool, true, false, Option, none, some, List, [], ◌∷◌, ◌++◌,
  ap, ◌==◌, not, if◌then◌else◌, length, arith, zero, Bool-cases, inl, inr, ne→eqb,
}
use chat_project.DList.{
  Ptr, Heap, null, update, create, size_loop, size, for_each_loop, itr_for_each,
}
use chat_project.DList.Circle.{
  has, distinct, last_or, head_or, Chain, Chain-suffix, distinct-suffix, Chain-across, has-append,
  head_or-has,
}
use chat_project.DList.Link.{bind_run, read_run, update_self}
use chat_project.DList.Represents.{IsList, SameOutside}

module _ {ℓ} {A : Type ℓ} where
  -- At an address without a node malloc's answer becomes an empty list, and no other node changes.
  pub create-IsList :
      (h : Heap A) (l : Ptr)
      → l ≢ null
      → h.alive l ≡ false
      → (h' : Heap A) × (create l h ≡ some (l, h')) × IsList h' l [] × SameOutside h h' (l ∷ [])
  unfolding create
  create-IsList h l nonnull unused = (
    record {
      alive = update h.alive l true;
      item = update h.item l none;
      next = update h.next l l;
      prev = update h.prev l l;
      is_sentinel = update h.is_sentinel l true;
    },
    rw (ne→eqb l null nonnull),
    record {
      chain = (update_self h.next l l, update_self h.prev l l);
      apart = refl;
      live = λ p i. ground arith;
      marked = λ p i. ground arith;
      nonnull = ground arith;
    },
    λ p i.
        let other : (p == l) ≡ false = ground arith in
        record {
          alive_eq = rw other;
          item_eq = rw other;
          next_eq = rw other;
          prev_eq = rw other;
          sentinel_eq = rw other;
        },
  )

  -- The loop from the first of `ps` on, where the `next` pointers lead through `ps` to the sentinel.
  size_loop-length :
      (h : Heap A) (l a : Ptr) (ps : List Ptr) (fuel count : ℕ)
      → length ps < fuel
      → Chain h.next h.prev a ps l
      → has l ps ≡ false
      → ((p : Ptr) → has p ps ≡ true → h.alive p ≡ true)
      → size_loop fuel l (head_or ps l) count h ≡ some (count + length ps, h)
  unfolding size_loop
  size_loop-length h l a ps zero count enough c out live = absurd (omega arith)
  size_loop-length h l a [] (suc fuel) count enough c out live =
      let self : (l == l) ≡ true = ground arith in rw self (ap (λ n. some (n, h)) (omega arith))
  size_loop-length h l a (p ∷ ps) (suc fuel) count enough (_, _, c) out live =
      let other : (p == l) ≡ false = ground arith in
      let rest =
        size_loop-length h l p ps fuel (count + 1) (omega arith) c (ground arith)
          (λ x i. live x (ground arith)) in
      rw other (
        bind_run _ _
          (read_run _ _ (live p (ground arith)) (Chain-across h.next h.prev p [] ps l c).0)
          (rest ∙ ap (λ n. some (n, h)) (omega arith)))

  -- With more fuel than nodes `ListSize` ends, and counts the nodes of the list.
  pub size-length :
      (h : Heap A) (l : Ptr) (ps : List Ptr) (fuel : ℕ)
      → IsList h l ps
      → length ps < fuel
      → size fuel l h ≡ some (length ps, h)
  unfolding size
  size-length h l ps fuel is enough =
      let list_ne : (l == null) ≡ false = ground (arith, is.nonnull) in
      rw list_ne (
        bind_run _ _
          (read_run _ _ (is.live l (ground arith))
            (Chain-across h.next h.prev l [] ps l is.chain).0)
          (size_loop-length h l l ps fuel 0 enough is.chain (ground (arith, is.apart))
              (λ p i. is.live p (ground arith))
            ∙ ap (λ n. some (n, h)) (omega arith)))

  -- The action runs over the nodes up to and including the first one at which it returns 0, where the
  -- walk stops; otherwise it stops at `last`.
  abbrev pub visited {κ} :
      {S : Type κ} → (Option A → S → Bool × S) → (Ptr → Option A) → List Ptr → Ptr → S → Ptr × S
  visited action item [] last s = (last, s)
  visited action item (p ∷ ps) last s =
      let (go_on, s') = action (item p) s in
      let rest = visited action item ps last s' in if not go_on then (p, s') else rest

  for_each_loop-visited {κ} :
      {S : Type κ} (h : Heap A) (l a : Ptr) (ps qs : List Ptr) (fuel : ℕ)
      (action : Option A → S → Bool × S) (s : S)
      → length ps < fuel
      → Chain h.next h.prev a (ps ++ qs) l
      → distinct (l ∷ ps ++ qs) ≡ true
      → ((p : Ptr) → has p ps ≡ true → h.alive p ≡ true)
      → for_each_loop fuel action (head_or (ps ++ qs) l) (head_or qs l) s h
        ≡ some (visited action h.item ps (head_or qs l) s, h)
  unfolding for_each_loop
  for_each_loop-visited h l a ps qs zero action s enough c d live = absurd (omega arith)
  for_each_loop-visited h l a [] qs (suc fuel) action s enough c d live =
      let self : (head_or qs l == head_or qs l) ≡ true = ground arith in rw self
  for_each_loop-visited h l a (p ∷ ps) qs (suc fuel) action s enough (_, _, c) d live =
      let other : (p == head_or qs l) ≡ false =
        ground (arith, head_or-has qs l, has-append p ps qs) in
      let s' = (action (h.item p) s).1 in
      let rest =
        for_each_loop-visited h l p ps qs fuel action s' (omega arith) c (ground arith)
          (λ x i. live x (ground arith)) in
      let on =
        bind_run _ _
          (read_run _ _ (live p (ground arith)) (Chain-across h.next h.prev p [] (ps ++ qs) l c).0)
          rest in
      rw other (
        bind_run _ _ (read_run _ _ (live p (ground arith)) refl)
          (elim (Bool-cases (action (h.item p) s).0) [ inl go ↦ rw go on | inr stop ↦ rw stop ]))

  -- With more fuel than nodes between them, `ListItrForEach` from one place of a list to a later one
  -- ends, and runs the action over the nodes between, in order, up to the first 0; it answers the node
  -- where it stopped, or the later place.
  pub itr_for_each-visited {κ} :
      {S : Type κ} (h : Heap A) (l : Ptr) (ps qs rs : List Ptr) (fuel : ℕ)
      (action : Option A → S → Bool × S) (s : S)
      → IsList h l (ps ++ (qs ++ rs))
      → length qs < fuel
      → itr_for_each fuel (head_or (qs ++ rs) l) (head_or rs l) (some action) s h
        ≡ some (visited action h.item qs (head_or rs l) s, h)
  unfolding itr_for_each
  itr_for_each-visited h l ps qs rs fuel action s is enough =
      let inside : (p : Ptr) → has p (l ∷ qs ++ rs) ≡ true → has p (l ∷ ps ++ (qs ++ rs)) ≡ true =
        λ p i. ground (arith, has-append p ps (qs ++ rs)) in
      let first_in : has (head_or (qs ++ rs) l) (l ∷ qs ++ rs) ≡ true =
        ground (arith, head_or-has (qs ++ rs) l) in
      let last_in : has (head_or rs l) (l ∷ qs ++ rs) ≡ true =
        ground (arith, head_or-has rs l, has-append (head_or rs l) qs rs) in
      let first_ne : (head_or (qs ++ rs) l == null) ≡ false =
        ground (arith, is.nonnull, inside (head_or (qs ++ rs) l) first_in) in
      let last_ne : (head_or rs l == null) ≡ false =
        ground (arith, is.nonnull, inside (head_or rs l) last_in) in
      rw (first_ne, last_ne)
        (for_each_loop-visited h l (last_or ps l) qs rs fuel action s enough
          (Chain-suffix h.next h.prev l ps (qs ++ rs) l is.chain)
          (distinct-suffix l ps (qs ++ rs) is.apart)
          (λ p i. is.live p (inside p (ground (arith, has-append p qs rs)))))
