-- ===== src/DList/Remove.antt =====
-- The removals of shared/adt/gen_dlist.c take one node out of the sequence.
use mathlib.Core.Path.{subst}
use chat_project.Prelude.{
  ◌≡◌, refl, sym, true, false, Option, none, some, List, [], ◌∷◌, ◌++◌, append-nil, ◌==◌,
  if◌then◌else◌, arith,
}
use chat_project.DList.{Ptr, Heap, null, return, pop_head, pop_tail, itr_remove, take_node}
use chat_project.DList.Circle.{
  has, last_or, head_or, Chain, Chain-remove, Chain-across, Chain-around, distinct-insert,
  has-insert, has-append, last_or-snoc, last_or-has, head_or-has,
}
use chat_project.DList.Link.{bind_run, read_run, take_node_run, unlinked}
use chat_project.DList.Represents.{IsList, SameOutside, contents, contents-append}

-- In `h'` the list at `l` has lost the node `n` between `ps` and `qs`, which is freed; no other node
-- has changed.
pub record Removed {ℓ} {A : Type ℓ} (h h' : Heap A) (l : Ptr) (ps : List Ptr) (n : Ptr)
    (qs : List Ptr) : Type ℓ where
  pub list : IsList h' l (ps ++ qs)
  pub items : contents h'.item (ps ++ qs) ≡ contents h.item ps ++ contents h.item qs
  pub freed : h'.alive n ≡ false
  pub others : SameOutside h h' (n ∷ l ∷ ps ++ qs)

module _ {ℓ} {A : Type ℓ} where
  -- The run of a removal of `n`, which answers the item of the node.
  abbrev pub Removes :
      (Heap A → Option (Option A × Heap A)) → Heap A → Ptr → List Ptr → Ptr → List Ptr → Type ℓ
  Removes run h l ps n qs = (h' : Heap A) × (run h ≡ some (h.item n, h')) × Removed h h' l ps n qs

  module _ (h : Heap A) (l : Ptr) (ps : List Ptr) (n : Ptr) (qs : List Ptr)
      (is : IsList h l (ps ++ n ∷ qs)) where
    here : has n (l ∷ ps ++ n ∷ qs) ≡ true
    here = ground (arith, has-append n ps (n ∷ qs))

    before_in : has (last_or ps l) (l ∷ ps ++ n ∷ qs) ≡ true
    before_in = ground (arith, last_or-has ps l, has-append (last_or ps l) ps (n ∷ qs))

    after_in : has (head_or qs l) (l ∷ ps ++ n ∷ qs) ≡ true
    after_in = ground (arith, head_or-has qs l, has-append (head_or qs l) ps (n ∷ qs))

    -- The node is neither the sentinel nor another node.
    apart_n : has n (l ∷ ps ++ qs) ≡ false
    apart_n = ground (arith, is.apart, distinct-insert ps qs n, has-insert l ps qs n)

    before_ne : (n == last_or ps l) ≡ false
    before_ne = ground (arith, apart_n, last_or-has ps l, has-append (last_or ps l) ps qs)

    take_run : take_node n h ≡ some (h.item n, unlinked h n (last_or ps l) (head_or qs l))
    take_run =
        let (en, ep) = Chain-around h.next h.prev l ps qs l n is.chain in
        take_node_run h n (last_or ps l) (head_or qs l) (is.live n here)
          (is.live (last_or ps l) before_in) (is.live (head_or qs l) after_in) before_ne ep en

    unlinked-IsList : IsList (unlinked h n (last_or ps l) (head_or qs l)) l (ps ++ qs)
    unlinked-IsList = record {
      chain =
          Chain-remove h.next h.prev l ps qs l n is.chain (ground (arith, is.apart))
            (ground (arith, is.apart)) (ground (arith, is.apart));
      apart = ground (arith, is.apart, distinct-insert ps qs n, has-insert l ps qs n);
      live = λ p i. ground (arith, is.live p, has-insert p ps qs n, apart_n);
      marked = λ p i. ground (arith, is.marked p, has-insert p ps qs n);
      nonnull = ground (arith, is.nonnull, has-insert null ps qs n);
    }

    taken-Removed : Removed h (unlinked h n (last_or ps l) (head_or qs l)) l ps n qs
    taken-Removed = record {
      list = unlinked-IsList;
      items = contents-append h.item ps qs;
      freed = ground arith;
      others = λ p i.
          let before_other : (p == last_or ps l) ≡ false =
            ground (arith, last_or-has ps l, has-append (last_or ps l) ps qs) in
          let after_other : (p == head_or qs l) ≡ false =
            ground (arith, head_or-has qs l, has-append (head_or qs l) ps qs) in
          let n_other : (p == n) ≡ false = ground arith in
          record {
            alive_eq = rw n_other;
            item_eq = refl;
            next_eq = rw (before_other, n_other);
            prev_eq = rw (after_other, n_other);
            sentinel_eq = refl;
          };
    }

    -- The removal of any node of a list answers its item and takes it out of the sequence; the node is
    -- freed, and no other node changes.
    pub itr_remove-Removes : Removes (itr_remove n) h l ps n qs
    unfolding itr_remove
    itr_remove-Removes =
        let n_ne : (n == null) ≡ false = ground (arith, is.nonnull, here) in
        let n_real : h.is_sentinel n ≡ false = ground (arith, is.marked n here, apart_n) in
        (_, rw n_ne (bind_run _ _ (read_run _ _ (is.live n here) n_real) take_run), taken-Removed)

  -- `ListPopHead` answers NULL for an empty list, and otherwise removes the first node.
  abbrev pub PopsHead : Heap A → Ptr → List Ptr → Type ℓ
  PopsHead h l [] = pop_head l h ≡ some (none, h)
  PopsHead h l (p ∷ ps) = Removes (pop_head l) h l [] p ps

  pop_head_read :
      (h : Heap A) (l : Ptr) (ps : List Ptr) (r : Option (Option A × Heap A))
      → IsList h l ps
      → (if head_or ps l == l then return none else take_node (head_or ps l)) h ≡ r
      → pop_head l h ≡ r
  unfolding pop_head
  pop_head_read h l ps r is rest =
      let list_ne : (l == null) ≡ false = ground (arith, is.nonnull) in
      rw list_ne (
        bind_run _ _
          (read_run _ _ (is.live l (ground arith))
            (Chain-across h.next h.prev l [] ps l is.chain).0)
          rest)

  pub pop_head-PopsHead : (h : Heap A) (l : Ptr) (ps : List Ptr) → IsList h l ps → PopsHead h l ps
  pop_head-PopsHead h l [] is =
      let self : (l == l) ≡ true = ground arith in pop_head_read h l [] _ is (rw self)
  pop_head-PopsHead h l (p ∷ ps) is =
      let other : (p == l) ≡ false = ground (arith, is.apart) in
      (
        _,
        pop_head_read h l (p ∷ ps) _ is (rw other (take_run h l [] p ps is)),
        taken-Removed h l [] p ps is,
      )

  pop_tail_read :
      (h : Heap A) (l : Ptr) (ps : List Ptr) (r : Option (Option A × Heap A))
      → IsList h l ps
      → (if last_or ps l == l then return none else take_node (last_or ps l)) h ≡ r
      → pop_tail l h ≡ r
  unfolding pop_tail
  pop_tail_read h l ps r is rest =
      let list_ne : (l == null) ≡ false = ground (arith, is.nonnull) in
      let whole = subst (λ cs. Chain h.next h.prev l cs l) (sym (append-nil ps)) is.chain in
      rw list_ne (
        bind_run _ _
          (read_run _ _ (is.live l (ground arith)) (Chain-across h.next h.prev l ps [] l whole).1)
          rest)

  pub pop_tail-Removes :
      (h : Heap A) (l : Ptr) (ps : List Ptr) (p : Ptr)
      → IsList h l (ps ++ p ∷ [])
      → Removes (pop_tail l) h l ps p []
  pop_tail-Removes h l ps p is =
      let other : (p == l) ≡ false = ground (arith, apart_n h l ps p [] is) in
      (
        _,
        pop_tail_read h l (ps ++ p ∷ []) _ is
            (rw (last_or-snoc ps p l, other) (take_run h l ps p [] is)),
        taken-Removed h l ps p [] is,
      )

  pub pop_tail-empty : (h : Heap A) (l : Ptr) → IsList h l [] → pop_tail l h ≡ some (none, h)
  pop_tail-empty h l is =
      let self : (l == l) ≡ true = ground arith in pop_tail_read h l [] _ is (rw self)
