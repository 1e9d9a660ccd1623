-- ===== src/DList/Insert.antt =====
-- The insertions of shared/adt/gen_dlist.c put one node into the sequence.
use chat_project.Prelude.{
  ◌≡◌, ◌≢◌, ◌⊎◌, inl, inr, refl, sym, ◌∙◌, true, false, Option, some, List, [], ◌∷◌, ◌++◌,
  append-nil, ap, ◌==◌, if◌then◌else◌, arith, ne→eqb,
}
use mathlib.Core.Path.{subst}
use native.Mathlib.Decide.{ℕ_discrete}
use chat_project.DList.{
  Ptr, Heap, null, return, ◌>>=◌, ◌>>◌, update, get_next, node_create, node_link_before,
  insert_node, push_head, push_tail, itr_insert_before,
}
use chat_project.DList.Circle.{
  has, last_or, head_or, Chain-frame, Chain-insert, Chain-across, distinct-insert, has-insert,
  has-append,
}
use chat_project.DList.Link.{bind_run, then_run, read_run, update_self, node_link_before_run}
use chat_project.DList.Represents.{
  IsList, SameOutside, contents, contents-insert, last_or-inside, head_or-inside, fresh-outside,
}

-- In `h'` the list at `l` has gained the node `n` with `item` between `ps` and `qs`; no other node has
-- changed.
pub record Inserted {ℓ} {A : Type ℓ} (h h' : Heap A) (l : Ptr) (ps : List Ptr) (n : Ptr)
    (item : Option A) (qs : List Ptr) : Type ℓ where
  pub list : IsList h' l (ps ++ n ∷ qs)
  pub items : contents h'.item (ps ++ n ∷ qs) ≡ contents h.item ps ++ item ∷ contents h.item qs
  pub others : SameOutside h h' (n ∷ l ∷ ps ++ qs)

module _ {ℓ} {A : Type ℓ} where
  -- The run of an insertion between `ps` and `qs`: malloc answers NULL, the insertion too, and nothing
  -- changes, or the answer is the new node.
  abbrev pub Inserts :
      (Heap A → Option (Ptr × Heap A))
      → Heap A
      → Ptr
      → List Ptr
      → Ptr
      → Option A
      → List Ptr
      → Type ℓ
  Inserts run h l ps n item qs =
      ((n ≡ null) × (run h ≡ some (null, h)))
      ⊎ ((h' : Heap A) × (run h ≡ some (n, h')) × Inserted h h' l ps n item qs)

  -- The heap after the creation of the node `n`.
  abbrev created : Heap A → Ptr → Option A → Heap A
  created h n item = record {
    alive = update h.alive n true;
    item = update h.item n item;
    next = update h.next n null;
    prev = update h.prev n null;
    is_sentinel = update h.is_sentinel n false;
  }

  -- The heap after a node `n` for `item` has gone between `before` and `after`.
  abbrev pub linked : Heap A → Ptr → Option A → Ptr → Ptr → Heap A
  linked h n item before after = record {
    alive = update h.alive n true;
    item = update h.item n item;
    next = update (update (update h.next n null) n after) before n;
    prev = update (update (update h.prev n null) n before) after n;
    is_sentinel = update h.is_sentinel n false;
  }

  module _ (h : Heap A) (l : Ptr) (ps qs : List Ptr) (n : Ptr) (item : Option A)
      (is : IsList h l (ps ++ qs)) (nonnull : n ≢ null) (unused : h.alive n ≡ false) where
    out : has n (l ∷ ps ++ qs) ≡ false
    out = fresh-outside h l (ps ++ qs) n is unused

    created_run : node_create n item h ≡ some (n, created h n item)
    unfolding node_create
    created_run = rw (ne→eqb n null nonnull)

    -- The run of the linking behind the creation, from the heap that the creation leaves.
    link_run :
        {r : Option (Ptr × Heap A)}
        → some (n, linked h n item (last_or ps l) (head_or qs l)) ≡ r
        → (node_link_before (head_or qs l) n >> return n) (created h n item) ≡ r
    link_run e =
        let pos = head_or qs l in
        let before = last_or ps l in
        let pos_ne : (pos == n) ≡ false = ground (arith, head_or-inside h l ps qs is, out) in
        let before_ne : (before == n) ≡ false = ground (arith, last_or-inside h l ps qs is, out) in
        then_run _ _
          (node_link_before_run _ pos n before
            (ap (λ b. if b then true else h.alive pos) pos_ne
              ∙ is.live pos (head_or-inside h l ps qs is))
            (update_self h.alive n true)
            (ap (λ b. if b then true else h.alive before) before_ne
              ∙ is.live before (last_or-inside h l ps qs is))
            pos_ne
            (ap (λ b. if b then null else h.prev pos) pos_ne
              ∙ (Chain-across h.next h.prev l ps qs l is.chain).1))
          e

    -- The run of the helper that insertions share.
    insert_node_run :
        insert_node n (head_or qs l) item h
        ≡ some (n, linked h n item (last_or ps l) (head_or qs l))
    unfolding insert_node
    insert_node_run = bind_run _ _ created_run (rw (ne→eqb n null nonnull) (link_run refl))

    linked-IsList : IsList (linked h n item (last_or ps l) (head_or qs l)) l (ps ++ n ∷ qs)
    linked-IsList = record {
      chain =
          Chain-insert (update h.next n null) (update h.prev n null) l ps qs l n
            (Chain-frame l (ps ++ qs) l is.chain (λ x i. ground (arith, out))
              (λ x i. ground (arith, out, has-append x (ps ++ qs) (l ∷ []))))
            (ground (arith, is.apart)) (ground (arith, is.apart)) (ground (arith, is.apart))
            (ground (arith, out));
      apart = ground (arith, is.apart, out, distinct-insert ps qs n, has-insert l ps qs n);
      live = λ p i. ground (arith, is.live p, has-insert p ps qs n);
      marked = λ p i. ground (arith, is.marked p, has-insert p ps qs n, out);
      nonnull = ground (arith, is.nonnull, has-insert null ps qs n);
    }

    linked-Inserted : Inserted h (linked h n item (last_or ps l) (head_or qs l)) l ps n item qs
    linked-Inserted = record {
      list = linked-IsList;
      items = contents-insert h.item n item ps qs (ground (arith, out));
      others = λ p i.
          let before_ne : (p == last_or ps l) ≡ false =
            ground (arith, last_or-inside h l ps qs is) in
          let after_ne : (p == head_or qs l) ≡ false =
            ground (arith, head_or-inside h l ps qs is) in
          let n_ne : (p == n) ≡ false = ground arith in
          record {
            alive_eq = rw n_ne;
            item_eq = rw n_ne;
            next_eq = rw (before_ne, n_ne);
            prev_eq = rw (after_ne, n_ne);
            sentinel_eq = rw n_ne;
          };
    }

    -- The run of `ListPushHead`, which reads the first node after the creation.
    push_head_run :
        (next_eq : h.next l ≡ head_or qs l)
        → (get_next l >>= λ first. node_link_before first n >> return n) (created h n item)
          ≡ some (n, linked h n item (last_or ps l) (head_or qs l))
    push_head_run next_eq =
        let list_ne : (l == n) ≡ false = ground (arith, out) in
        bind_run _ _
          (read_run _ _ (ap (λ b. if b then true else h.alive l) list_ne ∙ is.live l (ground arith))
            (ap (λ b. if b then null else h.next l) list_ne ∙ next_eq))
          (link_run refl)

  -- Without a node nothing is inserted.
  insert_node-null :
      (h : Heap A) (pos : Ptr) (item : Option A) → insert_node null pos item h ≡ some (null, h)
  unfolding insert_node node_create ◌>>=◌
  insert_node-null h pos item = refl

  -- From the two answers of malloc to all.
  inserts :
      (h : Heap A) (l : Ptr) (ps qs : List Ptr) (n : Ptr) (item : Option A)
      (run : Ptr → Heap A → Option (Ptr × Heap A))
      → IsList h l (ps ++ qs)
      → h.alive n ≡ false
      → run null h ≡ some (null, h)
      → (n ≢ null → run n h ≡ some (n, linked h n item (last_or ps l) (head_or qs l)))
      → Inserts (run n) h l ps n item qs
  inserts h l ps qs n item run is unused failed done = elim (ℕ_discrete n null) [
    | yes none_left ↦ inl (none_left, ap (λ m. run m h) none_left ∙ failed)
    | no nonnull ↦ inr (_, done nonnull, linked-Inserted h l ps qs n item is nonnull unused)
  ]

  -- An insertion in front of any node of a list, or of its end, at an address without a node: NULL
  -- comes back and nothing changes if malloc answers NULL; otherwise the new node comes back, the item
  -- goes to that place of the sequence, and no other node changes.
  pub itr_insert_before-Inserts :
      (h : Heap A) (l : Ptr) (ps qs : List Ptr) (n : Ptr) (item : Option A)
      → IsList h l (ps ++ qs)
      → h.alive n ≡ false
      → Inserts (itr_insert_before n (head_or qs l) item) h l ps n item qs
  unfolding itr_insert_before
  itr_insert_before-Inserts h l ps qs n item is unused =
      let pos_ne : (head_or qs l == null) ≡ false =
        ground (arith, is.nonnull, head_or-inside h l ps qs is) in
      inserts h l ps qs n item (λ m. itr_insert_before m (head_or qs l) item) is unused
        (rw pos_ne (insert_node-null h (head_or qs l) item))
        (λ nonnull. rw pos_ne (insert_node_run h l ps qs n item is nonnull unused))

  push_head-null :
      (h : Heap A) (l : Ptr) (item : Option A)
      → (l == null) ≡ false
      → push_head null l item h ≡ some (null, h)
  unfolding push_head node_create ◌>>=◌
  push_head-null h l item list_ne = rw list_ne

  -- `ListPushHead` does the same in front of the first node.
  pub push_head-Inserts :
      (h : Heap A) (l : Ptr) (ps : List Ptr) (n : Ptr) (item : Option A)
      → IsList h l ps
      → h.alive n ≡ false
      → Inserts (push_head n l item) h l [] n item ps
  unfolding push_head
  push_head-Inserts h l ps n item is unused =
      let list_ne : (l == null) ≡ false = ground (arith, is.nonnull) in
      inserts h l [] ps n item (λ m. push_head m l item) is unused (push_head-null h l item list_ne)
        (λ nonnull. rw list_ne (
          bind_run _ _ (created_run h l [] ps n item is nonnull unused) (
            rw (ne→eqb n null nonnull) (
              push_head_run h l [] ps n item is nonnull unused
                (Chain-across h.next h.prev l [] ps l is.chain).0))))

  -- Without a node nothing happens.
  pub push_tail-null :
      (h : Heap A) (l : Ptr) (ps : List Ptr) (item : Option A)
      → IsList h l ps
      → push_tail null l item h ≡ some (null, h)
  unfolding push_tail
  push_tail-null h l ps item is =
      let list_ne : (l == null) ≡ false = ground (arith, is.nonnull) in
      rw list_ne (insert_node-null h l item)

  -- `ListPushTail` does the same behind the last node.
  pub push_tail-Inserts :
      (h : Heap A) (l : Ptr) (ps : List Ptr) (n : Ptr) (item : Option A)
      → IsList h l ps
      → h.alive n ≡ false
      → Inserts (push_tail n l item) h l ps n item []
  unfolding push_tail
  push_tail-Inserts h l ps n item is unused =
      let list_ne : (l == null) ≡ false = ground (arith, is.nonnull) in
      let whole = subst (IsList h l) (sym (append-nil ps)) is in
      inserts h l ps [] n item (λ m. push_tail m l item) whole unused
        (rw list_ne (insert_node-null h l item))
        (λ nonnull. rw list_ne (insert_node_run h l ps [] n item whole nonnull unused))
