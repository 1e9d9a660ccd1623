-- ===== src/DList/Iterate.antt =====
-- The steps of the iterators of shared/adt/gen_dlist.c along a list.
use chat_project.Prelude.{◌≡◌, refl, true, false, Option, some, List, [], ◌∷◌, ◌++◌, ◌==◌, arith}
use chat_project.DList.{
  Ptr, Heap, null, ◌>>=◌, itr_begin, itr_end, itr_next, itr_prev, itr_get, itr_set, update,
}
use chat_project.DList.Circle.{has, head_or, Chain-suffix, Chain-across, has-append, head_or-has}
use chat_project.DList.Link.{bind_run, then_run, read_run, write_run}
use chat_project.DList.Represents.{IsList}

module _ {ℓ} {A : Type ℓ} where
  module _ (h : Heap A) (l : Ptr) (ps : List Ptr) (is : IsList h l ps) where
    list_ne : (l == null) ≡ false
    list_ne = ground (arith, is.nonnull)

    pub itr_begin-head_or : itr_begin l h ≡ some (head_or ps l, h)
    unfolding itr_begin
    itr_begin-head_or =
        rw list_ne (
          read_run _ _ (is.live l (ground arith)) (Chain-across h.next h.prev l [] ps l is.chain).0)

    pub itr_end_lem : itr_end l h ≡ some (l, h)
    unfolding itr_end
    itr_end_lem = rw list_ne

    module _ (n : Ptr) (inside : has n ps ≡ true) where
      here : has n (l ∷ ps) ≡ true
      here = ground arith

      n_ne : (n == null) ≡ false
      n_ne = ground (arith, is.nonnull)

      n_real : h.is_sentinel n ≡ false
      n_real = ground (arith, is.marked n here, is.apart)

      pub itr_get-item : itr_get n h ≡ some (h.item n, h)
      unfolding itr_get
      itr_get-item =
          rw n_ne (
            bind_run _ _ (read_run _ _ (is.live n here) n_real)
              (read_run _ _ (is.live n here) refl))

      pub itr_next_run : (after : Ptr) → h.next n ≡ after → itr_next n h ≡ some (after, h)
      unfolding itr_next
      itr_next_run after e =
          rw n_ne
            (bind_run _ _ (read_run _ _ (is.live n here) n_real) (read_run _ _ (is.live n here) e))

      -- The item of a node is replaced, and the old one comes back.
      pub itr_set-item :
          (v : Option A) → itr_set n v h ≡ some (h.item n, record h { item = update h.item n v })
      unfolding itr_set
      itr_set-item v = rw n_ne (
          bind_run _ _ (read_run _ _ (is.live n here) n_real) (
            bind_run _ _ (read_run _ _ (is.live n here) refl)
              (then_run _ _ (write_run _ _ (is.live n here)) refl)))

  -- An iterator that goes on from a node comes back to it.
  pub itr_prev-itr_next :
      (h : Heap A) (l : Ptr) (ps : List Ptr) (n : Ptr) (qs : List Ptr)
      → IsList h l (ps ++ n ∷ qs)
      → (itr_next n >>= itr_prev) h ≡ some (n, h)
  unfolding itr_prev
  itr_prev-itr_next h l ps n qs is =
      let inside : has n (ps ++ n ∷ qs) ≡ true = ground (arith, has-append n ps (n ∷ qs)) in
      let after_in : has (head_or qs l) (l ∷ ps ++ n ∷ qs) ≡ true =
        ground (arith, head_or-has qs l, has-append (head_or qs l) ps (n ∷ qs)) in
      let after_ne : (head_or qs l == null) ≡ false = ground (arith, is.nonnull, after_in) in
      let (_, _, rest) = Chain-suffix h.next h.prev l ps (n ∷ qs) l is.chain in
      let (forth, back) = Chain-across h.next h.prev n [] qs l rest in
      let whole = ps ++ n ∷ qs in
      bind_run _ _ (itr_next_run h l whole is n inside (head_or qs l) forth) (
        rw after_ne (
          bind_run _ _ (read_run _ _ (is.live (head_or qs l) after_in) back) (
            bind_run _ _
              (read_run _ _ (is.live n (here h l whole is n inside)) (n_real h l whole is n inside))
              (read_run _ _ (is.live (head_or qs l) after_in) back))))
