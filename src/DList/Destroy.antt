-- ===== src/DList/Destroy.antt =====
-- `ListDestroy` of shared/adt/gen_dlist.c frees all nodes and hands all items to its callback.
use chat_project.Prelude.{
  ℕ, suc, ◌<◌, ◌≡◌, refl, sym, ◌∙◌, Bool, true, false, Option, some, List, [], ◌∷◌, ◌++◌,
  append-nil, append_assoc, ap, ◌==◌, if◌then◌else◌, length, arith, zero,
}
use chat_project.DList.{Ptr, Heap, null, update, destroy_loop, destroy}
use chat_project.DList.Circle.{has, distinct, head_or, Chain, Chain-across}
use chat_project.DList.Link.{bind_run, then_run, read_run, write_run}
use chat_project.DList.Represents.{IsList, SameOutside, contents}

-- The nodes `ps` are freed, first one first.
abbrev pub freed : (Ptr → Bool) → List Ptr → Ptr → Bool
freed alive [] = alive
freed alive (p ∷ ps) = freed (update alive p false) ps

freed-has :
    (alive : Ptr → Bool) (ps : List Ptr) (x : Ptr)
    → freed alive ps x ≡ (if has x ps then false else alive x)
freed-has alive [] x = refl
freed-has alive (p ∷ ps) x = ground (arith, freed-has (update alive p false) ps x)

module _ {ℓ} {A : Type ℓ} where
  destroy_loop-freed :
      (h : Heap A) (l a : Ptr) (ps : List Ptr) (fuel : ℕ) (done : List (Option A))
      → length ps < fuel
      → Chain h.next h.prev a ps l
      → distinct (l ∷ ps) ≡ true
      → ((p : Ptr) → has p ps ≡ true → h.alive p ≡ true)
      → destroy_loop fuel l (head_or ps l) done h
        ≡ some (done ++ contents h.item ps, record h { alive = freed h.alive ps })
  unfolding destroy_loop
  destroy_loop-freed h l a ps zero done enough c d live = absurd (omega arith)
  destroy_loop-freed h l a [] (suc fuel) done enough c d live =
      let self : (l == l) ≡ true = ground arith in
      rw self (ap (λ t. some (t, h)) (sym (append-nil done)))
  destroy_loop-freed h l a (p ∷ ps) (suc fuel) done enough (_, _, c) d live =
      let other : (p == l) ≡ false = ground arith in
      let h' = record h { alive = update h.alive p false } in
      let rest =
        destroy_loop-freed h' l p ps fuel (done ++ h.item p ∷ []) (omega arith) c (ground arith)
          (λ x i. ground (arith, live x)) in
      rw other (
        bind_run _ _
          (read_run _ _ (live p (ground arith)) (Chain-across h.next h.prev p [] ps l c).0)
          (bind_run _ _ (read_run _ _ (live p (ground arith)) refl) (
            then_run _ _ (write_run _ _ (live p (ground arith))) (
              rest
              ∙ ap (λ t. some (t, record h { alive = freed h.alive (p ∷ ps) }))
                  (append_assoc done (h.item p ∷ []) (contents h.item ps))))))

  -- With more fuel than nodes `ListDestroy` ends without touching a freed node, hands the items to its
  -- callback, in order, and leaves a NULL list; the nodes of the list are freed and no others.
  pub destroy-contents :
      (h : Heap A) (l : Ptr) (ps : List Ptr) (fuel : ℕ)
      → IsList h l ps
      → length ps < fuel
      → (h' : Heap A) × (destroy fuel l h ≡ some ((contents h.item ps, null), h'))
        × ((p : Ptr) → h'.alive p ≡ (if has p (l ∷ ps) then false else h.alive p))
        × SameOutside h h' (l ∷ ps)
  unfolding destroy
  destroy-contents h l ps fuel is enough =
      let list_ne : (l == null) ≡ false = ground (arith, is.nonnull) in
      let l_out : has l ps ≡ false = ground (arith, is.apart) in
      let frees : (p : Ptr)
          → update (freed h.alive ps) l false p ≡ (if has p (l ∷ ps) then false else h.alive p) =
        λ p. ground (arith, freed-has h.alive ps p) in
      (
        record h { alive = update (freed h.alive ps) l false },
        rw list_ne (
            bind_run _ _
              (read_run _ _ (is.live l (ground arith))
                (Chain-across h.next h.prev l [] ps l is.chain).0)
              (bind_run _ _
                (destroy_loop-freed h l l ps fuel [] enough is.chain is.apart
                  (λ p i. is.live p (ground arith)))
                (then_run _ _
                  (write_run _ _ (freed-has h.alive ps l ∙ ground (arith, l_out, is.live l)))
                  refl))),
        frees,
        λ p i. record {
          alive_eq = frees p ∙ ap (λ b. if b then false else h.alive p) i;
          item_eq = refl;
          next_eq = refl;
          prev_eq = refl;
          sentinel_eq = refl;
        },
      )
