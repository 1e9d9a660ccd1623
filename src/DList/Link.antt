-- ===== src/DList/Link.antt =====
-- The runs of the steps of shared/adt/gen_dlist.c that link a node and unlink it.
use chat_project.Prelude.{
  ◌≡◌, refl, ◌∙◌, true, false, Option, none, some, ap, ◌==◌, if◌then◌else◌, arith,
}
use chat_project.DList.{
  Ptr, Heap, Cmd, null, update, read, write, ◌>>=◌, ◌>>◌, node_link_before, node_unlink, take_node,
}

pub update_self {κ} : {B : Type κ} (f : Ptr → B) (p : Ptr) (v : B) → update f p v p ≡ v
update_self f p v = ap (λ b. if b then v else f p) (let e : (p == p) ≡ true = ground arith in e)

module _ {ℓ} {A : Type ℓ} where
  -- A command that has run hands its value and its heap to the next one.
  pub bind_run {κ κ'} :
      {B : Type κ} {D : Type κ'} {h h' : Heap A} {b : B} {r : Option (D × Heap A)} (m : Cmd A B)
      (k : B → Cmd A D)
      → m h ≡ some (b, h')
      → k b h' ≡ r
      → (m >>= k) h ≡ r
  bind_run m k done rest =
      unfold ◌>>=◌ in ap (λ o. elim o [ none ↦ none | some r ↦ k r.0 r.1 ]) done ∙ rest

  pub then_run {κ} :
      {D : Type κ} {h h' : Heap A} {r : Option (D × Heap A)} (m : Cmd A (Unit {0})) (k : Cmd A D)
      → m h ≡ some (tt, h')
      → k h' ≡ r
      → (m >> k) h ≡ r
  then_run m k done rest =
      unfold ◌>>◌ in ap (λ o. elim o [ none ↦ none | some r ↦ k r.1 ]) done ∙ rest

  pub read_run {κ} :
      {B : Type κ} {h : Heap A} {v : B} (p : Ptr) (f : Heap A → B)
      → h.alive p ≡ true
      → f h ≡ v
      → read p f h ≡ some (v, h)
  read_run {h} p f live e =
      unfold read in ap (λ b. if b then some (f h, h) else none) live ∙ ap (λ v. some (v, h)) e

  pub write_run :
      {h : Heap A} (p : Ptr) (f : Heap A → Heap A) → h.alive p ≡ true → write p f h ≡ some (tt, f h)
  write_run {h} p f live = unfold write in ap (λ b. if b then some (tt, f h) else none) live

  pub node_link_before_run :
      (h : Heap A) (pos n before : Ptr)
      → h.alive pos ≡ true
      → h.alive n ≡ true
      → h.alive before ≡ true
      → (pos == n) ≡ false
      → h.prev pos ≡ before
      → node_link_before pos n h
        ≡ some (
          tt,
          record h {
            next = update (update h.next n pos) before n;
            prev = update (update h.prev n before) pos n;
          },
        )
  unfolding node_link_before
  node_link_before_run h pos n before live_pos live_n live_before apart e =
      bind_run _ _ (read_run _ _ live_pos e) (
        then_run _ _ (write_run _ _ live_n) (
          then_run _ _ (write_run _ _ live_n) (
            bind_run _ _
              (read_run _ _ live_pos (ap (λ b. if b then before else h.prev pos) apart ∙ e))
              (then_run _ _ (write_run _ _ live_before) (write_run _ _ live_pos)))))

  pub node_unlink_run :
      (h : Heap A) (n before after : Ptr)
      → h.alive n ≡ true
      → h.alive before ≡ true
      → h.alive after ≡ true
      → (n == before) ≡ false
      → h.prev n ≡ before
      → h.next n ≡ after
      → node_unlink n h
        ≡ some (
          tt,
          record h {
            next = update (update h.next before after) n null;
            prev = update (update h.prev after before) n null;
          },
        )
  unfolding node_unlink
  node_unlink_run h n before after live_n live_before live_after apart ep en =
      bind_run _ _ (read_run _ _ live_n ep) (
        bind_run _ _ (read_run _ _ live_n en) (
          then_run _ _ (write_run _ _ live_before) (
            bind_run _ _ (read_run _ _ live_n (ap (λ b. if b then after else h.next n) apart ∙ en))
              (bind_run _ _ (read_run _ _ live_n ep) (
                then_run _ _ (write_run _ _ live_after)
                  (then_run _ _ (write_run _ _ live_n) (write_run _ _ live_n)))))))

  -- The heap after the node `n` between `before` and `after` has been unlinked and freed.
  abbrev pub unlinked : Heap A → Ptr → Ptr → Ptr → Heap A
  unlinked h n before after = record h {
    alive = update h.alive n false;
    next = update (update h.next before after) n null;
    prev = update (update h.prev after before) n null;
  }

  pub take_node_run :
      (h : Heap A) (n before after : Ptr)
      → h.alive n ≡ true
      → h.alive before ≡ true
      → h.alive after ≡ true
      → (n == before) ≡ false
      → h.prev n ≡ before
      → h.next n ≡ after
      → take_node n h ≡ some (h.item n, unlinked h n before after)
  unfolding take_node
  take_node_run h n before after live_n live_before live_after apart ep en =
      bind_run _ _ (read_run _ _ live_n refl) (
        then_run _ _ (node_unlink_run h n before after live_n live_before live_after apart ep en)
          (then_run _ _ (write_run _ _ live_n) refl))
