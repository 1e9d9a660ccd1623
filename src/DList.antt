-- ===== src/DList.antt =====
-- The doubly linked list of shared/adt/gen_dlist.c: a circle of nodes through a sentinel. Each field
-- of `Node` is one map over addresses, and `alive` says which addresses hold a node. A `List *` is the
-- address of its sentinel, the only member of the struct. A run is `none` where the code would read or
-- write a node that is not there, and where a loop runs out of fuel. The answer of malloc is an
-- argument: NULL, or an address.
pub mod Circle
pub mod Represents
pub mod Link
pub mod Insert
pub mod Remove
pub mod Walk
pub mod Iterate
pub mod Destroy
mod Tests
use chat_project.Prelude.{
  ℕ, zero, suc, ◌+◌, Bool, true, false, Option, none, some, List, [], ◌∷◌, ◌++◌, ◌==◌, not,
  if◌then◌else◌,
}

abbrev pub Ptr : Type 0
Ptr = ℕ

abbrev pub null : Ptr
null = 0

-- `node->field = v` in one map
abbrev pub update {ℓ} : {B : Type ℓ} → (Ptr → B) → Ptr → B → Ptr → B
update f p v q = if q == p then v else f q

-- `Node`, field by field; `data` of NULL is `none`.
pub record Heap {ℓ} (A : Type ℓ) : Type ℓ where
  pub alive : Ptr → Bool
  pub item : Ptr → Option A
  pub next : Ptr → Ptr
  pub prev : Ptr → Ptr
  pub is_sentinel : Ptr → Bool

-- A command takes the heap to a value and a heap, or to nothing.
abbrev pub Cmd {ℓ κ} : Type ℓ → Type κ → Type (ℓ ⊔ κ)
Cmd A B = Heap A → Option (B × Heap A)

module _ {ℓ} {A : Type ℓ} where
  abbrev pub return {κ} : {B : Type κ} → B → Cmd A B
  return b h = some (b, h)

  infixl 5 ◌>>=◌ ◌>>◌
  unfoldable pub ◌>>=◌ {κ κ'} : {B : Type κ} {D : Type κ'} → Cmd A B → (B → Cmd A D) → Cmd A D
  ◌>>=◌ cmd k h = elim (cmd h) [ none ↦ none | some r ↦ k r.0 r.1 ]

  unfoldable pub ◌>>◌ {κ} : {D : Type κ} → Cmd A (Unit {0}) → Cmd A D → Cmd A D
  ◌>>◌ cmd k h = elim (cmd h) [ none ↦ none | some r ↦ k r.1 ]

  -- A read of a field of the node at `p`.
  unfoldable pub read {κ} : {B : Type κ} → Ptr → (Heap A → B) → Cmd A B
  read p f h = if h.alive p then some (f h, h) else none

  -- A write to the node at `p`.
  unfoldable pub write : Ptr → (Heap A → Heap A) → Cmd A (Unit {0})
  write p f h = if h.alive p then some (tt, f h) else none

  abbrev pub get_data : Ptr → Cmd A (Option A)
  get_data p = read p (λ h. h.item p)

  abbrev pub get_next : Ptr → Cmd A Ptr
  get_next p = read p (λ h. h.next p)

  abbrev pub get_prev : Ptr → Cmd A Ptr
  get_prev p = read p (λ h. h.prev p)

  abbrev pub get_is_sentinel : Ptr → Cmd A Bool
  get_is_sentinel p = read p (λ h. h.is_sentinel p)

  abbrev pub set_data : Ptr → Option A → Cmd A (Unit {0})
  set_data p v = write p (λ h. record h { item = update h.item p v })

  abbrev pub set_next : Ptr → Ptr → Cmd A (Unit {0})
  set_next p v = write p (λ h. record h { next = update h.next p v })

  abbrev pub set_prev : Ptr → Ptr → Cmd A (Unit {0})
  set_prev p v = write p (λ h. record h { prev = update h.prev p v })

  abbrev pub free : Ptr → Cmd A (Unit {0})
  free p = write p (λ h. record h { alive = update h.alive p false })

  -- `fresh` is what malloc answers.
  unfoldable pub node_create : Ptr → Option A → Cmd A Ptr
  node_create fresh item h =
      if fresh == null
      then some (null, h)
      else some (
        fresh,
        record {
          alive = update h.alive fresh true;
          item = update h.item fresh item;
          next = update h.next fresh null;
          prev = update h.prev fresh null;
          is_sentinel = update h.is_sentinel fresh false;
        },
      )

  unfoldable pub node_link_before : Ptr → Ptr → Cmd A (Unit {0})
  node_link_before pos n = do
    before ← get_prev pos
    set_prev n before
    set_next n pos
    pos_prev ← get_prev pos
    set_next pos_prev n
    set_prev pos n

  unfoldable pub node_unlink : Ptr → Cmd A (Unit {0})
  node_unlink n = do
    before ← get_prev n
    after ← get_next n
    set_next before after
    next ← get_next n
    prev ← get_prev n
    set_prev next prev
    set_prev n null
    set_next n null

  unfoldable pub create : Ptr → Cmd A Ptr
  create fresh h =
      if fresh == null
      then some (null, h)
      else some (
        fresh,
        record {
          alive = update h.alive fresh true;
          item = update h.item fresh none;
          next = update h.next fresh fresh;
          prev = update h.prev fresh fresh;
          is_sentinel = update h.is_sentinel fresh true;
        },
      )

  -- A node for the item in front of `pos`: what the three insertions have in common.
  unfoldable pub insert_node : Ptr → Ptr → Option A → Cmd A Ptr
  insert_node fresh pos item = do
    n ← node_create fresh item
    if n == null then return null else (do node_link_before pos n; return n)

  unfoldable pub push_head : Ptr → Ptr → Option A → Cmd A Ptr
  push_head fresh list item = if list == null then return null else (do
    n ← node_create fresh item
    if n == null
        then return null
        else (do first ← get_next list; node_link_before first n; return n))

  unfoldable pub push_tail : Ptr → Ptr → Option A → Cmd A Ptr
  push_tail fresh list item = if list == null then return null else insert_node fresh list item

  -- The end of a removal: the data of the node, which is unlinked and freed.
  unfoldable pub take_node : Ptr → Cmd A (Option A)
  take_node n = do item ← get_data n; node_unlink n; free n; return item

  unfoldable pub pop_head : Ptr → Cmd A (Option A)
  pop_head list =
      if list == null
      then return none
      else (do first ← get_next list; if first == list then return none else take_node first)

  unfoldable pub pop_tail : Ptr → Cmd A (Option A)
  pop_tail list =
      if list == null
      then return none
      else (do last ← get_prev list; if last == list then return none else take_node last)

  unfoldable pub itr_begin : Ptr → Cmd A Ptr
  itr_begin list = if list == null then return null else get_next list

  unfoldable pub itr_end : Ptr → Cmd A Ptr
  itr_end list = if list == null then return null else return list

  unfoldable pub itr_next : Ptr → Cmd A Ptr
  itr_next itr =
      if itr == null
      then return null
      else (do is_end ← get_is_sentinel itr; if is_end then return itr else get_next itr)

  unfoldable pub itr_prev : Ptr → Cmd A Ptr
  itr_prev itr = if itr == null then return null else (do
    before ← get_prev itr
    is_begin ← get_is_sentinel before
    if is_begin then return itr else get_prev itr)

  unfoldable pub itr_get : Ptr → Cmd A (Option A)
  itr_get itr =
      if itr == null
      then return none
      else (do is_end ← get_is_sentinel itr; if is_end then return none else get_data itr)

  unfoldable pub itr_set : Ptr → Option A → Cmd A (Option A)
  itr_set itr item = if itr == null then return none else (do
    is_end ← get_is_sentinel itr
    if is_end then return none else (do old ← get_data itr; set_data itr item; return old))

  unfoldable pub itr_insert_before : Ptr → Ptr → Option A → Cmd A Ptr
  itr_insert_before fresh itr item = if itr == null then return null else insert_node fresh itr item

  unfoldable pub itr_remove : Ptr → Cmd A (Option A)
  itr_remove itr =
      if itr == null
      then return none
      else (do is_end ← get_is_sentinel itr; if is_end then return none else take_node itr)

  -- The loop of `ListSize` from `cur` on.
  unfoldable pub size_loop : ℕ → Ptr → Ptr → ℕ → Cmd A ℕ
  size_loop zero sent cur count = λ h. none
  size_loop (suc fuel) sent cur count =
      if cur == sent
      then return count
      else (do next ← get_next cur; size_loop fuel sent next (count + 1))

  unfoldable pub size : ℕ → Ptr → Cmd A ℕ
  size fuel list =
      if list == null then return 0 else (do first ← get_next list; size_loop fuel list first 0)

  unfoldable pub is_empty : Ptr → Cmd A Bool
  is_empty list =
      if list == null then return true else (do first ← get_next list; return (first == list))

  -- The loop of `ListItrForEach`; the context is a state, and the action cannot reach the nodes.
  unfoldable pub for_each_loop {κ} :
      {S : Type κ} → ℕ → (Option A → S → Bool × S) → Ptr → Ptr → S → Cmd A (Ptr × S)
  for_each_loop zero action cur last s = λ h. none
  for_each_loop (suc fuel) action cur last s = if cur == last then return (last, s) else (do
    item ← get_data cur
    let (go_on, s') = action item s
    if not go_on
        then return (cur, s')
        else (do next ← get_next cur; for_each_loop fuel action next last s'))

  unfoldable pub itr_for_each {κ} :
      {S : Type κ} → ℕ → Ptr → Ptr → Option (Option A → S → Bool × S) → S → Cmd A (Ptr × S)
  itr_for_each fuel first last none s = return (first, s)
  itr_for_each fuel first last (some action) s =
      if first == null
      then return (first, s)
      else if last == null
      then return (first, s)
      else for_each_loop fuel action first last s

  -- The loop of `ListDestroy`; `destroyed` collects what goes to the callback, latest last.
  unfoldable pub destroy_loop : ℕ → Ptr → Ptr → List (Option A) → Cmd A (List (Option A))
  destroy_loop zero list cur destroyed = λ h. none
  destroy_loop (suc fuel) list cur destroyed = if cur == list then return destroyed else (do
    next ← get_next cur
    item ← get_data cur
    free cur
    destroy_loop fuel list next (destroyed ++ item ∷ []))

  -- The items for the callback, and the list pointer afterwards.
  unfoldable pub destroy : ℕ → Ptr → Cmd A (List (Option A) × Ptr)
  destroy fuel list = if list == null then return ([], null) else (do
    first ← get_next list
    destroyed ← destroy_loop fuel list first []
    free list
    return (destroyed, null))
