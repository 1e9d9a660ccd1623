-- ===== src/DList/Tests.antt =====
-- Small runs on a list of two nodes, for shared/adt/gen_dlist.c.
use chat_project.Prelude.{
  ℕ, ◌+◌, ◌≡◌, refl, Bool, true, false, Option, some, none, [], ◌∷◌, ◌==◌, ◌||◌, if◌then◌else◌,
  arith, not,
}
use chat_project.DList.{
  Ptr, Heap, Cmd, null, return, ◌>>=◌, ◌>>◌, read, write, node_create, node_link_before,
  node_unlink, take_node, insert_node, create, push_head, push_tail, pop_head, pop_tail,
  itr_insert_before, itr_remove, size, size_loop, is_empty, itr_for_each, destroy,
}
use chat_project.DList.Circle.{has}
use chat_project.DList.Represents.{IsList, SameOutside}
use chat_project.DList.Insert.{Inserts, itr_insert_before-Inserts}
use chat_project.DList.Remove.{Removes, itr_remove-Removes}
use chat_project.DList.Walk.{visited, size-length, itr_for_each-visited}
use chat_project.DList.Destroy.{destroy-contents}

-- The list at 1 has the nodes 2 and 3, with the items 10 and 20.
abbrev two : Heap ℕ
two = record {
  alive = λ p. p == 1 || (p == 2 || p == 3);
  item = λ p. if p == 2 then some 10 else if p == 3 then some 20 else none;
  next = λ p. if p == 1 then 2 else if p == 2 then 3 else if p == 3 then 1 else 0;
  prev = λ p. if p == 1 then 3 else if p == 2 then 1 else if p == 3 then 2 else 0;
  is_sentinel = λ p. p == 1;
}

two-IsList : IsList two 1 (2 ∷ 3 ∷ [])
two-IsList = record {
  chain = (refl, refl, (refl, refl, (refl, refl)));
  apart = refl;
  live = λ p i. ground arith;
  marked = λ p i. ground arith;
  nonnull = refl;
}

itr_insert_before-Inserts_example :
    Inserts (itr_insert_before 4 3 (some 15)) two 1 (2 ∷ []) 4 (some 15) (3 ∷ [])
itr_insert_before-Inserts_example =
    itr_insert_before-Inserts two 1 (2 ∷ []) (3 ∷ []) 4 (some 15) two-IsList refl

itr_remove-Removes_example : Removes (itr_remove 2) two 1 [] 2 (3 ∷ [])
itr_remove-Removes_example = itr_remove-Removes two 1 [] 2 (3 ∷ []) two-IsList

size-length_example : size 3 1 two ≡ some (2, two)
size-length_example = size-length two 1 (2 ∷ 3 ∷ []) 3 two-IsList (omega arith)

abbrev add_until_20 : Option ℕ → ℕ → Bool × ℕ
add_until_20 none s = (true, s)
add_until_20 (some n) s = (not (n == 20), s + n)

itr_for_each-visited_example :
    itr_for_each 3 2 1 (some add_until_20) 0 two
    ≡ some (visited add_until_20 two.item (2 ∷ 3 ∷ []) 1 0, two)
itr_for_each-visited_example =
    itr_for_each-visited two 1 [] (2 ∷ 3 ∷ []) [] 3 add_until_20 0 two-IsList (omega arith)

destroy-contents_example :
    (h' : Heap ℕ) × (destroy 3 1 two ≡ some ((some 10 ∷ some 20 ∷ [], null), h'))
    × ((p : Ptr) → h'.alive p ≡ (if has p (1 ∷ 2 ∷ 3 ∷ []) then false else two.alive p))
    × SameOutside two h' (1 ∷ 2 ∷ 3 ∷ [])
destroy-contents_example = destroy-contents two 1 (2 ∷ 3 ∷ []) 3 two-IsList (omega arith)

-- A list that is built, changed and measured.
built : Cmd ℕ (Option ℕ × Option ℕ × ℕ × Bool)
unfolding ◌>>=◌ ◌>>◌ read write create push_head push_tail node_create node_link_before node_unlink
    take_node insert_node pop_head pop_tail size size_loop is_empty
built = create 5 >>= λ l. push_head 6 l (some 10) >>= λ n. push_tail 7 l (some 20) >>= λ n.
    push_head 8 l (some 5) >>= λ n. pop_tail l >>= λ newest.
    pop_head l >>= λ first. size 5 l >>= λ n. is_empty l >>= λ e. return (newest, first, n, e)

answer :
    Option ((Option ℕ × Option ℕ × ℕ × Bool) × Heap ℕ) → Option (Option ℕ × Option ℕ × ℕ × Bool)
answer none = none
answer (some r) = some r.0

built-two : answer (built two) ≡ some (some 20, some 5, 1, false)
unfolding built answer ◌>>=◌ ◌>>◌ read write create push_head push_tail node_create node_link_before
    node_unlink take_node insert_node pop_head pop_tail size size_loop is_empty
built-two = refl
