-- ===== src/FreeMcQueue/Pool.antt =====
-- The pool as a sequence of free pairs.
use chat_project.Prelude.{
  ℕ, zero, suc, ◌+◌, ◌≤◌, ◌<◌, ◌≡◌, refl, ap, sym, ◌∙◌, inl, inr, Option, none, some, List, [], ◌∷◌,
  ◌++◌, append_assoc, append-nil, Bool-cases, arith, length, length-append, if◌then◌else◌, ne→eqb,
}
use mathlib.Core.Path.{subst}
use chat_project.Malloc.{Mem, malloc}
use chat_project.Queue
use chat_project.Queue.{Queue, QueueResult}
use chat_project.Queue.Refine.{Holds, insert-enqueue, remove-dequeue, create-Holds}
use chat_project.FreeMcQueue.{
  McastPair, FreeMcQueue, pair_of, pool_size, fill_pool, create, take, return,
}

-- The pool is in order, has its fixed size, and its free pairs are `xs`, the next one first.
abbrev pub HasFree : FreeMcQueue → List McastPair → Type 0
HasFree fmq xs = (q : Queue McastPair) × (fmq.pool ≡ some q) × Holds q xs × (q.size ≡ pool_size)

-- The pairs of the addresses from 239.1.1.`i` on, `n` of them.
abbrev pub pairs_from : ℕ → ℕ → List McastPair
pairs_from i zero = []
pairs_from i (suc n) = pair_of i ∷ pairs_from (i + 1) n

length-pairs_from : (i n : ℕ) → length (pairs_from i n) ≡ n
length-pairs_from i zero = refl
length-pairs_from i (suc n) = ap suc (length-pairs_from (i + 1) n)

insert-room :
    (q : Queue McastPair) (xs : List McastPair) (p : McastPair)
    → Holds q xs
    → length xs < q.size
    → ((Queue.insert (some q) (some p)).0 ≡ QueueResult.success)
      × ((q' : Queue McastPair) × ((Queue.insert (some q) (some p)).1 ≡ some q')
          × Holds q' (xs ++ p ∷ [])
          × (q'.size ≡ q.size))
insert-room q xs p h room =
    rw (ne→eqb (length xs) q.size (omega arith)) at (insert-enqueue q xs h p)

fill_pool-Holds :
    (n i : ℕ) (q : Queue McastPair) (xs : List McastPair)
    → Holds q xs
    → length xs + n ≤ q.size
    → (q' : Queue McastPair) × (fill_pool n i (some q) [] ≡ (some q', []))
      × Holds q' (xs ++ pairs_from i n)
      × (q'.size ≡ q.size)
unfolding fill_pool
fill_pool-Holds zero i q xs h room = (q, refl, subst (Holds q) (sym (append-nil xs)) h, refl)
fill_pool-Holds (suc n) i q xs h room =
    let (_, (q1, run1, h1, s1)) = insert-room q xs (pair_of i) h (omega arith) in
    let (q2, run2, h2, s2) =
      fill_pool-Holds n (i + 1) q1 (xs ++ pair_of i ∷ []) h1
        (omega (arith, length-append xs (pair_of i ∷ []))) in
    (
      q2,
      ap (λ p. fill_pool n (i + 1) p []) run1 ∙ run2,
      subst (Holds q2) (append_assoc xs (pair_of i ∷ []) (pairs_from (i + 1) n)) h2,
      s2 ∙ s1,
    )

abbrev filled_from : Option (Queue McastPair) × Mem → Option FreeMcQueue × Mem
filled_from r = elim r.0 [
  | none ↦ (none, r.1)
  | some q ↦
      let (filled, mem) = fill_pool pool_size 1 (some q) r.1 in
      (some (record { pool = filled }), mem)
]

abbrev wrapped : Option (Queue McastPair) × Mem → Option FreeMcQueue × Mem
wrapped r = (some (record { pool = r.0 }), r.1)

created :
    (q q' : Queue McastPair)
    → Queue.create pool_size [] ≡ (some q, [])
    → fill_pool pool_size 1 (some q) [] ≡ (some q', [])
    → create [] ≡ (some (record { pool = some q' }), [])
unfolding create
created q q' run run' = ap filled_from run ∙ ap wrapped run'

-- If no allocation fails, the pool is created with the 255 addresses from 239.1.1.1 to 239.1.1.255, in
-- this order.
pub create-HasFree :
    (fmq : FreeMcQueue) × (create [] ≡ (some fmq, [])) × HasFree fmq (pairs_from 1 pool_size)
create-HasFree =
    let (q, run, h, size) = create-Holds {A = McastPair} 255 (omega arith) (omega arith) in
    let (q', run', h', size') = fill_pool-Holds 255 1 q [] h (omega arith) in
    (record { pool = some q' }, created q q' run run', (q', refl, h', size' ∙ size))

abbrev pub head_of {ℓ} : {A : Type ℓ} → List A → Option A
head_of [] = none
head_of (x ∷ xs) = some x

abbrev pub tail_of {ℓ} : {A : Type ℓ} → List A → List A
tail_of [] = []
tail_of (x ∷ xs) = xs

-- From a pool in order the pair that is free the longest is taken, or none if none is left.
pub take-HasFree :
    (fmq : FreeMcQueue) (xs : List McastPair)
    → HasFree fmq xs
    → ((take fmq).0 ≡ head_of xs) × HasFree (take fmq).1 (tail_of xs)
unfolding take
take-HasFree fmq [] (q, e, h, size) =
    let (r, item, (q', run, h', size')) = remove-dequeue q [] h in
    rw (e, r) (refl, (q', run, h', size' ∙ size))
take-HasFree fmq (x ∷ xs) (q, e, h, size) =
    let (r, item, (q', run, h', size')) = remove-dequeue q (x ∷ xs) h in
    rw (e, r, item) (refl, (q', run, h', size' ∙ size))

-- In a pool in order that is not full, a pair that is returned goes behind the free ones, unless the
-- allocation fails; then the same pairs are free as before.
pub return-HasFree :
    (fmq : FreeMcQueue) (xs : List McastPair) (p : McastPair) (mem : Mem)
    → HasFree fmq xs
    → length xs < pool_size
    → let (done, fmq', mem') = return fmq p mem in
      (done ≡ (malloc mem).0) × HasFree fmq' (if done then xs ++ p ∷ [] else xs)
unfolding return
return-HasFree fmq xs p mem (q, e, h, size) room = elim (Bool-cases (malloc mem).0) [
  | inl got ↦
      let (r, (q', run, h', size')) = insert-room q xs p h (omega (arith, size)) in
      rw (got, e, r) (refl, (q', run, h', size' ∙ size))
  | inr full ↦ rw full (refl, (q, e, h, size))
]
