-- ===== src/Queue/Tests.antt =====
-- The queue of shared/adt/genqueue.c on a buffer of three slots whose items wrap round.
use chat_project.Prelude.{
  ℕ, zero, suc, ◌<◌, ◌≡◌, refl, Bool, true, false, Option, none, some, List, [], ◌∷◌, arith,
  get_elem?,
}
use chat_project.Queue.{Queue, QueueResult, queue_magic_number, insert, remove}
use chat_project.Queue.Refine.{Holds, slot, insert-enqueue, remove-dequeue}

-- The items 7 and 8, oldest first, in the last and in the first slot.
abbrev wrapped_queue : Queue ℕ
wrapped_queue = record {
  items = some 8 ∷ none ∷ some 7 ∷ [];
  size = 3;
  head = 2;
  tail = 1;
  num_of_elements = 2;
  magic = queue_magic_number;
}

wrapped_queue-slots : (i : ℕ) → i < 2 → slot wrapped_queue i ≡ get_elem? (7 ∷ 8 ∷ []) i
wrapped_queue-slots zero h = refl
wrapped_queue-slots (suc zero) h = refl
wrapped_queue-slots (suc (suc i)) h = absurd (omega arith)

wrapped_queue-Holds : Holds wrapped_queue (7 ∷ 8 ∷ [])
wrapped_queue-Holds = record {
  magic_set = refl;
  roomy = omega arith;
  small = omega arith;
  wide = refl;
  head_lt = omega arith;
  tail_eq = refl;
  count = refl;
  fits = omega arith;
  slots = wrapped_queue-slots;
}

insert-enqueue_example :
    ((insert (some wrapped_queue) (some 9)).0 ≡ QueueResult.success)
    × ((q : Queue ℕ) × ((insert (some wrapped_queue) (some 9)).1 ≡ some q)
        × Holds q (7 ∷ 8 ∷ 9 ∷ [])
        × (q.size ≡ 3))
insert-enqueue_example = insert-enqueue wrapped_queue (7 ∷ 8 ∷ []) wrapped_queue-Holds 9

remove-dequeue_example :
    ((remove (some wrapped_queue) true).0 ≡ QueueResult.success)
    × ((remove (some wrapped_queue) true).1 ≡ some 7)
    × ((q : Queue ℕ) × ((remove (some wrapped_queue) true).2 ≡ some q)
        × Holds q (8 ∷ [])
        × (q.size ≡ 3))
remove-dequeue_example = remove-dequeue wrapped_queue (7 ∷ 8 ∷ []) wrapped_queue-Holds

abbrev first_only : Option ℕ → List (Option ℕ) → Bool × List (Option ℕ)
first_only item seen = (false, item ∷ seen)
