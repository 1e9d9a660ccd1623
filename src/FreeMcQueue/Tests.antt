-- ===== src/FreeMcQueue/Tests.antt =====
-- The pool of server/free_mc_queue.c with two free addresses.
use chat_project.Prelude.{
  ℕ, zero, suc, ◌<◌, ◌≡◌, refl, none, some, [], ◌∷◌, arith, replicate, get_elem?,
}
use chat_project.Queue.{Queue, queue_magic_number}
use chat_project.Queue.Refine.{Holds, slot}
use chat_project.FreeMcQueue.{McastPair, FreeMcQueue, pair_of}
use chat_project.FreeMcQueue.Pool.{HasFree}

abbrev two_queue : Queue McastPair
two_queue = record {
  items = some (pair_of 3) ∷ some (pair_of 4) ∷ replicate 253 none;
  size = 255;
  head = 0;
  tail = 2;
  num_of_elements = 2;
  magic = queue_magic_number;
}

abbrev pub two_free : FreeMcQueue
two_free = record { pool = some two_queue }

two_queue-slots : (i : ℕ) → i < 2 → slot two_queue i ≡ get_elem? (pair_of 3 ∷ pair_of 4 ∷ []) i
two_queue-slots zero h = refl
two_queue-slots (suc zero) h = refl
two_queue-slots (suc (suc i)) h = absurd (omega arith)

two_queue-Holds : Holds two_queue (pair_of 3 ∷ pair_of 4 ∷ [])
two_queue-Holds = record {
  magic_set = refl;
  roomy = omega arith;
  small = omega arith;
  wide = refl;
  head_lt = omega arith;
  tail_eq = refl;
  count = refl;
  fits = omega arith;
  slots = two_queue-slots;
}

pub two_free-HasFree : HasFree two_free (pair_of 3 ∷ pair_of 4 ∷ [])
two_free-HasFree = (two_queue, refl, two_queue-Holds, refl)
