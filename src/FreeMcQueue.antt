-- ===== src/FreeMcQueue.antt =====
-- The pool of free multicast addresses of server/free_mc_queue.c, a queue of address pairs. The NULL
-- tests on its arguments are left out: the group manager passes a pool and a pair that exist.
pub mod Pool
pub mod Tests
use Prim.Native.String.{String}
use Prim.Native.Char.{code}
use chat_project.Prelude.{
  ℕ, zero, suc, ◌+◌, ◌-◌, ◌/◌, ◌%◌, Bool, true, false, Option, none, some, List, [], ◌∷◌, ◌++◌, ltb,
  if◌then◌else◌,
}
use chat_project.Memory.{Bytes}
use chat_project.Malloc.{Mem, malloc}
use chat_project.Queue
use chat_project.Queue.{Queue, QueueResult}

pub record McastPair : Type 0 where
  pub ip : Bytes
  pub port : ℕ

-- `struct FreeMcQueue`
pub record FreeMcQueue : Type 0 where
  pub pool : Option (Queue McastPair)

abbrev pub chat_mcast_base_port : ℕ
chat_mcast_base_port = 6000

-- The bytes of an ASCII text.
abbrev pub codes : String → Bytes
codes String.[] = []
codes (String.◌∷◌ c s) = code c ∷ codes s

-- `%d` of a number below 1000
abbrev pub decimal : ℕ → Bytes
decimal n =
    if ltb n 10
    then (48 + n) ∷ []
    else if ltb n 100
    then (48 + n / 10) ∷ (48 + n % 10) ∷ []
    else (48 + n / 100) ∷ (48 + n / 10 % 10) ∷ (48 + n % 10) ∷ []

abbrev pub pair_of : ℕ → McastPair
pair_of i = record { ip = codes "239.1.1." ++ decimal i; port = chat_mcast_base_port }

abbrev pub pool_size : ℕ
pool_size = 255

-- The loop of `FreeMcQueue_Create` from `i` on, with `n` rounds left. A failed insertion frees the
-- pair, and the loop goes on.
unfoldable pub fill_pool : ℕ → ℕ → Option (Queue McastPair) → Mem → Option (Queue McastPair) × Mem
fill_pool zero i pool mem = (pool, mem)
fill_pool (suc n) i pool mem =
    let (pair_ok, mem1) = malloc mem in
    fill_pool n (i + 1) (if pair_ok then (Queue.insert pool (some (pair_of i))).1 else pool) mem1

unfoldable pub create : Mem → Option FreeMcQueue × Mem
create mem =
    let (fmq_ok, mem1) = malloc mem in
    if fmq_ok
    then (let (pool, mem2) = Queue.create pool_size mem1 in
        elim pool [
          | none ↦ (none, mem2)
          | some q ↦
              let (filled, mem3) = fill_pool pool_size 1 (some q) mem2 in
              (some (record { pool = filled }), mem3)
        ])
    else (none, mem1)

abbrev pub queue_ok : QueueResult → Bool
queue_ok QueueResult.success = true
queue_ok _ = false

-- The pair that is copied out, or `none` for the return value 0.
unfoldable pub take : FreeMcQueue → Option McastPair × FreeMcQueue
take fmq =
    let (r, item, pool) = Queue.remove fmq.pool true in
    (if queue_ok r then item else none, record { pool = pool })

unfoldable pub return : FreeMcQueue → McastPair → Mem → Bool × FreeMcQueue × Mem
return fmq pair mem =
    let (pair_ok, mem1) = malloc mem in
    if pair_ok
    then (let (r, pool) = Queue.insert fmq.pool (some pair) in
        (queue_ok r, record { pool = pool }, mem1))
    else (false, fmq, mem1)
