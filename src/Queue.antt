-- ===== src/Queue.antt =====
-- The bounded queue of shared/adt/genqueue.c: a circular buffer of pointers. A NULL queue or item is
-- `none`; a slot of the fresh buffer that was never written is `none` as well.
pub mod Span
pub mod Refine
pub mod Walk
mod Tests
use chat_project.Prelude.{
  ℕ, zero, suc, ◌+◌, ◌-◌, ◌*◌, ◌/◌, ◌%◌, ◌^◌, Bool, true, false, Option, none, some, List, [], ◌∷◌,
  ◌==◌, ◌||◌, not, if◌then◌else◌, set, get_or, replicate,
}
use chat_project.Malloc.{Mem, malloc}

abbrev pub queue_magic_number : ℕ
queue_magic_number = 0xBEEFCAFE

-- `size_t` addition and multiplication
abbrev pub add_size : ℕ → ℕ → ℕ
add_size a b = (a + b) % 2 ^ 64

abbrev pub mul_size : ℕ → ℕ → ℕ
mul_size a b = (a * b) % 2 ^ 64

abbrev pub pointer_size : ℕ
pointer_size = 8

pub data QueueResult : Type 0 where
  success uninitialized_error overflow_error : QueueResult
  data_not_found_error data_uninitialized_error : QueueResult

-- `struct Queue`
pub record Queue {ℓ} (A : Type ℓ) : Type ℓ where
  pub items : List (Option A)
  pub size : ℕ
  pub head : ℕ
  pub tail : ℕ
  pub num_of_elements : ℕ
  pub magic : ℕ

module _ {ℓ} {A : Type ℓ} where
  -- The buffer has as many slots as the bytes that are asked of malloc hold.
  unfoldable pub create : ℕ → Mem → Option (Queue A) × Mem
  create size mem =
      if size == 0
      then (none, mem)
      else let (queue_ok, mem1) = malloc mem in
        if not queue_ok
        then (none, mem1)
        else let (items_ok, mem2) = malloc mem1 in
          if not items_ok then (none, mem2) else (
            some (record {
              items = replicate (mul_size size pointer_size / pointer_size) none;
              size = size;
              head = 0;
              tail = 0;
              num_of_elements = 0;
              magic = queue_magic_number;
            }),
            mem2,
          )

  unfoldable pub insert : Option (Queue A) → Option A → QueueResult × Option (Queue A)
  insert none item = (QueueResult.uninitialized_error, none)
  insert (some q) item =
      if not (q.magic == queue_magic_number)
      then (QueueResult.uninitialized_error, some q)
      else elim item [
        | none ↦ (QueueResult.data_uninitialized_error, some q)
        | some x ↦ if q.num_of_elements == q.size then (QueueResult.overflow_error, some q) else (
          QueueResult.success,
          some (record q {
            items = set q.items q.tail (some x);
            tail = add_size q.tail 1 % q.size;
            num_of_elements = add_size q.num_of_elements 1;
          }),
        )
      ]

  -- The item that goes to `*_item` is returned; `out` says whether `_item` is not NULL.
  unfoldable pub remove : Option (Queue A) → Bool → QueueResult × Option A × Option (Queue A)
  remove none out = (QueueResult.uninitialized_error, none, none)
  remove (some q) out =
      if not (q.magic == queue_magic_number)
      then (QueueResult.uninitialized_error, none, some q)
      else if not out
      then (QueueResult.data_uninitialized_error, none, some q)
      else if q.num_of_elements == 0
      then (QueueResult.data_not_found_error, none, some q)
      else (
        QueueResult.success,
        get_or q.items q.head none,
        some (record q {
          head = add_size q.head 1 % q.size;
          num_of_elements = q.num_of_elements - 1;
        }),
      )

  unfoldable pub is_empty : Option (Queue A) → ℕ
  is_empty none = 1
  is_empty (some q) =
      if not (q.magic == queue_magic_number) then 1 else if q.num_of_elements == 0 then 1 else 0

  -- The loop of `QueueForEach` with `n` rounds left; the context is a state.
  for_each_loop {κ} : {S : Type κ} → Queue A → (Option A → S → Bool × S) → ℕ → ℕ → ℕ → S → ℕ × S
  for_each_loop q action zero idx count context = (count, context)
  for_each_loop q action (suc n) idx count context =
      let (go_on, context') = action (get_or q.items idx none) context in
      let rest = for_each_loop q action n (add_size idx 1 % q.size) (add_size count 1) context' in
      if go_on then rest else (add_size count 1, context')

  unfoldable pub for_each {κ} :
      {S : Type κ} → Option (Queue A) → Option (Option A → S → Bool × S) → S → ℕ × S
  unfolding for_each_loop
  for_each (some q) (some action) context =
      if not (q.magic == queue_magic_number)
      then (0, context)
      else for_each_loop q action q.num_of_elements q.head 0 context
  for_each _ _ context = (0, context)

  -- The items that `QueueDestroy` hands to its callback, with `n` rounds left.
  destroy_loop : Queue A → ℕ → ℕ → List (Option A)
  destroy_loop q zero idx = []
  destroy_loop q (suc n) idx = get_or q.items idx none ∷ destroy_loop q n (add_size idx 1 % q.size)

  -- The destroyed items, and the queue pointer afterwards.
  unfoldable pub destroy : Option (Queue A) → Bool → List (Option A) × Option (Queue A)
  unfolding destroy_loop
  destroy none item_destroy = ([], none)
  destroy (some q) item_destroy =
      if not (q.magic == queue_magic_number)
      then ([], some q)
      else (if item_destroy then destroy_loop q q.num_of_elements q.head else [], none)
