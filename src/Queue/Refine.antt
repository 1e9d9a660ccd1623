-- ===== src/Queue/Refine.antt =====
-- The queue of shared/adt/genqueue.c holds a sequence of items, oldest first: it is a first-in
-- first-out queue of bounded length.
use chat_project.Prelude.{
  ℕ, suc, ◌+◌, ◌-◌, ◌*◌, ◌/◌, ◌%◌, ◌^◌, ◌≤◌, ◌<◌, ◌≡◌, ◌≢◌, refl, ap, sym, ◌∙◌, true, false, Option,
  none, some, List, [], ◌∷◌, ◌++◌, ◌==◌, if◌then◌else◌, arith, length, length-append, set,
  length-set, get_or, get_or-set, get_elem?, replicate, length-replicate, Bool-cases, inl, inr,
  ne→eqb,
}
use native.Mathlib.Nat.{mod-add-mod, mod-eq_of_lt, mod-lt}
use native.Mathlib.Decide.{ℕ_discrete}
use chat_project.Queue.{
  Queue, QueueResult, queue_magic_number, add_size, create, insert, remove, is_empty,
}
use chat_project.Queue.Span.{mod_ne, mod_shift, get_elem?-append_lt, get_elem?-append_length}

module _ {ℓ} {A : Type ℓ} where
  -- The slot `i` places behind the head.
  abbrev pub slot : Queue A → ℕ → Option A
  slot q i = get_or q.items ((q.head + i) % q.size) none

  -- The queue is in order, and its slots from the head on hold `xs`.
  pub record Holds (q : Queue A) (xs : List A) : Type ℓ where
    pub magic_set : q.magic ≡ queue_magic_number
    pub roomy : 0 < q.size
    pub small : q.size < 2 ^ 61
    pub wide : length q.items ≡ q.size
    pub head_lt : q.head < q.size
    pub tail_eq : q.tail ≡ (q.head + q.num_of_elements) % q.size
    pub count : q.num_of_elements ≡ length xs
    pub fits : length xs ≤ q.size
    pub slots : (i : ℕ) → i < length xs → slot q i ≡ get_elem? xs i

  -- The abstract queue: at most `cap` items, oldest first.
  abbrev pub enqueue : ℕ → List A → A → QueueResult × List A
  enqueue cap xs x =
      if length xs == cap
      then (QueueResult.overflow_error, xs)
      else (QueueResult.success, xs ++ x ∷ [])

  abbrev pub dequeue : List A → QueueResult × Option A × List A
  dequeue [] = (QueueResult.data_not_found_error, none, [])
  dequeue (x ∷ xs) = (QueueResult.success, some x, xs)

  -- If no allocation fails, a queue of a positive size below 2^61 is created, in order and empty.
  pub create-Holds :
      (size : ℕ)
      → 0 < size
      → size < 2 ^ 61
      → (q : Queue A) × (create size [] ≡ (some q, [])) × Holds q [] × (q.size ≡ size)
  unfolding create
  create-Holds size pos small = (
    record {
      items = replicate ((size * 8) % 2 ^ 64 / 8) none;
      size = size;
      head = 0;
      tail = 0;
      num_of_elements = 0;
      magic = queue_magic_number;
    },
    rw (ne→eqb size 0 (omega arith)),
    record {
      magic_set = refl;
      roomy = pos;
      small = small;
      wide = length-replicate ((size * 8) % 2 ^ 64 / 8) none ∙ omega arith;
      head_lt = pos;
      tail_eq = sym (mod-eq_of_lt pos);
      count = refl;
      fits = omega arith;
      slots = λ i h. absurd (omega arith);
    },
    refl,
  )

  module _ (q : Queue A) (xs : List A) (h : Holds q xs) where
    pub magic_test : (q.magic == queue_magic_number) ≡ true
    magic_test = ap (λ n. n == queue_magic_number) h.magic_set

    abbrev inserted : A → Queue A
    inserted x = record q {
      items = set q.items q.tail (some x);
      tail = add_size q.tail 1 % q.size;
      num_of_elements = add_size q.num_of_elements 1;
    }

    tail_lt : q.tail < q.size
    tail_lt = rw h.tail_eq (omega (arith, h.roomy))

    tail_step : add_size q.tail 1 % q.size ≡ (q.head + add_size q.num_of_elements 1) % q.size
    tail_step =
        let step : add_size q.tail 1 ≡ q.tail + 1 = omega (arith, tail_lt, h.small) in
        let grown : q.head + add_size q.num_of_elements 1 ≡ q.head + q.num_of_elements + 1 =
          omega (arith, h.count, h.fits, h.small) in
        ap (λ t. t % q.size) step
        ∙ ap (λ t. (t + 1) % q.size) h.tail_eq
        ∙ mod-add-mod (q.head + q.num_of_elements) q.size 1
        ∙ ap (λ t. t % q.size) (sym grown)

    slot-inserted :
        (x : A) (i : ℕ)
        → length xs < q.size
        → i < length xs + 1
        → slot (inserted x) i ≡ get_elem? (xs ++ x ∷ []) i
    slot-inserted x i room lt =
        let at = (q.head + i) % q.size in
        let read = get_or-set q.items q.tail at (some x) none (omega (arith, tail_lt, h.wide)) in
        elim (ℕ_discrete i (length xs)) [
          | yes last ↦
              let here : q.tail ≡ at =
                h.tail_eq ∙ ap (λ n. (q.head + n) % q.size) (h.count ∙ sym last) in
              read ∙ ground (arith, get_elem?-append_length xs x i last)
          | no before ↦
              let apart : q.tail ≢ at = λ e.
                mod_ne q.size q.head i (length xs) h.head_lt (omega arith) room
                  (sym e ∙ h.tail_eq ∙ ap (λ n. (q.head + n) % q.size) h.count) in
              read
              ∙ ground
                  (arith, get_elem?-append_lt xs (x ∷ []) i (omega arith), h.slots i (omega arith))
        ]

    inserted-Holds : (x : A) → length xs < q.size → Holds (inserted x) (xs ++ x ∷ [])
    inserted-Holds x room = record {
      magic_set = h.magic_set;
      roomy = h.roomy;
      small = h.small;
      wide = length-set q.items q.tail (some x) ∙ h.wide;
      head_lt = h.head_lt;
      tail_eq = tail_step;
      count = omega (arith, h.count, h.small, length-append xs (x ∷ []));
      fits = omega (arith, length-append xs (x ∷ []));
      slots = λ i lt. slot-inserted x i room (omega (arith, length-append xs (x ∷ [])));
    }

    -- On a queue in order an insertion answers as the bounded queue does, and leaves the queue in order
    -- with the items of the bounded queue and its size.
    pub insert-enqueue :
        (x : A)
        → let (r, out) = insert (some q) (some x) in
          (r ≡ (enqueue q.size xs x).0)
          × ((q' : Queue A) × (out ≡ some q')
              × Holds q' (enqueue q.size xs x).1
              × (q'.size ≡ q.size))
    unfolding insert
    insert-enqueue x = elim (Bool-cases (length xs == q.size)) [
      | inl full ↦
          rw (magic_test, ap (λ n. n == q.size) h.count ∙ full, full) (refl, (q, refl, h, refl))
      | inr room ↦
          rw (magic_test, ap (λ n. n == q.size) h.count ∙ room, room)
            (refl, (inserted x, refl, inserted-Holds x (ground (arith, room, h.fits)), refl))
    ]

    -- An insertion of a NULL item and a removal to a NULL pointer change nothing.
    pub null-unchanged :
        (insert (some q) none ≡ (QueueResult.data_uninitialized_error, some q))
        × (remove (some q) false ≡ (QueueResult.data_uninitialized_error, none, some q))
    unfolding insert remove
    null-unchanged = (rw magic_test, rw magic_test)

    pub is_empty-length : is_empty (some q) ≡ (if length xs == 0 then 1 else 0)
    unfolding is_empty
    is_empty-length = rw (magic_test, h.count)

module _ {ℓ} {A : Type ℓ} where
  removed-Holds :
      (q : Queue A) (x : A) (xs : List A)
      → Holds q (x ∷ xs)
      → Holds
          (record q { head = add_size q.head 1 % q.size; num_of_elements = q.num_of_elements - 1 })
          xs
  removed-Holds q x xs h =
      let step : add_size q.head 1 ≡ q.head + 1 = omega (arith, h.head_lt, h.small) in
      let moves : (i : ℕ) → (add_size q.head 1 % q.size + i) % q.size ≡ (q.head + suc i) % q.size =
        λ i. ap (λ t. (t % q.size + i) % q.size) step ∙ mod_shift q.size q.head i in
      record {
        magic_set = h.magic_set;
        roomy = h.roomy;
        small = h.small;
        wide = h.wide;
        head_lt = mod-lt (add_size q.head 1) h.roomy;
        tail_eq =
            h.tail_eq
            ∙ ap (λ n. (q.head + n) % q.size)
                (let e : q.num_of_elements ≡ suc (q.num_of_elements - 1) = omega (arith, h.count) in
                  e)
            ∙ sym (moves (q.num_of_elements - 1));
        count = omega (arith, h.count);
        fits = omega (arith, h.fits);
        slots = λ i lt. ap (λ t. get_or q.items t none) (moves i) ∙ h.slots (suc i) (omega arith);
      }

  -- On a queue in order a removal answers as the bounded queue does, with the oldest item, and leaves
  -- the queue in order with the others and its size.
  pub remove-dequeue :
      (q : Queue A) (xs : List A)
      → Holds q xs
      → let (r, item, out) = remove (some q) true in
        (r ≡ (dequeue xs).0)
        × (item ≡ (dequeue xs).1)
        × ((q' : Queue A) × (out ≡ some q') × Holds q' (dequeue xs).2 × (q'.size ≡ q.size))
  unfolding remove
  remove-dequeue q [] h =
      rw (magic_test q [] h, ap (λ n. n == 0) h.count) (refl, refl, (q, refl, h, refl))
  remove-dequeue q (x ∷ xs) h =
      rw
        (
          magic_test q (x ∷ xs) h,
          ap (λ n. n == 0) h.count ∙ ne→eqb (suc (length xs)) 0 (omega arith),
        )
        (refl, head_slot, (_, refl, removed-Holds q x xs h, refl))
    where
      head_slot : get_or q.items q.head none ≡ some x
      head_slot =
          ap (λ t. get_or q.items t none)
            (sym (
              ap (λ t. t % q.size) (let e : q.head + 0 ≡ q.head = omega arith in e)
              ∙ mod-eq_of_lt h.head_lt))
          ∙ h.slots 0 (omega arith)
