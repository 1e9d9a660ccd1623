-- ===== src/Queue/Walk.antt =====
-- The loops of shared/adt/genqueue.c over the items of a queue, from the oldest to the newest.
use chat_project.Prelude.{
  ℕ, suc, ◌+◌, ◌%◌, ◌^◌, ◌<◌, ◌≡◌, refl, ap, ap₂, sym, ◌∙◌, Bool, true, Option, none, some, List,
  [], ◌∷◌, if◌then◌else◌, arith, length, get_or, get_elem?,
}
use native.Mathlib.Nat.{mod-eq_of_lt, mod-lt}
use chat_project.Queue.{Queue, add_size, for_each_loop, for_each, destroy_loop, destroy}
use chat_project.Queue.Span.{mod_shift}
use chat_project.Queue.Refine.{Holds, magic_test}

abbrev pub all_some {ℓ} : {A : Type ℓ} → List A → List (Option A)
all_some [] = []
all_some (x ∷ xs) = some x ∷ all_some xs

-- The action runs over the items up to and including the first one at which it returns 0.
abbrev pub visited {ℓ κ} :
    {A : Type ℓ} {S : Type κ} → (Option A → S → Bool × S) → List A → ℕ → S → ℕ × S
visited action [] count context = (count, context)
visited action (x ∷ xs) count context =
    let (go_on, context') = action (some x) context in
    let rest = visited action xs (count + 1) context' in
    if go_on then rest else (count + 1, context')

module _ {ℓ} {A : Type ℓ} (q : Queue A) (roomy : 0 < q.size) (small : q.size < 2 ^ 61) where
  -- The slots from `h` on hold `xs`.
  abbrev RunAt : ℕ → List A → Type ℓ
  RunAt h xs = (i : ℕ) → i < length xs → get_or q.items ((h + i) % q.size) none ≡ get_elem? xs i

  first :
      (h : ℕ) (x : A) (xs : List A) → h < q.size → RunAt h (x ∷ xs) → get_or q.items h none ≡ some x
  first h x xs lt run =
      ap (λ t. get_or q.items t none)
        (sym (ap (λ t. t % q.size) (let e : h + 0 ≡ h = omega arith in e) ∙ mod-eq_of_lt lt))
      ∙ run 0 (omega arith)

  next :
      (h : ℕ) (x : A) (xs : List A)
      → h < q.size
      → RunAt h (x ∷ xs)
      → RunAt (add_size h 1 % q.size) xs
  next h x xs lt run i at =
      let step : add_size h 1 ≡ h + 1 = omega (arith, small) in
      ap (λ t. get_or q.items ((t % q.size + i) % q.size) none) step
      ∙ ap (λ t. get_or q.items t none) (mod_shift q.size h i)
      ∙ run (suc i) (omega arith)

  destroy_loop-all :
      (xs : List A) (h : ℕ) → h < q.size → RunAt h xs → destroy_loop q (length xs) h ≡ all_some xs
  unfolding destroy_loop
  destroy_loop-all [] h lt run = refl
  destroy_loop-all (x ∷ xs) h lt run = ap₂ ◌∷◌ (first h x xs lt run) (
      destroy_loop-all xs (add_size h 1 % q.size) (mod-lt (add_size h 1) roomy)
        (next h x xs lt run))

  for_each_loop-visited {κ} :
      {S : Type κ} (action : Option A → S → Bool × S) (xs : List A) (h n : ℕ) (s : S)
      → h < q.size
      → n + length xs < 2 ^ 64
      → RunAt h xs
      → for_each_loop q action (length xs) h n s ≡ visited action xs n s
  unfolding for_each_loop
  for_each_loop-visited action [] h n s lt count run = refl
  for_each_loop-visited action (x ∷ xs) h n s lt count run =
      let counted : add_size n 1 ≡ n + 1 = omega arith in
      let rest =
        for_each_loop-visited action xs (add_size h 1 % q.size) (n + 1) (action (some x) s).1
          (mod-lt (add_size h 1) roomy) (omega arith) (next h x xs lt run) in
      rw (first h x xs lt run, counted, rest)

module _ {ℓ} {A : Type ℓ} (q : Queue A) (xs : List A) (h : Holds q xs) where
  -- On a queue in order `QueueForEach` runs the action over the items, oldest first, up to the first
  -- 0, and returns how many items it has run over.
  pub for_each-items {κ} :
      {S : Type κ} (action : Option A → S → Bool × S) (s : S)
      → for_each (some q) (some action) s ≡ visited action xs 0 s
  unfolding for_each
  for_each-items action s = rw (magic_test q xs h) (
      ap (λ n. for_each_loop q action n q.head 0 s) h.count
      ∙ for_each_loop-visited q h.roomy h.small action xs q.head 0 s h.head_lt
          (omega (arith, h.fits, h.small)) h.slots)

  -- `QueueDestroy` hands each item once to its callback, oldest first, and leaves a NULL pointer.
  pub destroy-all : destroy (some q) true ≡ (all_some xs, none)
  unfolding destroy
  destroy-all = rw (magic_test q xs h) (
      ap (λ t. (t, none))
        (ap (λ n. destroy_loop q n q.head) h.count
          ∙ destroy_loop-all q h.roomy h.small xs q.head h.head_lt h.slots))
