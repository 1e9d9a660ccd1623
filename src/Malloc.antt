-- ===== src/Malloc.antt =====
-- Allocation as the program sees it: each call of malloc or calloc succeeds or returns NULL.
use chat_project.Prelude.{ℕ, suc, ◌+◌, ◌≡◌, refl, Bool, true, false, List, [], ◌∷◌, arith}

-- The outcomes of the coming calls, first one first; beyond the list all calls succeed.
abbrev pub Mem : Type 0
Mem = List Bool

abbrev pub malloc : Mem → Bool × Mem
malloc [] = (true, [])
malloc (ok ∷ mem) = (ok, mem)

-- How many of the coming calls return NULL.
abbrev pub failures : Mem → ℕ
failures [] = 0
failures (true ∷ mem) = failures mem
failures (false ∷ mem) = suc (failures mem)

pub failures-malloc_ok :
    (mem : Mem) → (malloc mem).0 ≡ true → failures mem ≡ failures (malloc mem).1
failures-malloc_ok [] e = refl
failures-malloc_ok (true ∷ mem) e = refl
failures-malloc_ok (false ∷ mem) e = absurd cc

pub failures-malloc_null :
    (mem : Mem) → (malloc mem).0 ≡ false → failures mem ≡ failures (malloc mem).1 + 1
failures-malloc_null [] e = absurd cc
failures-malloc_null (true ∷ mem) e = absurd cc
failures-malloc_null (false ∷ mem) e = omega arith
