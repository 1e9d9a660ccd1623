-- ===== src/HashMap/Walk.antt =====
-- The two walks of shared/adt/HashMap.c over all buckets: `HashMap_ForEach`, whose context is a state
-- that the action changes, and `HashMap_Destroy`, as the calls that it makes of the two callbacks.
use chat_project.Prelude.{
  ℕ, suc, ◌+◌, ◌≡◌, refl, ap, ◌∙◌, Bool, true, false, Option, none, some, List, [], ◌∷◌, ◌++◌,
  if◌then◌else◌, arith, length, length-append, Bool-cases, inl, inr,
}
use mathlib.Core.Path.{fun_ext}
use chat_project.HashMap.{HashMap}
use chat_project.HashMap.Chains.{Chain}
use chat_project.HashMap.Buckets.{chain_of, total, IsValid}

-- Whether the action has stopped the walk, the count and the context.
abbrev pub resume {ℓ} : {S : Type ℓ} → Bool × ℕ × S → (ℕ → S → ℕ × S) → ℕ × S
resume (true, n, s) k = (n, s)
resume (false, n, s) k = k n s

module _ {ℓ} {K V S : Type ℓ} (action : K → V → S → Bool × S) where
  walk_chain : Chain K V → ℕ → S → Bool × ℕ × S
  walk_chain [] count context = (false, count, context)
  walk_chain ((k, v) ∷ c) count context =
      let (go_on, context') = action k v context in
      let rest = walk_chain c (count + 1) context' in
      if go_on then rest else (true, count + 1, context')

  walk_buckets : List (Option (Chain K V)) → ℕ → S → ℕ × S
  walk_buckets [] count context = (count, context)
  walk_buckets (none ∷ bs) count context = walk_buckets bs count context
  walk_buckets (some c ∷ bs) count context = resume (walk_chain c count context) (walk_buckets bs)

unfoldable pub for_each {ℓ} :
    {K V S : Type ℓ} → Option (HashMap K V) → Option (K → V → S → Bool × S) → S → ℕ × S
unfolding walk_chain walk_buckets
for_each (some m) (some action) context = walk_buckets action m.buckets 0 context
for_each _ _ context = (0, context)

-- A call of one of the callbacks of `HashMap_Destroy`.
pub data Destroyed {ℓ} (K V : Type ℓ) : Type ℓ where
  key : K → Destroyed K V
  value : V → Destroyed K V

module _ {ℓ} {K V : Type ℓ} (key_destroy val_destroy : Bool) where
  pub destroy_single_bucket : Chain K V → List (Destroyed K V)
  destroy_single_bucket [] = []
  destroy_single_bucket ((k, v) ∷ c) =
      (if key_destroy then Destroyed.key k ∷ [] else [])
      ++ ((if val_destroy then Destroyed.value v ∷ [] else []) ++ destroy_single_bucket c)

  pub destroy_buckets : List (Option (Chain K V)) → List (Destroyed K V)
  destroy_buckets [] = []
  destroy_buckets (none ∷ bs) = destroy_buckets bs
  destroy_buckets (some c ∷ bs) = destroy_single_bucket c ++ destroy_buckets bs

-- The map pointer is NULL afterwards.
unfoldable pub destroy {ℓ} :
    {K V : Type ℓ}
    → Option (HashMap K V)
    → Bool
    → Bool
    → List (Destroyed K V) × Option (HashMap K V)
unfolding destroy_buckets destroy_single_bucket
destroy none key_destroy val_destroy = ([], none)
destroy (some m) key_destroy val_destroy = (destroy_buckets key_destroy val_destroy m.buckets, none)

-- All pairs of the map, bucket by bucket.
abbrev pub entries {ℓ} : {K V : Type ℓ} → List (Option (Chain K V)) → Chain K V
entries [] = []
entries (b ∷ bs) = chain_of b ++ entries bs

pub length-entries {ℓ} :
    {K V : Type ℓ} (bs : List (Option (Chain K V))) → length (entries bs) ≡ total bs
length-entries [] = refl
length-entries (b ∷ bs) = omega (arith, length-append (chain_of b) (entries bs), length-entries bs)

module _ {ℓ} {K V S : Type ℓ} (action : K → V → S → Bool × S) where
  -- The action runs over the pairs up to and including the first one at which it returns 0.
  abbrev pub visited : Chain K V → ℕ → S → ℕ × S
  visited [] count context = (count, context)
  visited ((k, v) ∷ c) count context =
      let (go_on, context') = action k v context in
      let rest = visited c (count + 1) context' in if go_on then rest else (count + 1, context')

  walk_chain-visited :
      (c rest : Chain K V) (n : ℕ) (s : S)
      → resume (walk_chain action c n s) (visited rest) ≡ visited (c ++ rest) n s
  unfolding walk_chain
  walk_chain-visited [] rest n s = refl
  walk_chain-visited ((k, v) ∷ c) rest n s = elim (Bool-cases (action k v s).0) [
    | inl e ↦ rw e (walk_chain-visited c rest (n + 1) ((action k v s).1))
    | inr e ↦ rw e
  ]

  walk_buckets-visited :
      (bs : List (Option (Chain K V))) (n : ℕ) (s : S)
      → walk_buckets action bs n s ≡ visited (entries bs) n s
  unfolding walk_buckets
  walk_buckets-visited [] n s = refl
  walk_buckets-visited (none ∷ bs) n s = walk_buckets-visited bs n s
  walk_buckets-visited (some c ∷ bs) n s =
      ap (resume (walk_chain action c n s))
        (fun_ext λ n'. fun_ext λ s'. walk_buckets-visited bs n' s')
      ∙ walk_chain-visited c (entries bs) n s

  -- `HashMap_ForEach` runs the action over the pairs in bucket order up to the first 0.
  pub for_each-visited :
      (m : HashMap K V) (s : S)
      → for_each (some m) (some action) s ≡ visited (entries m.buckets) 0 s
  unfolding for_each
  for_each-visited m s = walk_buckets-visited m.buckets 0 s

  visited_all :
      (c : Chain K V) (n : ℕ) (s : S)
      → ((k : K) (v : V) (t : S) → (action k v t).0 ≡ true)
      → (visited c n s).0 ≡ n + length c
  visited_all [] n s h = omega arith
  visited_all ((k, v) ∷ c) n s h =
      rw (h k v s, visited) (visited_all c (n + 1) ((action k v s).1) h ∙ omega arith)

  -- On a valid map an action that never stops the walk is run as many times as the map counts pairs.
  pub for_each-size :
      (m : HashMap K V) (s : S)
      → IsValid m
      → ((k : K) (v : V) (t : S) → (action k v t).0 ≡ true)
      → (for_each (some m) (some action) s).0 ≡ m.size
  for_each-size m s v h =
      ap (λ r. r.0) (for_each-visited m s)
      ∙ visited_all (entries m.buckets) 0 s h
      ∙ omega (arith, length-entries m.buckets, v.counted)

module _ {ℓ} {K V : Type ℓ} where
  abbrev pub values : Chain K V → List (Destroyed K V)
  values [] = []
  values ((k, v) ∷ c) = Destroyed.value v ∷ values c

  destroy_single_bucket-values :
      (c rest : Chain K V) → destroy_single_bucket false true c ++ values rest ≡ values (c ++ rest)
  unfolding destroy_single_bucket
  destroy_single_bucket-values [] rest = refl
  destroy_single_bucket-values ((k, v) ∷ c) rest =
      ap (λ t. Destroyed.value v ∷ t) (destroy_single_bucket-values c rest)

  destroy_buckets-values :
      (bs : List (Option (Chain K V))) → destroy_buckets false true bs ≡ values (entries bs)
  unfolding destroy_buckets
  destroy_buckets-values [] = refl
  destroy_buckets-values (none ∷ bs) = destroy_buckets-values bs
  destroy_buckets-values (some c ∷ bs) =
      ap (λ t. destroy_single_bucket false true c ++ t) (destroy_buckets-values bs)
      ∙ destroy_single_bucket-values c (entries bs)

  length-values : (c : Chain K V) → length (values c) ≡ length c
  length-values [] = refl
  length-values ((k, v) ∷ c) = ap suc (length-values c)

  -- With a callback for the values only, the destruction of a valid map runs it once for each pair,
  -- as many times as the map counts, and leaves a NULL map.
  pub destroy-values :
      (m : HashMap K V)
      → IsValid m
      → (destroy (some m) false true ≡ (values (entries m.buckets), none))
        × (length (destroy (some m) false true).0 ≡ m.size)
  unfolding destroy
  destroy-values m v = (
    ap (λ t. (t, none)) (destroy_buckets-values m.buckets),
    ap length (destroy_buckets-values m.buckets)
        ∙ length-values (entries m.buckets)
        ∙ omega (arith, length-entries m.buckets, v.counted),
  )
