-- ===== src/DList/Circle.antt =====
-- Chains of nodes in both directions, and what a splice does to them, for shared/adt/gen_dlist.c.
use chat_project.Prelude.{
  ◌≡◌, refl, Bool, true, false, List, [], ◌∷◌, ◌++◌, ◌==◌, ◌&&◌, ◌||◌, not, arith,
}
use chat_project.DList.{Ptr, null, update}

abbrev pub has : Ptr → List Ptr → Bool
has a [] = false
has a (p ∷ ps) = (a == p) || has a ps

-- No address comes twice.
abbrev pub distinct : List Ptr → Bool
distinct [] = true
distinct (p ∷ ps) = not (has p ps) && distinct ps

-- The last of `a ∷ ps`, and the first of `ps ++ b ∷ []`.
abbrev pub last_or : List Ptr → Ptr → Ptr
last_or [] a = a
last_or (p ∷ ps) a = last_or ps p

abbrev pub head_or : List Ptr → Ptr → Ptr
head_or [] b = b
head_or (p ∷ ps) b = p

-- From `a` the `next` pointers lead through `ps` to `b`, and the `prev` pointers lead back.
abbrev pub Chain : (Ptr → Ptr) → (Ptr → Ptr) → Ptr → List Ptr → Ptr → Type 0
Chain next prev a [] b = (next a ≡ b) × (prev b ≡ a)
Chain next prev a (p ∷ ps) b = (next a ≡ p) × (prev p ≡ a) × Chain next prev p ps b

pub has-append : (a : Ptr) (ps qs : List Ptr) → has a (ps ++ qs) ≡ (has a ps || has a qs)
has-append a [] qs = refl
has-append a (p ∷ ps) qs = ground (arith, has-append a ps qs)

pub last_or-has : (ps : List Ptr) (a : Ptr) → has (last_or ps a) (a ∷ ps) ≡ true
last_or-has [] a = ground arith
last_or-has (p ∷ ps) a = ground (arith, last_or-has ps p)

pub head_or-has : (ps : List Ptr) (b : Ptr) → (has (head_or ps b) ps || head_or ps b == b) ≡ true
head_or-has [] b = ground arith
head_or-has (p ∷ ps) b = ground arith

pub last_or-snoc : (ps : List Ptr) (p a : Ptr) → last_or (ps ++ p ∷ []) a ≡ p
last_or-snoc [] p a = refl
last_or-snoc (q ∷ ps) p a = last_or-snoc ps p q

-- A chain depends on its own nodes only.
pub Chain-frame :
    {next prev next' prev' : Ptr → Ptr} (a : Ptr) (ps : List Ptr) (b : Ptr)
    → Chain next prev a ps b
    → ((x : Ptr) → has x (a ∷ ps) ≡ true → next' x ≡ next x)
    → ((x : Ptr) → has x (ps ++ b ∷ []) ≡ true → prev' x ≡ prev x)
    → Chain next' prev' a ps b
Chain-frame a [] b (n, p) same_next same_prev =
    (ground (arith, same_next a), ground (arith, same_prev b))
Chain-frame a (q ∷ ps) b (n, p, rest) same_next same_prev = (
  ground (arith, same_next a),
  ground (arith, same_prev q),
  Chain-frame q ps b rest (λ x i. same_next x (ground arith)) (λ x i. same_prev x (ground arith)),
)

-- A node `n` that is put between the last of `a ∷ ps` and the first of `qs ++ b ∷ []`.
pub Chain-insert :
    (next prev : Ptr → Ptr) (a : Ptr) (ps qs : List Ptr) (b n : Ptr)
    → Chain next prev a (ps ++ qs) b
    → distinct (ps ++ qs) ≡ true
    → has a (ps ++ qs) ≡ false
    → has b (ps ++ qs) ≡ false
    → has n (a ∷ b ∷ ps ++ qs) ≡ false
    → Chain
        (update (update next n (head_or qs b)) (last_or ps a) n)
        (update (update prev n (last_or ps a)) (head_or qs b) n)
        a
        (ps ++ n ∷ qs)
        b
Chain-insert next prev a [] [] b n (na, pb) d oa ob on =
    (ground arith, ground arith, (ground arith, ground arith))
Chain-insert next prev a [] (q ∷ qs) b n (na, pq, rest) d oa ob on = (
  ground arith,
  ground arith,
  (
    ground arith,
    ground arith,
    Chain-frame q qs b rest (λ x i. ground arith) (λ x i. ground (arith, has-append x qs (b ∷ []))),
  ),
)
Chain-insert next prev a (p ∷ ps) qs b n (na, pp, rest) d oa ob on = (
  ground (arith, last_or-has ps p, has-append (last_or ps p) ps qs),
  ground (arith, head_or-has qs b, has-append (head_or qs b) ps qs),
  Chain-insert next prev p ps qs b n rest (ground arith) (ground arith) (ground arith)
      (ground arith),
)

-- A node `n` that is taken out from between the last of `a ∷ ps` and the first of `qs ++ b ∷ []`.
pub Chain-remove :
    (next prev : Ptr → Ptr) (a : Ptr) (ps qs : List Ptr) (b n : Ptr)
    → Chain next prev a (ps ++ n ∷ qs) b
    → distinct (ps ++ n ∷ qs) ≡ true
    → has a (ps ++ n ∷ qs) ≡ false
    → has b (ps ++ n ∷ qs) ≡ false
    → Chain
        (update (update next (last_or ps a) (head_or qs b)) n null)
        (update (update prev (head_or qs b) (last_or ps a)) n null)
        a
        (ps ++ qs)
        b
Chain-remove next prev a [] [] b n (na, pn, (nn, pb)) d oa ob = (ground arith, ground arith)
Chain-remove next prev a [] (q ∷ qs) b n (na, pn, (nn, pq, rest)) d oa ob = (
  ground arith,
  ground arith,
  Chain-frame q qs b rest (λ x i. ground arith) (λ x i. ground (arith, has-append x qs (b ∷ []))),
)
Chain-remove next prev a (p ∷ ps) qs b n (na, pp, rest) d oa ob = (
  ground (arith, last_or-has ps p, has-append (last_or ps p) ps (n ∷ qs), has-append n ps (n ∷ qs)),
  ground (arith, head_or-has qs b, has-append (head_or qs b) ps (n ∷ qs), has-append p ps (n ∷ qs)),
  Chain-remove next prev p ps qs b n rest (ground arith) (ground arith) (ground arith),
)

-- The neighbours across a split, and those of a node.
pub Chain-across :
    (next prev : Ptr → Ptr) (a : Ptr) (ps qs : List Ptr) (b : Ptr)
    → Chain next prev a (ps ++ qs) b
    → (next (last_or ps a) ≡ head_or qs b) × (prev (head_or qs b) ≡ last_or ps a)
Chain-across next prev a [] [] b c = c
Chain-across next prev a [] (q ∷ qs) b (n, p, rest) = (n, p)
Chain-across next prev a (p ∷ ps) qs b (na, pp, rest) = Chain-across next prev p ps qs b rest

pub Chain-around :
    (next prev : Ptr → Ptr) (a : Ptr) (ps qs : List Ptr) (b n : Ptr)
    → Chain next prev a (ps ++ n ∷ qs) b
    → (next n ≡ head_or qs b) × (prev n ≡ last_or ps a)
Chain-around next prev a [] [] b n (na, pn, (nn, pb)) = (nn, pn)
Chain-around next prev a [] (q ∷ qs) b n (na, pn, (nn, pq, rest)) = (nn, pn)
Chain-around next prev a (p ∷ ps) qs b n (na, pp, rest) = Chain-around next prev p ps qs b n rest

-- Where no address comes twice before an insertion, none does after it, and the other way round.
pub distinct-insert :
    (ps qs : List Ptr) (n : Ptr)
    → distinct (ps ++ n ∷ qs) ≡ (not (has n (ps ++ qs)) && distinct (ps ++ qs))
distinct-insert [] qs n = refl
distinct-insert (p ∷ ps) qs n =
    ground (arith, distinct-insert ps qs n, has-append p ps (n ∷ qs), has-append p ps qs)

pub has-insert :
    (a : Ptr) (ps qs : List Ptr) (n : Ptr) → has a (ps ++ n ∷ qs) ≡ ((a == n) || has a (ps ++ qs))
has-insert a ps qs n = ground (arith, has-append a ps (n ∷ qs), has-append a ps qs)

-- The part behind `ps`.
pub Chain-suffix :
    (next prev : Ptr → Ptr) (a : Ptr) (ps qs : List Ptr) (b : Ptr)
    → Chain next prev a (ps ++ qs) b
    → Chain next prev (last_or ps a) qs b
Chain-suffix next prev a [] qs b c = c
Chain-suffix next prev a (p ∷ ps) qs b (_, _, c) = Chain-suffix next prev p ps qs b c

pub distinct-suffix :
    (a : Ptr) (ps qs : List Ptr) → distinct (a ∷ ps ++ qs) ≡ true → distinct (a ∷ qs) ≡ true
distinct-suffix a [] qs d = d
distinct-suffix a (p ∷ ps) qs d = distinct-suffix a ps qs (ground arith)
