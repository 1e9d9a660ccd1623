-- ===== src/DList/Represents.antt =====
-- What a list of shared/adt/gen_dlist.c stands for: the sequence of its nodes, and of their items.
use chat_project.Prelude.{
  ◌≡◌, refl, true, false, Option, List, [], ◌∷◌, ◌++◌, ◌∙◌, ap, ap₂, ◌==◌, if◌then◌else◌, arith,
}
use chat_project.DList.{Ptr, Heap, null, update}
use chat_project.DList.Circle.{
  has, distinct, last_or, head_or, Chain, Chain-frame, has-append, last_or-has, head_or-has,
}

-- The list at `l` consists of the nodes `ps`, in this order.
pub record IsList {ℓ} {A : Type ℓ} (h : Heap A) (l : Ptr) (ps : List Ptr) : Type 0 where
  pub chain : Chain h.next h.prev l ps l
  pub apart : distinct (l ∷ ps) ≡ true
  pub live : (p : Ptr) → has p (l ∷ ps) ≡ true → h.alive p ≡ true
  pub marked : (p : Ptr) → has p (l ∷ ps) ≡ true → h.is_sentinel p ≡ (p == l)
  pub nonnull : has null (l ∷ ps) ≡ false

-- `h'` is like `h` at the node `p`.
pub record SameAt {ℓ} {A : Type ℓ} (h h' : Heap A) (p : Ptr) : Type ℓ where
  pub alive_eq : h'.alive p ≡ h.alive p
  pub item_eq : h'.item p ≡ h.item p
  pub next_eq : h'.next p ≡ h.next p
  pub prev_eq : h'.prev p ≡ h.prev p
  pub sentinel_eq : h'.is_sentinel p ≡ h.is_sentinel p

-- `h'` is like `h` at all nodes but those of `qs`.
abbrev pub SameOutside {ℓ} : {A : Type ℓ} → Heap A → Heap A → List Ptr → Type ℓ
SameOutside h h' qs = (p : Ptr) → has p qs ≡ false → SameAt h h' p

-- The two lists of addresses share none.
abbrev pub Apart : List Ptr → List Ptr → Type 0
Apart ps qs = (p : Ptr) → has p ps ≡ true → has p qs ≡ false

module _ {ℓ} {A : Type ℓ} where
  -- The items of the nodes `ps`.
  abbrev pub contents : (Ptr → Option A) → List Ptr → List (Option A)
  contents item [] = []
  contents item (p ∷ ps) = item p ∷ contents item ps

  pub contents-append :
      (item : Ptr → Option A) (ps qs : List Ptr)
      → contents item (ps ++ qs) ≡ contents item ps ++ contents item qs
  contents-append item [] qs = refl
  contents-append item (p ∷ ps) qs = ap (λ t. item p ∷ t) (contents-append item ps qs)

  -- A write to the data of a node leaves those of the others.
  pub contents-update :
      (item : Ptr → Option A) (n : Ptr) (v : Option A) (ps : List Ptr)
      → has n ps ≡ false
      → contents (update item n v) ps ≡ contents item ps
  contents-update item n v [] out = refl
  contents-update item n v (p ∷ ps) out =
      let other : (p == n) ≡ false = ground arith in
      ap₂ ◌∷◌ (ap (λ t. if t then v else item p) other) (contents-update item n v ps (ground arith))

  pub contents-insert :
      (item : Ptr → Option A) (n : Ptr) (v : Option A) (ps qs : List Ptr)
      → has n (ps ++ qs) ≡ false
      → contents (update item n v) (ps ++ n ∷ qs) ≡ contents item ps ++ v ∷ contents item qs
  contents-insert item n v [] qs out =
      let same : (n == n) ≡ true = ground arith in
      ap₂ ◌∷◌ (ap (λ t. if t then v else item n) same) (contents-update item n v qs out)
  contents-insert item n v (p ∷ ps) qs out =
      let other : (p == n) ≡ false = ground arith in
      ap₂ ◌∷◌ (ap (λ t. if t then v else item p) other)
        (contents-insert item n v ps qs (ground arith))

  module _ (h : Heap A) (l : Ptr) (ps qs : List Ptr) (is : IsList h l (ps ++ qs)) where
    -- The two ends of a split are nodes of the list, sentinel included.
    pub last_or-inside : has (last_or ps l) (l ∷ ps ++ qs) ≡ true
    last_or-inside = ground (arith, last_or-has ps l, has-append (last_or ps l) ps qs)

    pub head_or-inside : has (head_or qs l) (l ∷ ps ++ qs) ≡ true
    head_or-inside = ground (arith, head_or-has qs l, has-append (head_or qs l) ps qs)

  -- An address without a node is none of the list's.
  pub fresh-outside :
      (h : Heap A) (l : Ptr) (ps : List Ptr) (n : Ptr)
      → IsList h l ps
      → h.alive n ≡ false
      → has n (l ∷ ps) ≡ false
  fresh-outside h l ps n is unused = ground (arith, is.live n)

  -- A list is as it was where only nodes that are not its own have changed.
  pub IsList-frame :
      (h h' : Heap A) (l : Ptr) (ps qs : List Ptr)
      → IsList h l ps
      → Apart (l ∷ ps) qs
      → SameOutside h h' qs
      → IsList h' l ps
  IsList-frame h h' l ps qs is sep same = record {
    chain =
        Chain-frame l ps l is.chain (λ x i. (same x (sep x i)).next_eq)
          (λ x i. (same x (sep x (ground (arith, has-append x ps (l ∷ []))))).prev_eq);
    apart = is.apart;
    live = λ p i. (same p (sep p i)).alive_eq ∙ is.live p i;
    marked = λ p i. (same p (sep p i)).sentinel_eq ∙ is.marked p i;
    nonnull = is.nonnull;
  }

  pub contents-frame :
      (h h' : Heap A) (ps qs : List Ptr)
      → Apart ps qs
      → SameOutside h h' qs
      → contents h'.item ps ≡ contents h.item ps
  contents-frame h h' [] qs sep same = refl
  contents-frame h h' (p ∷ ps) qs sep same =
      ap₂ ◌∷◌ (same p (sep p (ground arith))).item_eq
        (contents-frame h h' ps qs (λ x i. sep x (ground arith)) same)
