-- ===== src/HashMap/Buckets.antt =====
-- What the bucket array of a hash map means: its invariant, its abstract map, and a write to one
-- bucket.
use chat_project.Prelude.{
  ℕ, zero, suc, ◌+◌, ◌%◌, ◌≤◌, ◌<◌, ◌≡◌, ◌≢◌, refl, ap, sym, ◌∙◌, true, Option, none, some, List,
  [], ◌∷◌, if◌then◌else◌, arith, length, length-set, get_or, get_or-set, set, max, ◌==◌,
}
use chat_project.HashMap.{HashMap, bucket, get_bucket_index}
use chat_project.HashMap.Chains.{Chain, IsIn, IsKey, to_nat, value_of, occurs}

module _ {ℓ} {K V : Type ℓ} where
  -- A bucket that is not created yet is an empty chain.
  abbrev pub chain_of : Option (Chain K V) → Chain K V
  chain_of none = []
  chain_of (some c) = c

  abbrev pub total : List (Option (Chain K V)) → ℕ
  total [] = 0
  total (b ∷ bs) = length (chain_of b) + total bs

  abbrev pub chain_at : HashMap K V → ℕ → Chain K V
  chain_at m i = chain_of (bucket m i)

  -- The pair stands in one of the chains.
  abbrev pub Stored : HashMap K V → K × V → Type ℓ
  Stored m p = (i : ℕ) × IsIn (chain_at m i) p

  -- The value that the map holds under a key.
  unfoldable pub view : HashMap K V → K → Option V
  view m q = value_of m.keys_equal_func (chain_at m (get_bucket_index m q)) q

  -- Each key occurs at most once, and only in the bucket that its hash selects.
  pub record IsValid (m : HashMap K V) : Type ℓ where
    pub laws : IsKey m.hash_func m.keys_equal_func
    pub wide : m.capacity ≡ length m.buckets
    pub roomy : 0 < m.capacity
    pub counted : m.size ≡ total m.buckets
    pub once : (q : K) (i : ℕ) → occurs m.keys_equal_func (chain_at m i) q ≤ 1
    pub at_home :
        (q : K) (i : ℕ) → get_bucket_index m q ≢ i → occurs m.keys_equal_func (chain_at m i) q ≡ 0

  total-set :
      (bs : List (Option (Chain K V))) (i : ℕ) (c : Chain K V)
      → i < length bs
      → total (set bs i (some c)) + length (chain_of (get_or bs i none)) ≡ total bs + length c
  total-set [] i c h = elim h [ ]
  total-set (b ∷ bs) zero c h = omega arith
  total-set (b ∷ bs) (suc i) c h = omega (arith, total-set bs i c (omega arith))

  module _ {m : HashMap K V} (v : IsValid m) where
    -- The bucket that an operation touches lies inside the array.
    pub get_bucket_index-lt : (k : K) → get_bucket_index m k < length m.buckets
    unfolding get_bucket_index
    get_bucket_index-lt k = omega (arith, v.wide, v.roomy)

    pub get_bucket_index_congr :
        (a b : K) → m.keys_equal_func a b ≡ true → get_bucket_index m a ≡ get_bucket_index m b
    unfolding get_bucket_index
    get_bucket_index_congr a b e = ap (λ h. h % m.capacity) (v.laws.hash_congr a b e)

    -- A chain holds at most the pairs that the map counts.
    pub length-chain_at : (k : K) → length (chain_at m (get_bucket_index m k)) ≤ m.size
    length-chain_at k =
        omega
          (arith, v.counted, total-set m.buckets (get_bucket_index m k) [] (get_bucket_index-lt k))

    -- The map after the chain of the key `k` has become `c`.
    abbrev pub with_chain : K → Chain K V → ℕ → HashMap K V
    with_chain k c n = record m {
      buckets = set m.buckets (get_bucket_index m k) (some c);
      size = n;
    }

    pub chain_at-with_chain :
        (k : K) (c : Chain K V) (n i : ℕ)
        → chain_at (with_chain k c n) i ≡ (if get_bucket_index m k == i then c else chain_at m i)
    chain_at-with_chain k c n i =
        rw (get_or-set m.buckets (get_bucket_index m k) i (some c) none (get_bucket_index-lt k))
          (ground arith)

    pub get_bucket_index-with_chain :
        (k : K) (c : Chain K V) (n : ℕ) (q : K)
        → get_bucket_index (with_chain k c n) q ≡ get_bucket_index m q
    unfolding get_bucket_index
    get_bucket_index-with_chain k c n q = refl

    -- A write that adds at most an occurrence of `k` itself keeps the invariant.
    pub with_chain-IsValid :
        (k : K) (c : Chain K V) (n : ℕ)
        → n + length (chain_at m (get_bucket_index m k)) ≡ m.size + length c
        → ((q : K)
            → occurs m.keys_equal_func c q
              ≤ max
                  (to_nat (m.keys_equal_func q k))
                  (occurs m.keys_equal_func (chain_at m (get_bucket_index m k)) q))
        → IsValid (with_chain k c n)
    with_chain-IsValid k c n size few = record {
      laws = v.laws;
      wide = v.wide ∙ sym (length-set m.buckets _ _);
      roomy = v.roomy;
      counted =
          omega (
            arith,
            v.counted,
            total-set m.buckets (get_bucket_index m k) c (get_bucket_index-lt k),
          );
      once = λ q i.
          rw (chain_at-with_chain k c n i)
            (ground (arith, few q, v.once q i, v.once q (get_bucket_index m k)));
      at_home = λ q i away. rw (chain_at-with_chain k c n i) (
          ground (
            arith,
            few q,
            v.at_home q i,
            get_bucket_index-with_chain k c n q,
            get_bucket_index_congr q k,
          ));
    }

    -- The write changes the value of `k` only.
    pub view-with_chain :
        (k : K) (c : Chain K V) (n : ℕ) (new : Option V)
        → ((q : K)
            → value_of m.keys_equal_func c q ≡ (
                if m.keys_equal_func q k
                then new
                else value_of m.keys_equal_func (chain_at m (get_bucket_index m k)) q))
        → (q : K) → view (with_chain k c n) q ≡ (if m.keys_equal_func q k then new else view m q)
    unfolding view
    view-with_chain k c n new lookup q =
        rw (chain_at-with_chain k c n (get_bucket_index (with_chain k c n) q)) (
          ground (arith, lookup q, get_bucket_index-with_chain k c n q, get_bucket_index_congr q k))
