-- ===== src/HashMap/Stored.antt =====
-- The lookup of shared/adt/HashMap.c against the pairs that the map stores, wherever they stand.
use chat_project.Prelude.{
  zero, suc, ◌≤◌, ◌<◌, ◌≡◌, inl, inr, refl, sym, ◌∙◌, ap, Bool, true, false, Option, none, some, [],
  ◌∷◌, arith, Bool-cases, Option-cases,
}
use native.Mathlib.Decide.{ℕ_discrete}
use mathlib.Core.Path.{subst}
use mathlib.Core.Option.{some-injective}
use chat_project.HashMap.{HashMap, MapResult, get_bucket_index, find}
use chat_project.HashMap.Chains.{Chain, IsIn, value_of, occurs}
use chat_project.HashMap.Buckets.{chain_at, view, Stored, IsValid}
use chat_project.HashMap.Find.{found_result, find-view}

module _ {ℓ} {K V : Type ℓ} (equal : K → K → Bool) where
  -- A pair with an equal key is an occurrence of the key.
  occurs-IsIn :
      (c : Chain K V) (k : K) (p : K × V) → IsIn c p → equal k p.0 ≡ true → 0 < occurs equal c k
  occurs-IsIn [] k p (i, e) same = absurd cc
  occurs-IsIn (x ∷ c) k p (zero, e) same =
      let here : x ≡ p = some-injective _ _ e in
      let hit : equal k x.0 ≡ true = ap (λ t. equal k t.0) here ∙ same in rw hit (omega arith)
  occurs-IsIn (x ∷ c) k p (suc i, e) same = omega (arith, occurs-IsIn c k p (i, e) same)

  -- The only occurrence of a key gives its value.
  value_of-IsIn :
      (c : Chain K V) (k : K) (p : K × V)
      → IsIn c p
      → equal k p.0 ≡ true
      → occurs equal c k ≤ 1
      → value_of equal c k ≡ some p.1
  value_of-IsIn [] k p (i, e) same once = absurd cc
  value_of-IsIn (x ∷ c) k p (zero, e) same once =
      let here : x ≡ p = some-injective _ _ e in
      let hit : equal k x.0 ≡ true = ap (λ t. equal k t.0) here ∙ same in
      rw hit (ap (λ t. some t.1) here)
  value_of-IsIn (x ∷ c) k p (suc i, e) same once = elim (Bool-cases (equal k x.0)) [
    | inl hit ↦ absurd (ground (arith, hit, once, occurs-IsIn c k p (i, e) same))
    | inr miss ↦ rw miss (value_of-IsIn c k p (i, e) same (ground (arith, miss, once)))
  ]

  -- A value comes from a pair.
  value_of-found :
      (c : Chain K V) (k : K) (x : V)
      → value_of equal c k ≡ some x
      → (p : K × V) × IsIn c p × (equal k p.0 ≡ true) × (p.1 ≡ x)
  value_of-found [] k x e = absurd cc
  value_of-found (f ∷ c) k x e = elim (Bool-cases (equal k f.0)) [
    | inl hit ↦ (f, (0, refl), hit, some-injective _ _ (rw hit at e))
    | inr miss ↦
        let (p, (i, at), same, is) = value_of-found c k x (rw miss at e) in
        (p, (suc i, at), same, is)
  ]

module _ {ℓ} {K V : Type ℓ} where
  -- What a lookup of `k` answers.
  pub record Finds (m : HashMap K V) (k : K) (answer : MapResult × Option V) : Type ℓ where
    pub found :
        (p : K × V)
        → Stored m p
        → m.keys_equal_func k p.0 ≡ true
        → answer ≡ (MapResult.success, some p.1)
    pub missing :
        ((p : K × V) → Stored m p → m.keys_equal_func k p.0 ≡ false)
        → answer ≡ (MapResult.key_not_found_error, none)

  -- In a valid map a lookup returns the value of a pair with an equal key, in whatever bucket and place
  -- it is stored, and that the key is not there if no stored pair has an equal key.
  pub find-Finds : (m : HashMap K V) (k : K) → IsValid m → Finds m k (find (some m) (some k))
  unfolding view
  find-Finds m k v =
      let c = chain_at m (get_bucket_index m k) in
      let run = find-view m k v in
      record {
        found = λ p (i, is_in) same. elim (ℕ_discrete (get_bucket_index m k) i) [
          | yes home ↦
              let here : IsIn c p = subst (λ j. IsIn (chain_at m j) p) (sym home) is_in in
              run
              ∙ ap found_result (
                  value_of-IsIn m.keys_equal_func c k p here same (v.once k (get_bucket_index m k)))
          | no away ↦ absurd (
              omega (
                arith,
                v.at_home k i away,
                occurs-IsIn m.keys_equal_func (chain_at m i) k p is_in same,
              ))
        ];
        missing = λ none_equal. elim (Option-cases (view m k)) [
          | inl gone ↦ run ∙ ap found_result gone
          | inr (x, got) ↦
              let (p, is_in, same, _) = value_of-found m.keys_equal_func c k x got in
              let differs = none_equal p (get_bucket_index m k, is_in) in absurd cc
        ];
      }
