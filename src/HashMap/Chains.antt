-- ===== src/HashMap/Chains.antt =====
-- One chain of shared/adt/HashMap.c: the search through it and the removal at an iterator, with what
-- they do to the lookup of a key.
pub mod Search
use chat_project.Prelude.{
  ℕ, zero, suc, ◌+◌, ◌≤◌, ◌≡◌, refl, Bool, true, false, Option, none, some, List, [], ◌∷◌, ◌++◌,
  if◌then◌else◌, arith, length, get_elem?,
}

abbrev pub Chain {ℓ} : Type ℓ → Type ℓ → Type ℓ
Chain K V = List (K × V)

-- The pair that a search returns, and the iterator that it stores.
pub record FoundAt {ℓ} (K V : Type ℓ) : Type ℓ where
  pub itr : ℕ
  pub pair : K × V

module _ {ℓ} {K V : Type ℓ} where
  -- `FindInList` from the iterator `itr` on.
  unfoldable pub find_in_list : (K → K → Bool) → Chain K V → K → ℕ → Option (FoundAt K V)
  find_in_list equal [] key itr = none
  find_in_list equal (kvp ∷ rest) key itr =
      if equal key kvp.0
      then some (record { itr = itr; pair = kvp })
      else find_in_list equal rest key (itr + 1)

  -- `ListItrRemove` on the list of a chain.
  unfoldable pub remove_itr : Chain K V → ℕ → Chain K V
  remove_itr [] itr = []
  remove_itr (kvp ∷ rest) zero = rest
  remove_itr (kvp ∷ rest) (suc itr) = kvp ∷ remove_itr rest itr

-- What a hash map asks of its two functions.
pub record IsKey {ℓ} {K : Type ℓ} (hash : K → ℕ) (equal : K → K → Bool) : Type ℓ where
  pub hash_congr : (x y : K) → equal x y ≡ true → hash x ≡ hash y
  pub reflexive : (x : K) → equal x x ≡ true
  pub transitive : (x y z : K) → equal x y ≡ true → equal y z ≡ true → equal x z ≡ true
  pub symmetric : (x y : K) → equal x y ≡ equal y x

abbrev pub to_nat : Bool → ℕ
to_nat true = 1
to_nat false = 0

module _ {ℓ} {K V : Type ℓ} (equal : K → K → Bool) where
  -- The value under a key, and how often the key occurs.
  abbrev pub value_of : Chain K V → K → Option V
  value_of [] q = none
  value_of (e ∷ c) q = if equal q e.0 then some e.1 else value_of c q

  abbrev pub occurs : Chain K V → K → ℕ
  occurs [] q = 0
  occurs (e ∷ c) q = to_nat (equal q e.0) + occurs c q

-- The pair stands in the chain.
abbrev pub IsIn {ℓ} : {K V : Type ℓ} → Chain K V → K × V → Type ℓ
IsIn c p = (i : ℕ) × (get_elem? c i ≡ some p)
