-- ===== src/HashUtils/Laws.antt =====
-- The functions of server/hash_utils.c are what a hash map asks for.
use chat_project.Prelude.{
  ℕ, ◌≡◌, refl, ap, ap₂, sym, ◌∙◌, inl, inr, Bool, true, some, [], ◌∷◌, arith, Bool-cases,
}
use chat_project.Memory.{Bytes}
use chat_project.HashMap.Chains.{IsKey}
use chat_project.HashUtils.{hash_string_djb2, str_eq, string_keys_equal}

pub str_eq_refl : (a : Bytes) → str_eq a a ≡ true
unfolding str_eq
str_eq_refl [] = refl
str_eq_refl (c ∷ s) = ground (arith, str_eq_refl s)

pub str_eq→eq : (a b : Bytes) → str_eq a b ≡ true → a ≡ b
unfolding str_eq
str_eq→eq [] [] h = refl
str_eq→eq [] (d ∷ t) h = cc
str_eq→eq (c ∷ s) [] h = cc
str_eq→eq (c ∷ s) (d ∷ t) h =
    let heads : (c ≡ d) × (str_eq s t ≡ true) = ground arith in
    ap₂ ◌∷◌ heads.0 (str_eq→eq s t heads.1)

pub eq→str_eq : (a b : Bytes) → a ≡ b → str_eq a b ≡ true
eq→str_eq a b e = ap (str_eq a) (sym e) ∙ str_eq_refl a

pub str_eq_symm : (a b : Bytes) → str_eq a b ≡ str_eq b a
str_eq_symm a b = elim (Bool-cases (str_eq a b)) [
  | inl e ↦ e ∙ sym (eq→str_eq b a (sym (str_eq→eq a b e)))
  | inr e ↦ elim (Bool-cases (str_eq b a)) [
    | inl f ↦ eq→str_eq a b (sym (str_eq→eq b a f)) ∙ sym f
    | inr f ↦ e ∙ sym f
  ]
]

abbrev pub hash_key : Bytes → ℕ
hash_key k = hash_string_djb2 (some k)

abbrev pub equal_keys : Bytes → Bytes → Bool
equal_keys a b = string_keys_equal (some a) (some b)

-- The two functions are what a hash map asks for: the comparison is an equivalence, and keys that
-- compare equal have equal hashes.
pub hash_key-IsKey : IsKey hash_key equal_keys
unfolding string_keys_equal
hash_key-IsKey = record {
  reflexive = str_eq_refl;
  symmetric = str_eq_symm;
  transitive = λ a b c e f. eq→str_eq a c (str_eq→eq a b e ∙ str_eq→eq b c f);
  hash_congr = λ a b e. ap hash_key (str_eq→eq a b e);
}

-- Keys that compare equal are equal strings.
pub equal_keys→eq : (a b : Bytes) → equal_keys a b ≡ true → a ≡ b
unfolding string_keys_equal
equal_keys→eq = str_eq→eq
