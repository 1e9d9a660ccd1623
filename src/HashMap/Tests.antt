-- ===== src/HashMap/Tests.antt =====
-- The hash map of shared/adt/HashMap.c on a small map with numbers as keys.
use chat_project.Prelude.{
  ℕ, zero, suc, ◌+◌, ◌%◌, ◌≤◌, ◌<◌, ◌≡◌, ◌≢◌, refl, Bool, true, none, some, [], ◌∷◌, ◌==◌, arith,
}
use chat_project.HashMap.{HashMap, MapResult, insert, remove, find, find_at, get_bucket_index}
use chat_project.HashMap.Chains.{IsKey, occurs, find_in_list}
use chat_project.HashMap.Buckets.{IsValid, chain_at}
use chat_project.HashMap.Stored.{Finds, find-Finds}
use chat_project.HashMap.Insert.{Inserted, insert-Inserted}
use chat_project.HashMap.Remove.{Removed, remove-Removed}
use chat_project.HashMap.Create.{IsPrime-101}
use chat_project.HashMap.Prime.{get_next_prime}
use chat_project.HashMap.Prime.Laws.{IsPrime, get_next_prime-IsNext}

abbrev identity : ℕ → ℕ
identity k = k

abbrev same_number : ℕ → ℕ → Bool
same_number a b = a == b

numbers : IsKey identity same_number
numbers = record {
  reflexive = λ a. ground arith;
  symmetric = λ a b. ground arith;
  transitive = λ a b c e f. ground arith;
  hash_congr = λ a b e. ground arith;
}

-- Three buckets, the middle one not created, with two pairs in the first.
abbrev phone_book : HashMap ℕ ℕ
phone_book = record {
  buckets = some ((3, 30) ∷ (6, 60) ∷ []) ∷ none ∷ some ((2, 20) ∷ []) ∷ [];
  capacity = 3;
  size = 3;
  hash_func = identity;
  keys_equal_func = same_number;
}

phone_book-once : (q i : ℕ) → occurs same_number (chain_at phone_book i) q ≤ 1
phone_book-once q zero = ground arith
phone_book-once q (suc zero) = omega arith
phone_book-once q (suc (suc zero)) = ground arith
phone_book-once q (suc (suc (suc i))) = omega arith

phone_book-at_home : (q i : ℕ) → q % 3 ≢ i → occurs same_number (chain_at phone_book i) q ≡ 0
phone_book-at_home q zero h = ground arith
phone_book-at_home q (suc zero) h = refl
phone_book-at_home q (suc (suc zero)) h = ground arith
phone_book-at_home q (suc (suc (suc i))) h = refl

phone_book-IsValid : IsValid phone_book
unfolding get_bucket_index
phone_book-IsValid = record {
  laws = numbers;
  wide = refl;
  roomy = omega arith;
  counted = refl;
  once = phone_book-once;
  at_home = phone_book-at_home;
}

find_six : find (some phone_book) (some 6) ≡ (MapResult.success, some 60)
unfolding find find_at get_bucket_index find_in_list
find_six = refl

find-Finds_example : Finds phone_book 6 (find (some phone_book) (some 6))
find-Finds_example = find-Finds phone_book 6 phone_book-IsValid

insert-Inserted_example :
    (m' : HashMap ℕ ℕ) × ((insert (some phone_book) (some 4) 40 []).1 ≡ some m')
    × Inserted phone_book 4 40 []
        (insert (some phone_book) (some 4) 40 []).0
        m'
        (insert (some phone_book) (some 4) 40 []).2
insert-Inserted_example = insert-Inserted phone_book 4 40 [] phone_book-IsValid

remove-Removed_example :
    (m' : HashMap ℕ ℕ) × ((remove (some phone_book) (some 3)).2 ≡ some m')
    × Removed phone_book 3
        (remove (some phone_book) (some 3)).0
        (remove (some phone_book) (some 3)).1
        m'
remove-Removed_example = remove-Removed phone_book 3 phone_book-IsValid

abbrev add_values : ℕ → ℕ → ℕ → Bool × ℕ
add_values k v sum = (true, sum + v)

composite-100 : ¬ IsPrime 100
composite-100 (big, none_below) = none_below 2 (omega arith) (omega arith) refl

get_next_prime-IsNext_example :
    (q : ℕ) × (get_next_prime 10 100 ≡ some q)
    × IsPrime q
    × (100 < q)
    × ((r : ℕ) → 100 < r → r < q → ¬ IsPrime r)
get_next_prime-IsNext_example =
    get_next_prime-IsNext 10 100 101 composite-100 IsPrime-101 (omega arith) (omega arith)
      (omega arith)
