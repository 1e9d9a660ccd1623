-- ===== src/HashUtils.antt =====
-- The hash and the equality of server/hash_utils.c for C strings, which are byte lists without NUL.
pub mod Laws
use chat_project.Prelude.{
  ℕ, ◌+◌, ◌*◌, ◌%◌, ◌^◌, Bool, true, false, Option, none, some, [], ◌∷◌, ◌==◌, if◌then◌else◌,
}
use chat_project.Memory.{Bytes}

-- `((hash << 5) + hash) + c`, all in `size_t`
djb2_step : ℕ → ℕ → ℕ
djb2_step hash c = (((hash * 2 ^ 5) % 2 ^ 64 + hash) % 2 ^ 64 + c) % 2 ^ 64

djb2_loop : Bytes → ℕ → ℕ
djb2_loop [] hash = hash
djb2_loop (c ∷ str) hash = djb2_loop str (djb2_step hash c)

unfoldable pub hash_string_djb2 : Option Bytes → ℕ
unfolding djb2_loop djb2_step
hash_string_djb2 none = 0
hash_string_djb2 (some str) = djb2_loop str 5381

-- `0 == strcmp(a, b)`
unfoldable pub str_eq : Bytes → Bytes → Bool
str_eq [] [] = true
str_eq [] (d ∷ t) = false
str_eq (c ∷ s) [] = false
str_eq (c ∷ s) (d ∷ t) = if c == d then str_eq s t else false

unfoldable pub string_keys_equal : Option Bytes → Option Bytes → Bool
string_keys_equal (some first) (some second) = str_eq first second
string_keys_equal _ _ = false
