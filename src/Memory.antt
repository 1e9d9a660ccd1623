-- ===== src/Memory.antt =====
-- A C buffer as a list of bytes, with the accesses of shared/protocol.c: `buf[i]`, `buf[i] = b` and
-- `memcpy`. A run ends in a value, in `return -1`, or in an access outside the buffer.
pub mod Windows
pub mod Reads
use chat_project.Prelude.{
  ℕ, ◌+◌, ◌%◌, Bool, true, false, Option, none, some, List, [], ◌∷◌, ◌++◌, ltb, leb, length,
  get_elem?, set, take, drop, if◌then◌else◌, ◌==◌,
}

abbrev pub Bytes : Type 0
Bytes = List ℕ

pub data Run {ℓ} (A : Type ℓ) : Type ℓ where
  ok : A → Run A
  -- `return -1`
  reject : Run A
  -- undefined behaviour: an access outside the buffer
  fault : Run A

-- `if (!test) return -1;`
abbrev pub guard : Bool → Run (Unit {0})
guard false = reject
guard true = ok tt

infixl 5 ◌>>=◌
abbrev pub ◌>>=◌ {κ ℓ} : {B : Type κ} {A : Type ℓ} → Run A → (A → Run B) → Run B
fault >>= next = fault
reject >>= next = reject
ok value >>= next = next value

-- `(uint8_t)n`
abbrev pub to_byte : ℕ → ℕ
to_byte n = n % 256

-- A step whose value is not used.
infixl 5 ◌>>◌
abbrev pub ◌>>◌ {κ} : {B : Type κ} → Run (Unit {0}) → Run B → Run B
first >> then_run = first >>= λ done. then_run

-- `buf[i]`
unfoldable pub load : Bytes → ℕ → Run ℕ
load buf i = elim (get_elem? buf i) [ none ↦ fault | some b ↦ ok b ]

-- `buf[i] = b`
unfoldable pub store : Bytes → ℕ → ℕ → Run Bytes
store buf i b = if ltb i (length buf) then ok (set buf i b) else fault

-- `memcpy(out, &buf[i], n)`: the bytes that go to `out`
unfoldable pub copy_out : Bytes → ℕ → ℕ → Run Bytes
copy_out buf i n = if leb (i + n) (length buf) then ok (take n (drop i buf)) else fault

-- `memcpy(&buf[i], s, strlen(s))`
unfoldable pub copy_in : Bytes → ℕ → Bytes → Run Bytes
copy_in buf i s =
    if leb (i + length s) (length buf)
    then ok (take i buf ++ (s ++ drop (i + length s) buf))
    else fault

-- A char array read as a C string: the bytes before the first NUL.
unfoldable pub c_str : Bytes → Bytes
c_str [] = []
c_str (c ∷ cs) = if c == 0 then [] else c ∷ c_str cs
