-- ===== src/Memory/Reads.antt =====
-- When two runs over different buffers agree and do not fault, step by step along a `do` block.
use chat_project.Prelude.{
  ℕ, ◌≡◌, ◌⊎◌, inl, inr, ◌≢◌, refl, Bool, true, false, arith, ◌≤◌, ◌<◌, ◌+◌, length, take,
  if◌then◌else◌,
}
use chat_project.Memory.{Bytes, Run, ok, reject, fault, ◌>>=◌, ◌>>◌, guard, load, copy_out}
use chat_project.Memory.Windows.{load_total, load-take, copy_out_lem, copy_out-take}

pub Run-cases {ℓ} :
    {A : Type ℓ} (run : Run A) → (run ≡ fault) ⊎ ((run ≡ reject) ⊎ ((a : A) × (run ≡ ok a)))
Run-cases fault = inl refl
Run-cases reject = inr (inl refl)
Run-cases (ok a) = inr (inr (a, refl))

-- A successful bind has a successful first part; a successful guard passed.
pub >>=-eq-ok {κ ℓ} :
    {B : Type κ} {A : Type ℓ} (step : Run A) (next : A → Run B) {result : B}
    → step >>= next ≡ ok result
    → (x : A) × (step ≡ ok x) × (next x ≡ ok result)
>>=-eq-ok fault next e = cc
>>=-eq-ok reject next e = cc
>>=-eq-ok (ok x) next e = (x, refl, e)

pub guard-eq-ok {ℓ} :
    {B : Type ℓ} (t : Bool) (k : Run B) {b : B} → (guard t >> k) ≡ ok b → (t ≡ true) × (k ≡ ok b)
guard-eq-ok true k h = (refl, h)
guard-eq-ok false k h = cc

-- Both runs end alike, and not by an access outside the buffer.
abbrev pub Agrees {ℓ} : {A : Type ℓ} → Run A → Run A → Type ℓ
Agrees r s = (r ≡ s) × (s ≢ fault)

pub Agrees-ok {ℓ} : {A : Type ℓ} (a : A) → Agrees (ok a) (ok a)
Agrees-ok a = (refl, λ e. cc)

pub >>=-Agrees {ℓ κ} :
    {A : Type ℓ} {B : Type κ} (m m' : Run A) (f g : A → Run B)
    → Agrees m m'
    → ((a : A) → m' ≡ ok a → Agrees (f a) (g a))
    → Agrees (m >>= f) (m' >>= g)
>>=-Agrees m (ok a) f g h k = let p = h.0 in rw p (k a refl)
>>=-Agrees m reject f g h k = let p = h.0 in rw p (refl, λ e. cc)
>>=-Agrees m fault f g h k = absurd (h.1 refl)

pub guard-Agrees {ℓ} :
    {B : Type ℓ} (b : Bool) (k k' : Run B)
    → (b ≡ true → Agrees k k')
    → Agrees (guard b >> k) (guard b >> k')
guard-Agrees true k k' h = h refl
guard-Agrees false k k' h = (refl, λ e. cc)

pub if-Agrees {ℓ} :
    {B : Type ℓ} (b : Bool) (k l l' : Run B)
    → Agrees k k
    → Agrees l l'
    → Agrees (if b then k else l) (if b then k else l')
if-Agrees true k l l' h h' = h
if-Agrees false k l l' h h' = h'

module _ (buf : Bytes) (n : ℕ) (fits : n ≤ length buf) where
  pub load-Agrees : (i : ℕ) → i < n → Agrees (load (take n buf) i) (load buf i)
  load-Agrees i h = let (b, e) = load_total buf i (omega arith) in (load-take n buf i h, λ z. cc)

  pub copy_out-Agrees :
      (i k : ℕ) → i + k ≤ n → Agrees (copy_out (take n buf) i k) (copy_out buf i k)
  copy_out-Agrees i k h =
      let e = copy_out_lem buf i k (omega arith) in (copy_out-take n buf i k h fits, λ z. cc)
