-- ===== src/Net/Frames.antt =====
-- A byte stream as whole messages and an incomplete rest, which is how shared/protocol.h lays it out:
-- a type byte, a length byte and so many payload bytes.
use chat_project.Prelude.{
  ◌<◌, ◌≡◌, refl, ap, ap₂, sym, ◌∙◌, List, [], ◌∷◌, ◌++◌, append_assoc, arith, length,
  length-append,
}
use mathlib.Core.Path.{subst}
use chat_project.Memory.{Bytes}

append_split : (a b s t : Bytes) → length a ≡ length b → a ++ s ≡ b ++ t → (a ≡ b) × (s ≡ t)
append_split [] [] s t n e = (refl, e)
append_split [] (y ∷ b) s t n e = absurd (omega arith)
append_split (x ∷ a) [] s t n e = absurd (omega arith)
append_split (x ∷ a) (y ∷ b) s t n e =
    let heads : (x ≡ y) × (a ++ s ≡ b ++ t) = (cc, cc) in
    let (same, rest) = append_split a b s t (omega arith) heads.1 in (ap₂ ◌∷◌ heads.0 same, rest)

-- One whole message.
abbrev pub IsFrame : Bytes → Type 0
IsFrame [] = ⊥
IsFrame (t ∷ []) = ⊥
IsFrame (t ∷ l ∷ payload) = length payload ≡ l

-- The header has not arrived, or the payload has not arrived whole.
abbrev pub IsPartial : Bytes → Type 0
IsPartial [] = Unit
IsPartial (t ∷ []) = Unit
IsPartial (t ∷ l ∷ payload) = length payload < l

-- `stream` is the messages `ms` and then `rest`.
pub data Framed : List Bytes → Bytes → Bytes → Type 0 where
  partial : {rest : Bytes} → IsPartial rest → Framed [] rest rest
  whole :
      {ms : List Bytes} {m stream all rest : Bytes}
      → IsFrame m
      → all ≡ m ++ stream
      → Framed ms stream rest
      → Framed (m ∷ ms) all rest

pub Framed-IsPartial : {ms : List Bytes} {all rest : Bytes} → Framed ms all rest → IsPartial rest
Framed-IsPartial (partial p) = p
Framed-IsPartial (whole f e fr) = Framed-IsPartial fr

-- More bytes behind a framed stream continue its rest.
pub Framed-append :
    {ms ns : List Bytes} {all rest rest' : Bytes} (more : Bytes)
    → Framed ms all rest
    → Framed ns (rest ++ more) rest'
    → Framed (ms ++ ns) (all ++ more) rest'
Framed-append more (partial p) next = next
Framed-append more (whole {m = m} {stream = stream} f e fr) next =
    whole f (ap (λ t. t ++ more) e ∙ append_assoc m stream more) (Framed-append more fr next)

frame-head : (m m' s s' : Bytes) → IsFrame m → IsFrame m' → m ++ s ≡ m' ++ s' → (m ≡ m') × (s ≡ s')
frame-head [] m' s s' f f' e = absurd f
frame-head (t ∷ []) m' s s' f f' e = absurd f
frame-head (t ∷ l ∷ p) [] s s' f f' e = absurd f'
frame-head (t ∷ l ∷ p) (t' ∷ []) s s' f f' e = absurd f'
frame-head (t ∷ l ∷ p) (t' ∷ l' ∷ p') s s' f f' e =
    let heads : (t ≡ t') × (l ≡ l') × (p ++ s ≡ p' ++ s') = (cc, cc, cc) in
    let (same, rest) = append_split p p' s s' (f ∙ heads.1 ∙ sym f') heads.2 in (cc, rest)

not-partial : (m s : Bytes) → IsFrame m → IsPartial (m ++ s) → ⊥
not-partial [] s f p = f
not-partial (t ∷ []) s f p = f
not-partial (t ∷ l ∷ payload) s f p = omega (arith, length-append payload s)

-- A stream has one reading as messages and a rest.
pub Framed-unique :
    {ms ns : List Bytes} {all all' rest rest' : Bytes}
    → Framed ms all rest
    → Framed ns all' rest'
    → all ≡ all'
    → (ms ≡ ns) × (rest ≡ rest')
Framed-unique (partial p) (partial p') e = (refl, e)
Framed-unique (partial p) (whole {m = m} {stream = s} f q fr) e =
    absurd (not-partial m s f (subst IsPartial (e ∙ q) p))
Framed-unique (whole {m = m} {stream = s} f q fr) (partial p) e =
    absurd (not-partial m s f (subst IsPartial (sym e ∙ q) p))
Framed-unique (whole {m = m} {stream = s} f q fr) (whole {m = m'} {stream = s'} f' q' fr') e =
    let (same, rest) = frame-head m m' s s' f f' (sym q ∙ e ∙ q') in
    let (msgs, left) = Framed-unique fr fr' rest in (ap₂ ◌∷◌ same msgs, left)
