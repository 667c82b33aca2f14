-- ===== src/Base/Results.antt =====
-- Go's `(value, error)` pair: a value, or an error of the component's own type.
use mathlib.Core.Path.{◌≡◌, refl, ap, subst}
use mathlib.Core.Logic.{◌⊎◌, inl, inr}
use mathlib.Core.Bool.{Bool, true, false}

pub data Result {ℓ κ} (E : Type κ) (A : Type ℓ) : Type (ℓ ⊔ κ) where
  err : E → Result E A
  ok : A → Result E A

-- `if !b { return e }` before what follows.
abbrev pub unless {ι ℓ} : {E : Type ι} {A : Type ℓ} → Bool → E → Result E A → Result E A
unless false problem rest = err problem
unless true problem rest = rest

infixl 5 ◌>>=◌
abbrev pub ◌>>=◌ {ι ℓ κ} :
    {E : Type ι} {A : Type ℓ} {B : Type κ} → Result E A → (A → Result E B) → Result E B
err problem >>= next = err problem
ok value >>= next = next value

pub Result-cases {ι ℓ} :
    {E : Type ι} {A : Type ℓ} (r : Result E A) → ((e : E) × (r ≡ err e)) ⊎ ((a : A) × (r ≡ ok a))
Result-cases (err e) = inl (e, refl)
Result-cases (ok a) = inr (a, refl)

pub ok_same {ι ℓ} : {E : Type ι} {A : Type ℓ} {x y : A} → ◌≡◌ {A = Result E A} (ok x) (ok y) → x ≡ y
ok_same {x = x} e = ap (λ r. elim r [ err q ↦ x | ok z ↦ z ]) e

-- What a success says of each check and of each step before it.
pub unless-ok {ι ℓ} :
    {E : Type ι} {A : Type ℓ} (b : Bool) (problem : E) (rest : Result E A) {x : A}
    → unless b problem rest ≡ ok x
    → (b ≡ true) × (rest ≡ ok x)
unless-ok false problem rest e = absurd (cc)
unless-ok true problem rest e = (refl, e)

pub step-ok {ι ℓ κ} :
    {E : Type ι} {A : Type ℓ} {B : Type κ} (m : Result E A) (next : A → Result E B) {y : B}
    → (m >>= next) ≡ ok y
    → (x : A) × (m ≡ ok x) × (next x ≡ ok y)
step-ok (err problem) next e = absurd (cc)
step-ok (ok value) next e = (value, refl, e)

-- A property of the value, where there is one.
abbrev pub Ensures {ι ℓ κ} : {E : Type ι} {A : Type ℓ} → (A → Type κ) → Result E A → Type κ
Ensures P (err problem) = Unit {κ}
Ensures P (ok value) = P value

pub step-Ensures {ι ℓ κ} :
    {E : Type ι} {A : Type ℓ} {B : Type ℓ} (P : B → Type κ) (m : Result E A) (next : A → Result E B)
    → ((x : A) → m ≡ ok x → Ensures P (next x))
    → Ensures P (m >>= next)
step-Ensures P (err problem) next each = tt
step-Ensures P (ok value) next each = each value refl

pub unless-Ensures {ι ℓ κ} :
    {E : Type ι} {A : Type ℓ} (P : A → Type κ) (b : Bool) (problem : E) (rest : Result E A)
    → Ensures P rest
    → Ensures P (unless b problem rest)
unless-Ensures P false problem rest holds = tt
unless-Ensures P true problem rest holds = holds

pub Ensures-ok {ι ℓ κ} :
    {E : Type ι} {A : Type ℓ} (P : A → Type κ) (r : Result E A) {x : A}
    → Ensures P r
    → r ≡ ok x
    → P x
Ensures-ok P (err problem) holds e = absurd (cc)
Ensures-ok P (ok value) holds e = subst P (ok_same e) holds
