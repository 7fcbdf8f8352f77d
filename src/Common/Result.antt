-- ===== src/Common/Result.antt =====
-- Results of code that may throw: a value, or the error that was thrown.
use mathlib.Core.Path.{◌≡◌, refl}
use mathlib.Core.Logic.{◌⊎◌, inl, inr}

pub data Result {ℓ} (E : Type ℓ) (A : Type ℓ) : Type ℓ where
  ok : A → Result E A
  err : E → Result E A

infixl 5 ◌>>=◌ ◌>>◌
abbrev pub ◌>>=◌ {ℓ} : {E A B : Type ℓ} → Result E A → (A → Result E B) → Result E B
ok a >>= f = f a
err e >>= f = err e

abbrev pub ◌>>◌ : {E B : Type 0} → Result E Unit → Result E B → Result E B
m >> k = m >>= λ _. k

pub Result-cases {ℓ} :
    {E A : Type ℓ} (r : Result E A) → ((e : E) × (r ≡ err e)) ⊎ ((a : A) × (r ≡ ok a))
Result-cases (ok a) = inr (a, refl)
Result-cases (err e) = inl (e, refl)

-- What is returned, if anything, has the property.
abbrev pub Returns {ℓ κ} : {E A : Type ℓ} → (A → Type κ) → Result E A → Type κ
Returns P (ok a) = P a
Returns P (err e) = Unit

pub bind-Returns {ℓ κ} :
    {E A B : Type ℓ} (P : B → Type κ) (r : Result E A) (f : A → Result E B)
    → ((a : A) → Returns P (f a))
    → Returns P (r >>= f)
bind-Returns P (ok a) f h = h a
bind-Returns P (err e) f h = tt
