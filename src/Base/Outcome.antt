-- ===== src/Base/Outcome.antt =====
-- What a Go function that may fail ends with: its results, an error value, or a panic.
use mathlib.Core.Path.{◌≡◌, refl}
use mathlib.Core.Logic.{◌≢◌, ◌⊎◌, inl, inr}
use mathlib.Core.Bool.{Bool, true, false}

pub data Outcome {ℓ κ} (E : Type ℓ) (A : Type κ) : Type (ℓ ⊔ κ) where
  ok : A → Outcome E A
  err : E → Outcome E A
  panic : Outcome E A

infixl 5 ◌>>=◌
abbrev pub ◌>>=◌ {ℓ κ μ} :
    {E : Type ℓ} {A : Type κ} {B : Type μ} → Outcome E A → (A → Outcome E B) → Outcome E B
ok a >>= f = f a
err e >>= f = err e
panic >>= f = panic

-- `if err != nil { return wrap(err) }` around a call of another package.
abbrev pub wrap_err {ℓ κ μ} :
    {D : Type ℓ} {E : Type κ} {A : Type μ} → (D → E) → Outcome D A → Outcome E A
wrap_err f (ok a) = ok a
wrap_err f (err e) = err (f e)
wrap_err f panic = panic

-- A read that the language checks: false means a panic.
abbrev pub checked {ℓ κ} : {E : Type ℓ} {A : Type κ} → Bool → A → Outcome E A
checked true a = ok a
checked false a = panic

-- What does not panic returns.
pub returned :
    {E A : Type 0} (o : Outcome E A) → o ≢ panic → ((a : A) × (o ≡ ok a)) ⊎ ((e : E) × (o ≡ err e))
returned (ok a) h = inl (a, refl)
returned (err e) h = inr (e, refl)
returned panic h = absurd (h refl)
