-- ===== src/Access/Places.antt =====
-- Lists that change at one place.
use mathlib.Core.Option.{some-injective}
use mini_db.Base.{
  ℕ, zero, suc, ◌<◌, ◌≡◌, refl, sym, ap, List, [], ◌∷◌, ◌++◌, length, set, some, get_elem?, arith,
}

pub set-same {ℓ} :
    {A : Type ℓ} (xs : List A) (i : ℕ) (v : A) → get_elem? xs i ≡ some v → set xs i v ≡ xs
set-same [] i v h = refl
set-same (x ∷ xs) zero v h = ap (λ z. z ∷ xs) (sym (some-injective x v h))
set-same (x ∷ xs) (suc i) v h = ap (◌∷◌ x) (set-same xs i v h)

pub set-set {ℓ} : {A : Type ℓ} (xs : List A) (i : ℕ) (v w : A) → set (set xs i v) i w ≡ set xs i w
set-set [] i v w = refl
set-set (x ∷ xs) zero v w = refl
set-set (x ∷ xs) (suc i) v w = ap (◌∷◌ x) (set-set xs i v w)

pub set-append_left {ℓ} :
    {A : Type ℓ} (xs ys : List A) (i : ℕ) (v : A)
    → i < length xs
    → set (xs ++ ys) i v ≡ set xs i v ++ ys
set-append_left [] ys i v h = absurd (omega arith)
set-append_left (x ∷ xs) ys zero v h = refl
set-append_left (x ∷ xs) ys (suc i) v h = ap (◌∷◌ x) (set-append_left xs ys i v (omega arith))
