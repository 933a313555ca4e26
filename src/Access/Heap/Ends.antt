-- ===== src/Access/Heap/Ends.antt =====
-- Lists that change at the end, or at one place.
use mathlib.Core.Path.{subst}
use mathlib.Core.Option.{some-injective}
use mini_db.Base.{
  ℕ, zero, suc, ◌<◌, ◌≡◌, refl, ap, List, [], ◌∷◌, ◌++◌, length, All, none, some, get_elem?, set,
  arith,
}

pub get_elem?-past {ℓ} :
    {A : Type ℓ} (xs : List A) (i : ℕ) → length xs < suc i → get_elem? xs i ≡ none
get_elem?-past [] i h = refl
get_elem?-past (x ∷ xs) zero h = absurd (omega arith)
get_elem?-past (x ∷ xs) (suc i) h = get_elem?-past xs i (omega arith)

-- A list that is not empty has a last element.
pub last_of {ℓ} :
    {A : Type ℓ} (xs : List A) (n : ℕ)
    → length xs ≡ suc n
    → (ys : List A) × (x : A) × (xs ≡ ys ++ x ∷ []) × (length ys ≡ n)
last_of [] n h = absurd (omega arith)
last_of (x ∷ []) n h = ([], x, refl, omega arith)
last_of (x ∷ y ∷ ys) zero h = absurd (omega arith)
last_of (x ∷ y ∷ ys) (suc n) h =
    let (zs, z, e, l) = last_of (y ∷ ys) n (omega arith) in (x ∷ zs, z, ap (◌∷◌ x) e, ap suc l)

pub set-last {ℓ} :
    {A : Type ℓ} (ys : List A) (x y : A) → set (ys ++ x ∷ []) (length ys) y ≡ ys ++ y ∷ []
set-last [] x y = refl
set-last (z ∷ ys) x y = ap (◌∷◌ z) (set-last ys x y)

pub All-left {ℓ} : {A : Type ℓ} (P : A → Type 0) (xs ys : List A) → All P (xs ++ ys) → All P xs
All-left P [] ys h = tt
All-left P (x ∷ xs) ys h = (h.0, All-left P xs ys h.1)

pub All-at {ℓ} :
    {A : Type ℓ} (P : A → Type 0) (xs : List A) (i : ℕ) (x : A)
    → All P xs
    → get_elem? xs i ≡ some x
    → P x
All-at P [] i x h e = absurd cc
All-at P (y ∷ xs) zero x h e = subst (λ z. P z) (some-injective y x e) h.0
All-at P (y ∷ xs) (suc i) x h e = All-at P xs i x h.1 e
