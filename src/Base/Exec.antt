-- ===== src/Base/Exec.antt =====
-- Operations that read and write a state in place and may fail: what was written before a failure
-- stays written.
use mathlib.Core.Path.{◌≡◌, refl}
use mini_db.Base.Outcome.{Outcome, ok, err, panic}

abbrev pub Exec {ℓ κ μ} : Type ℓ → Type κ → Type μ → Type (ℓ ⊔ κ ⊔ μ)
Exec S E A = S → S × Outcome E A

abbrev pub continue_with {ℓ κ μ ν} :
    {S : Type ℓ} {E : Type κ} {A : Type μ} {B : Type ν}
    → S
    → Outcome E A
    → (A → Exec S E B)
    → S × Outcome E B
continue_with s (ok a) f = f a s
continue_with s (err e) f = (s, err e)
continue_with s panic f = (s, panic)

infixl 5 ◌>>=◌ ◌>>◌
abbrev pub ◌>>=◌ {ℓ κ μ ν} :
    {S : Type ℓ} {E : Type κ} {A : Type μ} {B : Type ν} → Exec S E A → (A → Exec S E B) → Exec S E B
◌>>=◌ m f s = continue_with (m s).0 (m s).1 f

abbrev pub ◌>>◌ {ℓ κ μ} :
    {S : Type ℓ} {E : Type κ} {B : Type μ} → Exec S E (Unit {0}) → Exec S E B → Exec S E B
m >> k = m >>= λ _. k

module _ {ℓ κ} {S : Type ℓ} {E : Type κ} where
  abbrev pub done {μ} : {A : Type μ} → A → Exec S E A
  done a s = (s, ok a)

  abbrev pub fail {μ} : {A : Type μ} → E → Exec S E A
  fail e s = (s, err e)

  abbrev pub gets {μ} : {A : Type μ} → (S → A) → Exec S E A
  gets f s = (s, ok (f s))

  abbrev pub modify : (S → S) → Exec S E (Unit {0})
  modify f s = (f s, ok tt)

  -- A step that leaves the state alone.
  abbrev pub lift {μ} : {A : Type μ} → Outcome E A → Exec S E A
  lift o s = (s, o)

  abbrev pub lifts {μ} : {A : Type μ} → (S → Outcome E A) → Exec S E A
  lifts f s = (s, f s)

-- `m`, and what is undone when it returns an error.
abbrev pub undone : {S E A : Type 0} → (S → S) → S → Outcome E A → S × Outcome E A
undone undo s (ok a) = (s, ok a)
undone undo s (err e) = (undo s, err e)
undone undo s panic = (s, panic)

abbrev pub on_error : {S E A : Type 0} → Exec S E A → (S → S) → Exec S E A
on_error m undo s = undone undo (m s).0 (m s).1

pub continue-cong :
    {S E A B : Type 0} (s : S) (o : Outcome E A) (f g : A → Exec S E B)
    → ((a : A) (x : S) → f a x ≡ g a x)
    → continue_with s o f ≡ continue_with s o g
continue-cong s (ok a) f g h = h a s
continue-cong s (err e) f g h = refl
continue-cong s panic f g h = refl

pub continue-continue :
    {S E A B D : Type 0} (s : S) (o : Outcome E A) (f : A → Exec S E B) (g : B → Exec S E D)
    → continue_with (continue_with s o f).0 (continue_with s o f).1 g
      ≡ continue_with s o (λ a. f a >>= g)
continue-continue s (ok a) f g = refl
continue-continue s (err e) f g = refl
continue-continue s panic f g = refl
