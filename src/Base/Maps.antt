-- ===== src/Base/Maps.antt =====
-- A Go map as an association list, over keys with a Boolean equality.
use mathlib.Core.Path.{◌≡◌}
use mathlib.Core.Logic.{◌↔◌}
use mathlib.Core.Bool.{Bool, true}
use mathlib.Core.List.{List, [], ◌∷◌}
use mathlib.Core.Option.{Option, none, some}
use native.Mathlib.Omega.{arith}
use mini_db.Base.Tests.{if◌then◌else◌, ==_iff}
use mini_db.Base.Tests
use Prim.Native.Nat.{ℕ}

pub record Key {ℓ} (K : Type ℓ) : Type ℓ where
  pub beq : K → K → Bool
  pub beq_iff : (a b : K) → (beq a b ≡ true) ↔ (a ≡ b)

infix 50 ◌=?◌
abbrev pub ◌=?◌ {ℓ} : {K : Type ℓ} ⦃k : Key K⦄ → K → K → Bool
◌=?◌ ⦃k⦄ = k.beq

instance abbrev pub nat_key : Key ℕ
nat_key = record { beq = Tests.◌==◌; beq_iff = ==_iff }

module _ {ℓ κ} {K : Type ℓ} {V : Type κ} ⦃key : Key K⦄ where
  unfoldable pub lookup : K → List (K × V) → Option V
  lookup k [] = none
  lookup k ((j, v) ∷ m) = if j =? k then some v else lookup k m

  -- `delete(m, k)`
  unfoldable pub remove : K → List (K × V) → List (K × V)
  remove k [] = []
  remove k ((j, v) ∷ m) = if j =? k then remove k m else (j, v) ∷ remove k m

  -- `m[k] = v`
  unfoldable pub insert : K → V → List (K × V) → List (K × V)
  unfolding remove
  insert k v m = (k, v) ∷ remove k m

  pub lookup-remove :
      (k j : K) (m : List (K × V)) → lookup j (remove k m) ≡ (if k =? j then none else lookup j m)
  unfolding lookup remove
  lookup-remove k j [] = ground arith
  lookup-remove k j ((i, v) ∷ m) =
      ground (arith, key.beq_iff k j, key.beq_iff i k, key.beq_iff i j, lookup-remove k j m)

  pub lookup-insert :
      (k j : K) (v : V) (m : List (K × V))
      → lookup j (insert k v m) ≡ (if k =? j then some v else lookup j m)
  unfolding lookup insert
  lookup-insert k j v m = ground (arith, lookup-remove k j m)
