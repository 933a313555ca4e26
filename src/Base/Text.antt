-- ===== src/Base/Text.antt =====
-- Byte strings as keys.
use mini_db.Base.Tests.{◌==◌}
use mathlib.Core.Path.{◌≡◌}
use mathlib.Core.Logic.{◌↔◌}
use mathlib.Core.Bool.{Bool, true, false, ◌&&◌}
use mathlib.Core.List.{List, [], ◌∷◌}
use native.Mathlib.Omega.{arith}
use Prim.Native.Nat.{ℕ}
use mini_db.Base.Maps.{Key}

pub same_bytes : List ℕ → List ℕ → Bool
same_bytes [] [] = true
same_bytes [] (b ∷ bs) = false
same_bytes (a ∷ xs) [] = false
same_bytes (a ∷ xs) (b ∷ bs) = (a == b) && same_bytes xs bs

pub same_bytes_iff : (a b : List ℕ) → (same_bytes a b ≡ true) ↔ (a ≡ b)
unfolding same_bytes
same_bytes_iff [] [] = ground arith
same_bytes_iff [] (b ∷ bs) = ground arith
same_bytes_iff (a ∷ xs) [] = ground arith
same_bytes_iff (a ∷ xs) (b ∷ bs) = ground (arith, same_bytes_iff xs bs)

instance abbrev pub text_key : Key (List ℕ)
text_key = record { beq = same_bytes; beq_iff = same_bytes_iff }
