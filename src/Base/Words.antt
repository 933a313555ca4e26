-- ===== src/Base/Words.antt =====
-- Go's unsigned integers of fixed width: conversions cut bits off, and subtraction wraps around.
use Prim.Native.Nat.{ℕ, ◌+◌, ◌-◌, ◌%◌, ◌^◌}

abbrev pub u8 : ℕ → ℕ
u8 n = n % 2 ^ 8

abbrev pub u16 : ℕ → ℕ
u16 n = n % 2 ^ 16

abbrev pub u32 : ℕ → ℕ
u32 n = n % 2 ^ 32

abbrev pub u64 : ℕ → ℕ
u64 n = n % 2 ^ 64

-- a - b on operands of the width; `-` on ℕ stops at 0, so the modulus is added first.
abbrev pub sub16 : ℕ → ℕ → ℕ
sub16 a b = (a + 2 ^ 16 - b) % 2 ^ 16

abbrev pub sub32 : ℕ → ℕ → ℕ
sub32 a b = (a + 2 ^ 32 - b) % 2 ^ 32
