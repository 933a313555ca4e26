-- ===== src/Base/BitLaws.antt =====
-- `&` and `|` on numbers of any width: the law for the lowest digit, for two fields, and for masks.
use Prim.Native.Nat.{
  ℕ, zero, suc, ◌+◌, ◌-◌, ◌*◌, ◌/◌, ◌%◌, ◌^◌, ◌≤◌, ◌<◌, min, max, bit_and, bit_or, digits, bitwise,
  bit_and-bitwise, bit_or-bitwise,
}
use mathlib.Core.Path.{◌≡◌, refl, ap}
use native.Mathlib.Nat.{pow-suc, le_refl}
use native.Mathlib.Omega.{arith}
use mini_db.Base.Powers.{pow_pos}

module _ (z : ℕ → ℕ) (f : ℕ → ℕ → ℕ) where
  -- Two amounts of fuel that both cover the left number give the same digits.
  enough : (a b n m : ℕ) → a ≤ n → a ≤ m → digits z f n a b ≡ digits z f m a b
  enough zero b zero zero p q = refl
  enough zero b zero (suc m) p q = refl
  enough zero b (suc n) zero p q = refl
  enough zero b (suc n) (suc m) p q = refl
  enough (suc a) b zero m p q = absurd (omega arith)
  enough (suc a) b (suc n) zero p q = absurd (omega arith)
  enough (suc a) b (suc n) (suc m) p q =
      ap (λ d. d * 2 + f (suc a % 2) (b % 2))
        (enough (suc a / 2) (b / 2) n m (omega arith) (omega arith))

  lowest : (a b : ℕ) → 0 < a → bitwise z f a b ≡ bitwise z f (a / 2) (b / 2) * 2 + f (a % 2) (b % 2)
  lowest zero b h = absurd (omega arith)
  lowest (suc a) b h =
      ap (λ d. d * 2 + f (suc a % 2) (b % 2))
        (enough (suc a / 2) (b / 2) a (suc a / 2) (omega arith) (le_refl _))

pub and_lowest : (a b : ℕ) → bit_and a b ≡ bit_and (a / 2) (b / 2) * 2 + min (a % 2) (b % 2)
and_lowest zero b = omega (arith, bit_and-bitwise 0 b, bit_and-bitwise 0 (b / 2))
and_lowest (suc a) b = rw (bit_and-bitwise, bit_and-bitwise) (lowest _ min (suc a) b (omega arith))

pub or_lowest : (a b : ℕ) → bit_or a b ≡ bit_or (a / 2) (b / 2) * 2 + max (a % 2) (b % 2)
or_lowest zero b = omega (arith, bit_or-bitwise 0 b, bit_or-bitwise 0 (b / 2))
or_lowest (suc a) b = rw (bit_or-bitwise, bit_or-bitwise) (lowest _ max (suc a) b (omega arith))

pub zero-or : (a : ℕ) → bit_or 0 a ≡ a
zero-or a = bit_or-bitwise 0 a

pub zero-and : (a : ℕ) → bit_and 0 a ≡ 0
zero-and a = bit_and-bitwise 0 a

double : (x k : ℕ) → x * 2 ^ suc k ≡ 2 * (x * 2 ^ k)
double x k = omega (arith, ap (λ (t : ℕ). x * t) (pow-suc 2 k))

-- Both operations act on a high and a low field by themselves.
pub and_fields :
    (k x y r s : ℕ)
    → r < 2 ^ k
    → s < 2 ^ k
    → bit_and (x * 2 ^ k + r) (y * 2 ^ k + s) ≡ bit_and x y * 2 ^ k + bit_and r s
and_fields zero x y r s hr hs = ground (arith, zero-and 0)
and_fields (suc k) x y r s hr hs = ground (
  arith,
  pow-suc 2 k,
  double x k,
  double y k,
  double (bit_and x y) k,
  and_lowest (x * 2 ^ suc k + r) (y * 2 ^ suc k + s),
  and_lowest r s,
  and_fields k x y (r / 2) (s / 2),
)

pub or_fields :
    (k x y r s : ℕ)
    → r < 2 ^ k
    → s < 2 ^ k
    → bit_or (x * 2 ^ k + r) (y * 2 ^ k + s) ≡ bit_or x y * 2 ^ k + bit_or r s
or_fields zero x y r s hr hs = ground (arith, zero-or 0)
or_fields (suc k) x y r s hr hs = ground (
  arith,
  pow-suc 2 k,
  double x k,
  double y k,
  double (bit_or x y) k,
  or_lowest (x * 2 ^ suc k + r) (y * 2 ^ suc k + s),
  or_lowest r s,
  or_fields k x y (r / 2) (s / 2),
)

and-zero_below : (n a : ℕ) → a ≤ n → bit_and a 0 ≡ 0
and-zero_below n zero h = zero-and 0
and-zero_below zero (suc a) h = absurd (omega arith)
and-zero_below (suc n) (suc a) h =
    omega (arith, and_lowest (suc a) 0, and-zero_below n (suc a / 2) (omega arith))

pub and-zero : (a : ℕ) → bit_and a 0 ≡ 0
and-zero a = and-zero_below a a (le_refl a)

or-zero_below : (n a : ℕ) → a ≤ n → bit_or a 0 ≡ a
or-zero_below n zero h = zero-or 0
or-zero_below zero (suc a) h = absurd (omega arith)
or-zero_below (suc n) (suc a) h =
    omega (arith, or_lowest (suc a) 0, or-zero_below n (suc a / 2) (omega arith))

pub or-zero : (a : ℕ) → bit_or a 0 ≡ a
or-zero a = or-zero_below a a (le_refl a)

and_ones : (k r : ℕ) → r < 2 ^ k → bit_and r (2 ^ k - 1) ≡ r
and_ones zero r h = ground (arith, and-zero r)
and_ones (suc k) r h =
    ground (arith, pow-suc 2 k, pow_pos k, and_lowest r (2 ^ suc k - 1), and_ones k (r / 2))

-- A mask of the `k` low bits is the remainder by `2 ^ k`.
pub and_mask : (k a : ℕ) → bit_and a (2 ^ k - 1) ≡ a % 2 ^ k
and_mask k a = ground (
  arith,
  pow_pos k,
  and-zero (a / 2 ^ k),
  and_ones k (a % 2 ^ k),
  and_fields k (a / 2 ^ k) 0 (a % 2 ^ k) (2 ^ k - 1),
)

-- `a << k | r` is a sum when `r` fits `k` bits.
pub or_sum : (k a r : ℕ) → r < 2 ^ k → bit_or (a * 2 ^ k) r ≡ a * 2 ^ k + r
or_sum k a r h = ground (arith, pow_pos k, or-zero a, zero-or r, or_fields k a 0 0 r)
