-- ===== src/Base/Powers.antt =====
-- Powers, and division with remainder by products. The tactics read `2 ^ k` as an unknown.
use Prim.Native.Nat.{ℕ, zero, suc, ◌+◌, ◌*◌, ◌/◌, ◌%◌, ◌^◌, ◌<◌}
use mathlib.Core.Path.{◌≡◌, refl, ap}
use native.Mathlib.Nat.{
  pow-zero, pow-suc, add-zero, add-suc, mul_comm, one-le-pow, div-div-eq-div-mul, mul-add-div_right,
  mul-add-mod_self_right, div-add-mod', div-eq_of_lt, mod-eq_of_lt,
}
use native.Mathlib.Omega.{arith}

pub pow-add : (b m n : ℕ) → b ^ (m + n) ≡ b ^ m * b ^ n
pow-add b m zero = rw (add-zero, pow-zero) (omega arith)
pow-add b m (suc n) = rw (add-suc, pow-suc, pow-suc, pow-add b m n) (omega arith)

pub pow_pos : (k : ℕ) → 0 < 2 ^ k
pow_pos k = one-le-pow k 2 (omega arith)

pub pow_256 : (n : ℕ) → 256 ^ n ≡ 2 ^ (8 * n)
pow_256 zero = refl
pow_256 (suc n) =
    rw pow-suc (omega (arith, pow_256 n, pow-add 2 8 (8 * n), ap (λ (k : ℕ). 2 ^ k) eight_more))
  where
    eight_more : 8 * suc n ≡ 8 + 8 * n
    eight_more = omega arith

-- The remainder by a product, digit by digit.
pub mod-mul : (v a b : ℕ) → v % (a * b) ≡ (v / b % a) * b + v % b
mod-mul v a b = omega (
  arith,
  div-add-mod' v b,
  ap (λ (t : ℕ). t * b) (div-add-mod' (v / b) a),
  div-add-mod' v (a * b),
  ap (λ (t : ℕ). t * (a * b)) (div-div-eq-div-mul v b a),
  ap (λ (t : ℕ). v / t * (a * b)) (mul_comm b a),
)

pub div_fields : (q r k : ℕ) → r < k → (q * k + r) / k ≡ q
div_fields q r k h = rw (mul-add-div_right {m = k} (omega arith) q r, div-eq_of_lt h) (omega arith)

pub mod_fields : (q r k : ℕ) → r < k → (q * k + r) % k ≡ r
mod_fields q r k h = rw mul-add-mod_self_right (mod-eq_of_lt h)
