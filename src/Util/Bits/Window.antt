-- ===== src/Util/Bits/Window.antt =====
-- The loops of bits.go over the window of at most three bytes, as big-endian numbers.
use Prim.Native.Nat.{bit_and, bit_or}
use native.Mathlib.Nat.{
  mod-eq_of_lt, mod-lt, div-add-mod', pow-suc, one-le-pow, add-zero, pow-le-pow_right,
}
use mini_db.Base.{
  ℕ, zero, suc, ◌+◌, ◌-◌, ◌*◌, ◌/◌, ◌%◌, ◌^◌, ◌≤◌, ◌<◌, ◌≡◌, refl, sym, ap, ap₂, ◌∙◌, List, [], ◌∷◌,
  ◌++◌, append_assoc, length, drop, set, length-set, drop-set_self, arith,
}
use mini_db.Base.BitLaws.{or_sum, or_fields, and_fields, and_mask, and-zero, or-zero}
use mini_db.Base.Endian.{IsBytes, from_be_acc, from_be, to_be, to_be-snoc}
use mini_db.Base.Fields.{field}
use mini_db.Base.Powers.{pow_pos}
use mini_db.Base.Words.{u8, u32}
use mini_db.Util.Bits.{pack, unpack, and_not}

-- As long as nothing is shifted out of 32 bits, the loop reads the window as one number.
pack-from_be :
    (acc : ℕ) (bs : List ℕ)
    → IsBytes bs
    → (acc + 1) * 256 ^ length bs ≤ 2 ^ 32
    → pack acc bs ≡ from_be_acc acc bs
unfolding pack from_be_acc
pack-from_be acc [] h fits = refl
pack-from_be acc (b ∷ bs) h fits =
    let p = one-le-pow (length bs) 256 (omega arith) in
    let e = pow-suc 256 (length bs) in
    let small : (acc + 1) * 256 ≤ 2 ^ 32 = grind arith in
    let step : (b + 1) * 256 ^ length bs ≤ 256 * 256 ^ length bs = grind arith in
    let grown = ap (λ (k : ℕ). (acc + 1) * k) e in
    let kept : bit_or (u32 (acc * 2 ^ 8)) b ≡ acc * 256 + b =
      rw (mod-eq_of_lt {n = acc * 2 ^ 8} {m = 2 ^ 32} (omega arith)) (or_sum 8 acc b h.0) in
    rw kept (pack-from_be (acc * 256 + b) bs h.1 (omega (arith, fits, step, grown)))

pub pack_window : (bs : List ℕ) → IsBytes bs → length bs ≤ 3 → pack 0 bs ≡ from_be bs
unfolding from_be
pack_window bs h n = pack-from_be 0 bs h (omega (arith, pow-le-pow_right {n = 256} (omega arith) n))

-- The loop that writes back leaves the low bytes of the number, the first ones first.
pub unpack-to_be :
    (i : ℕ) (w : List ℕ) (v : ℕ) → i ≤ length w → unpack i w v ≡ to_be i v ++ drop i w
unfolding unpack to_be
unpack-to_be zero w v h = refl
unpack-to_be (suc i) w v h =
    unpack-to_be i (set w i (u8 v)) (v / 2 ^ 8) (rw length-set (omega arith))
    ∙ (ap (λ r. to_be i (v / 2 ^ 8) ++ r) (drop-set_self w i (u8 v) h)
        ∙ (sym (append_assoc (to_be i (v / 2 ^ 8)) (u8 v ∷ []) (drop (suc i) w))
            ∙ ap (λ r. r ++ drop (suc i) w) (sym (to_be-snoc i v))))

or_field :
    (t l x a c : ℕ)
    → a < 2 ^ l
    → c < 2 ^ t
    → bit_or (x * 2 ^ l * 2 ^ t + c) (a * 2 ^ t) ≡ (x * 2 ^ l + a) * 2 ^ t + c
or_field t l x a c ha hc =
    let apart : bit_or (x * 2 ^ l * 2 ^ t + c) (a * 2 ^ t + 0) ≡ (x * 2 ^ l + a) * 2 ^ t + c =
      or_fields t (x * 2 ^ l) a c 0 hc (pow_pos t)
      ∙ ap₂ (λ m n. m * 2 ^ t + n) (or_sum l x a ha) (or-zero c) in
    rw add-zero at apart

-- Clearing a field and merging a value into it.
pub merge_field :
    (t l v a : ℕ)
    → a < 2 ^ l
    → bit_or (and_not v ((2 ^ l - 1) * 2 ^ t)) (a * 2 ^ t) + field t l v * 2 ^ t ≡ v + a * 2 ^ t
merge_field t l v a h =
    let q = v / 2 ^ t in
    let c = v % 2 ^ t in
    let whole = div-add-mod' v (2 ^ t) in
    let digits = ap (λ (k : ℕ). k * 2 ^ t) (div-add-mod' q (2 ^ l)) in
    let masked : bit_and v ((2 ^ l - 1) * 2 ^ t) ≡ q % 2 ^ l * 2 ^ t = ground (
      arith,
      pow_pos t,
      mod-lt v (pow_pos t),
      and_fields t q (2 ^ l - 1) c 0,
      and_mask l q,
      and-zero c,
    ) in
    let cleared : and_not v ((2 ^ l - 1) * 2 ^ t) ≡ q / 2 ^ l * 2 ^ l * 2 ^ t + c =
      omega (arith, masked, whole, digits) in
    rw (cleared, or_field t l (q / 2 ^ l) a c h (mod-lt v (pow_pos t)))
      (omega (arith, whole, digits))
