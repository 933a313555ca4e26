-- ===== src/Base/Fields.antt =====
-- A run of bits inside a number: `field t l v` is the `l` bits that stand above the `t` low ones.
use Prim.Native.Nat.{ℕ, ◌+◌, ◌-◌, ◌*◌, ◌/◌, ◌%◌, ◌^◌, ◌≤◌, ◌<◌}
use mathlib.Core.Path.{◌≡◌, ap, sym, ◌∙◌}
use mathlib.Core.Logic.{◌⊎◌, inl, inr}
use native.Mathlib.Nat.{
  div-div-eq-div-mul, mul-add-div_right, mul-add-mod_self_right, mod-lt, mod-eq_of_lt, div-add-mod',
  div-eq_of_lt, div-lt_iff_lt-mul,
}
use native.Mathlib.Omega.{arith}
use mini_db.Base.Powers.{pow-add, pow_pos, div_fields, mod_fields}

abbrev pub field : ℕ → ℕ → ℕ → ℕ
field t l v = v / 2 ^ t % 2 ^ l

pub div-pow-add : (v s t : ℕ) → v / 2 ^ (s + t) ≡ v / 2 ^ s / 2 ^ t
div-pow-add v s t = ap (λ k. v / k) (pow-add 2 s t) ∙ sym (div-div-eq-div-mul v (2 ^ s) (2 ^ t))

-- What stands above a field and what stands below it do not disturb it.
pub field_below : (t l d x c : ℕ) → field t l (x * 2 ^ (t + l + d) + c) ≡ field t l c
field_below t l d x c =
    rw (regroup, mul-add-div_right {m = 2 ^ t} (pow_pos t) (x * 2 ^ d * 2 ^ l) c)
      (mul-add-mod_self_right (x * 2 ^ d) (2 ^ l) (c / 2 ^ t))
  where
    regroup : x * 2 ^ (t + l + d) ≡ x * 2 ^ d * 2 ^ l * 2 ^ t
    regroup = omega (
      arith,
      ap (λ (k : ℕ). x * k) (pow-add 2 (t + l) d),
      ap (λ (k : ℕ). x * (k * 2 ^ d)) (pow-add 2 t l),
    )

pub field_above : (t l x c : ℕ) → c < 2 ^ t → x < 2 ^ l → field t l (x * 2 ^ t + c) ≡ x
field_above t l x c hc hx = rw (div_fields x c (2 ^ t) hc) (mod-eq_of_lt hx)

div_high :
    (t l d h m c : ℕ)
    → c < 2 ^ t
    → m < 2 ^ l
    → ((h * 2 ^ l + m) * 2 ^ t + c) / 2 ^ (t + l + d) ≡ h / 2 ^ d
div_high t l d h m c hc hm =
    div-pow-add ((h * 2 ^ l + m) * 2 ^ t + c) (t + l) d
    ∙ ap (λ k. k / 2 ^ d)
        (div-pow-add ((h * 2 ^ l + m) * 2 ^ t + c) t l
          ∙ rw (div_fields (h * 2 ^ l + m) c (2 ^ t) hc) (div_fields h m (2 ^ l) hm))

-- `w` is `v` with the field overwritten by `a`.
abbrev pub Replaced : ℕ → ℕ → ℕ → ℕ → ℕ → Type 0
Replaced t l a v w = w + field t l v * 2 ^ t ≡ v + a * 2 ^ t

module _ (t l a v w : ℕ) (fits : a < 2 ^ l) (r : Replaced t l a v w) where
  abbrev high : ℕ
  high = v / 2 ^ t / 2 ^ l

  abbrev low : ℕ
  low = v % 2 ^ t

  old_parts : v ≡ (high * 2 ^ l + field t l v) * 2 ^ t + low
  old_parts =
      omega (
        arith,
        div-add-mod' v (2 ^ t),
        ap (λ (k : ℕ). k * 2 ^ t) (div-add-mod' (v / 2 ^ t) (2 ^ l)),
      )

  new_parts : w ≡ (high * 2 ^ l + a) * 2 ^ t + low
  new_parts = omega (arith, r, old_parts)

  pub Replaced-field_self : field t l w ≡ a
  Replaced-field_self =
      let c = mod-lt v (pow_pos t) in
      rw (new_parts, div_fields (high * 2 ^ l + a) low (2 ^ t) c) (mod_fields high a (2 ^ l) fits)

  pub Replaced-high : (d : ℕ) → w / 2 ^ (t + l + d) ≡ v / 2 ^ (t + l + d)
  Replaced-high d =
      let m = field t l v in
      let c = mod-lt v (pow_pos t) in
      let b = mod-lt (v / 2 ^ t) (pow_pos l) in
      ap (λ k. k / 2 ^ (t + l + d)) new_parts
      ∙ (div_high t l d high a low c fits
          ∙ sym (ap (λ k. k / 2 ^ (t + l + d)) old_parts ∙ div_high t l d high m low c b))

  pub Replaced-field_above : (t' l' : ℕ) → t + l ≤ t' → field t' l' w ≡ field t' l' v
  Replaced-field_above t' l' h =
      let e : t' ≡ t + l + (t' - (t + l)) = omega arith in
      rw e (ap (λ k. k % 2 ^ l') (Replaced-high (t' - (t + l))))

  -- The number does not outgrow a bound of whole digits above the field.
  pub Replaced-lt : (d : ℕ) → v < 2 ^ (t + l + d) → w < 2 ^ (t + l + d)
  Replaced-lt d h =
      let p = pow_pos (t + l + d) in
      let z : w / 2 ^ (t + l + d) < 1 = rw (Replaced-high d, div-eq_of_lt h) (omega arith) in
      omega (arith, (div-lt_iff_lt-mul p).0 z)

  pub Replaced-field_below : (t' l' : ℕ) → t' + l' ≤ t → field t' l' w ≡ field t' l' v
  Replaced-field_below t' l' h =
      let d = t - (t' + l') in
      let e : t ≡ t' + l' + d = omega arith in
      let same = λ (x : ℕ). ap (λ k. field t' l' (x * 2 ^ k + low)) e ∙ field_below t' l' d x low in
      ap (field t' l') new_parts
      ∙ (same (high * 2 ^ l + a)
          ∙ (sym (same (high * 2 ^ l + field t l v)) ∙ sym (ap (field t' l') old_parts)))

  pub Replaced-field_apart :
      (t' l' : ℕ) → (t' + l' ≤ t) ⊎ (t + l ≤ t') → field t' l' w ≡ field t' l' v
  Replaced-field_apart t' l' (inl h) = Replaced-field_below t' l' h
  Replaced-field_apart t' l' (inr h) = Replaced-field_above t' l' h
