-- ===== src/Base/Endian.antt =====
-- Big-endian numbers over byte lists: encoding/binary's BigEndian reads and writes, and the reading
-- of a whole list as one number.
use Prim.Native.Nat.{ℕ, zero, suc, ◌+◌, ◌*◌, ◌/◌, ◌%◌, ◌^◌, ◌≤◌, ◌<◌}
use mathlib.Core.Path.{◌≡◌, refl, ap, ap₂, sym, ◌∙◌}
use mathlib.Core.Logic.{◌⊎◌}
use mathlib.Core.List.{List, [], ◌∷◌, ◌++◌}
use native.Mathlib.Nat.{
  pow-suc, div-one, one-le-pow, pow-le-pow_right, mul-add-div_right, div-div-eq-div-mul,
  mod-eq_of_lt, mul_comm,
}
use native.Mathlib.Omega.{arith}
use mini_db.Base.Lists.{length, drop, All, length-append, All-take, All-drop, length-take}
use mini_db.Base.Copy.{
  slice, splice, length-splice, All-splice, slice-splice_self, slice-splice_apart,
}
use mini_db.Base.Powers.{mod-mul, div_fields, pow-add}

abbrev pub IsByte : ℕ → Type 0
IsByte b = b < 256

abbrev pub IsBytes : List ℕ → Type 0
IsBytes = All IsByte

unfoldable pub from_be_acc : ℕ → List ℕ → ℕ
from_be_acc acc [] = acc
from_be_acc acc (b ∷ bs) = from_be_acc (acc * 256 + b) bs

-- The number that the bytes spell, most significant first.
unfoldable pub from_be : List ℕ → ℕ
unfolding from_be_acc
from_be bs = from_be_acc 0 bs

-- The `n` low bytes of a number, most significant first.
unfoldable pub to_be : ℕ → ℕ → List ℕ
to_be zero v = []
to_be (suc n) v = (v / 256 ^ n) % 256 ∷ to_be n v

-- BigEndian.Uint16/32/64(b[off:off+n]) and PutUint16/32/64.
unfoldable pub get_uint : ℕ → ℕ → List ℕ → ℕ
get_uint off n bs = from_be (slice off n bs)

unfoldable pub put_uint : ℕ → ℕ → ℕ → List ℕ → List ℕ
put_uint off n v bs = splice off (to_be n v) bs

pub length-to_be : (n v : ℕ) → length (to_be n v) ≡ n
unfolding to_be
length-to_be zero v = refl
length-to_be (suc n) v = ap suc (length-to_be n v)

pub to_be-IsBytes : (n v : ℕ) → IsBytes (to_be n v)
unfolding to_be
to_be-IsBytes zero v = tt
to_be-IsBytes (suc n) v = (omega arith, to_be-IsBytes n v)

pub from_be_acc-eq :
    (acc : ℕ) (bs : List ℕ) → from_be_acc acc bs ≡ acc * 256 ^ length bs + from_be bs
unfolding from_be
from_be_acc-eq acc [] = omega arith
from_be_acc-eq acc (b ∷ bs) = omega (
  arith,
  from_be_acc-eq (acc * 256 + b) bs,
  from_be_acc-eq (0 + b) bs,
  ap (λ (t : ℕ). acc * t) (pow-suc 256 (length bs)),
)

from_be-cons : (b : ℕ) (bs : List ℕ) → from_be (b ∷ bs) ≡ b * 256 ^ length bs + from_be bs
unfolding from_be
from_be-cons b bs = rw (from_be_acc-eq (0 + b) bs) (omega arith)

pub from_be-append :
    (xs ys : List ℕ) → from_be (xs ++ ys) ≡ from_be xs * 256 ^ length ys + from_be ys
unfolding from_be
from_be-append [] ys = omega arith
from_be-append (x ∷ xs) ys = omega (
  arith,
  from_be-cons x (xs ++ ys),
  from_be-append xs ys,
  ap (λ (t : ℕ). t * 256 ^ length ys) (from_be-cons x xs),
  ap (λ (k : ℕ). x * 256 ^ k) (length-append xs ys),
  ap (λ (t : ℕ). x * t) (pow-add 256 (length xs) (length ys)),
)

pub from_be-lt : (bs : List ℕ) → IsBytes bs → from_be bs < 256 ^ length bs
unfolding from_be
from_be-lt [] h = omega arith
from_be-lt (b ∷ bs) h = grind (arith, from_be-cons b bs, from_be-lt bs h.1, pow-suc 256 (length bs))

pub from_be-to_be_mod : (n v : ℕ) → from_be (to_be n v) ≡ v % 256 ^ n
unfolding to_be from_be
from_be-to_be_mod zero v = omega arith
from_be-to_be_mod (suc n) v = omega (
  arith,
  from_be-cons (v / 256 ^ n % 256) (to_be n v),
  from_be-to_be_mod n v,
  mod-mul v 256 (256 ^ n),
  pow-suc 256 n,
  ap (λ (k : ℕ). v / 256 ^ n % 256 * 256 ^ k) (length-to_be n v),
  ap (λ (t : ℕ). v % t) (pow-suc 256 n ∙ mul_comm (256 ^ n) 256),
)

pub from_be-to_be : (n v : ℕ) → v < 256 ^ n → from_be (to_be n v) ≡ v
from_be-to_be n v h = from_be-to_be_mod n v ∙ mod-eq_of_lt h

-- The last byte apart.
pub to_be-snoc : (n v : ℕ) → to_be (suc n) v ≡ to_be n (v / 256) ++ (v % 256) ∷ []
unfolding to_be
to_be-snoc zero v = rw div-one
to_be-snoc (suc n) v =
    ap₂ ◌∷◌
      (ap (λ t. t % 256)
        (ap (λ t. v / t) (pow-suc 256 n ∙ mul_comm (256 ^ n) 256)
          ∙ sym (div-div-eq-div-mul v 256 (256 ^ n))))
      (to_be-snoc n v)

to_be_low : (n q v : ℕ) → to_be n (q * 256 ^ n + v) ≡ to_be n v
unfolding to_be
to_be_low zero q v = refl
to_be_low (suc n) q v =
    let shifted : q * 256 ^ suc n ≡ q * 256 * 256 ^ n =
      omega (arith, ap (λ (t : ℕ). q * t) (pow-suc 256 n)) in
    rw shifted (
      ap₂ ◌∷◌ (rw (mul-add-div_right {m = 256 ^ n} (one-le-pow n 256 (omega arith))) (omega arith))
        (to_be_low n (q * 256) v))

pub to_be-from_be : (bs : List ℕ) → IsBytes bs → to_be (length bs) (from_be bs) ≡ bs
unfolding to_be
to_be-from_be [] h = refl
to_be-from_be (b ∷ bs) h = rw (
  from_be-cons b bs,
  to_be_low (length bs) b (from_be bs),
  to_be-from_be bs h.1,
  div_fields b (from_be bs) (256 ^ length bs) (from_be-lt bs h.1),
  mod-eq_of_lt h.0,
)

pub length-put_uint : (off n v : ℕ) (bs : List ℕ) → length (put_uint off n v bs) ≡ length bs
unfolding put_uint
length-put_uint off n v bs = length-splice off (to_be n v) bs

pub put_uint-IsBytes : (off n v : ℕ) (bs : List ℕ) → IsBytes bs → IsBytes (put_uint off n v bs)
unfolding put_uint
put_uint-IsBytes off n v bs h = All-splice IsByte off (to_be n v) bs (to_be-IsBytes n v) h

-- The bytes outside the field stay.
pub slice-put_uint :
    (o m off n v : ℕ) (bs : List ℕ)
    → (o + m ≤ off) ⊎ (off + n ≤ o)
    → slice o m (put_uint off n v bs) ≡ slice o m bs
unfolding put_uint
slice-put_uint o m off n v bs h =
    slice-splice_apart o m off (to_be n v) bs (rw (length-to_be n v) h)

pub get_uint-put_uint_apart :
    (o m off n v : ℕ) (bs : List ℕ)
    → (o + m ≤ off) ⊎ (off + n ≤ o)
    → get_uint o m (put_uint off n v bs) ≡ get_uint o m bs
unfolding get_uint
get_uint-put_uint_apart o m off n v bs h = ap from_be (slice-put_uint o m off n v bs h)

pub get_uint-put_uint_self :
    (off n v : ℕ) (bs : List ℕ)
    → off + n ≤ length bs
    → v < 256 ^ n
    → get_uint off n (put_uint off n v bs) ≡ v
unfolding get_uint put_uint
get_uint-put_uint_self off n v bs fits h =
    ap from_be (
      ap (λ k. slice off k (splice off (to_be n v) bs)) (sym (length-to_be n v))
      ∙ slice-splice_self off (to_be n v) bs (rw (length-to_be n v) fits))
    ∙ from_be-to_be n v h

-- A field of `n` bytes holds less than `256 ^ n`.
pub get_uint-lt : (off n : ℕ) (bs : List ℕ) → IsBytes bs → get_uint off n bs < 256 ^ n
unfolding get_uint
get_uint-lt off n bs h = omega (
  arith,
  from_be-lt (slice off n bs) (All-take IsByte n (drop off bs) (All-drop IsByte off bs h)),
  pow-le-pow_right {n = 256} (omega arith) {i = length (slice off n bs)} {j = n}
      (omega (arith, length-take n (drop off bs))),
)

-- Two readings agree where the bytes do.
pub get_uint_congr :
    (off n : ℕ) (bs cs : List ℕ)
    → slice off n bs ≡ slice off n cs
    → get_uint off n bs ≡ get_uint off n cs
unfolding get_uint
get_uint_congr off n bs cs e = ap from_be e
