-- ===== src/Record/Nulls.antt =====
-- The null bitmap: the bits that Encode sets are those that Decode tests.
use Prim.Native.Nat.{bit_and, bit_or}
use native.Mathlib.Decide.{dec_lt}
use mini_db.Base.{
  ℕ, zero, suc, ◌+◌, ◌*◌, ◌/◌, ◌%◌, ◌^◌, ◌≤◌, ◌<◌, ◌≡◌, ◌≢◌, refl, sym, ap, ◌∙◌, inl, inr, Bool,
  true, false, not, ◌&&◌, List, [], ◌∷◌, length, get_or, set, ltb, ◌==◌, if◌then◌else◌, length-set,
  get_or-set_self, get_or-set, lt→ltb, Bool-cases, arith,
}
use mini_db.Base.Outcome.{ok}
use mini_db.Record.{Value, is_null, null_at, mark_nulls}
use mini_db.Record.Columns.{NullsAt}

abbrev pub any_null : List Value → Bool
any_null [] = false
any_null (v ∷ vs) = if is_null v then true else any_null vs

-- Bit b of a byte.
abbrev pub has_bit : ℕ → ℕ → Bool
has_bit x b = not (bit_and x (2 ^ b) == 0)

unfoldable pub all_below : ℕ → (ℕ → Bool) → Bool
all_below zero p = true
all_below (suc n) p = p n && all_below n p

pub all_below_sound : (n : ℕ) (p : ℕ → Bool) (x : ℕ) → all_below n p ≡ true → x < n → p x ≡ true
unfolding all_below
all_below_sound zero p x h l = absurd (omega arith)
all_below_sound (suc n) p x h l = ground (arith, all_below_sound n p x)

-- What `|= 1 << a` does to a byte.
abbrev sets_bit : ℕ → ℕ → ℕ → Bool
sets_bit a b x =
    if a == b
    then has_bit (bit_or x (2 ^ a)) b && ltb (bit_or x (2 ^ a)) 256
    else (if has_bit (bit_or x (2 ^ a)) b then has_bit x b else not (has_bit x b))

sets_bit_table : all_below 8 (λ a. all_below 8 (λ b. all_below 256 (sets_bit a b))) ≡ true
unfolding all_below
sets_bit_table = refl

-- Setting bit a of a byte sets that bit and no other.
sets_bit_lem : (a b x : ℕ) → a < 8 → b < 8 → x < 256 → sets_bit a b x ≡ true
sets_bit_lem a b x h l m =
    all_below_sound 256 (sets_bit a b) x
      (all_below_sound 8 (λ c. all_below 256 (sets_bit a c)) b
        (all_below_sound 8 (λ c. all_below 8 (λ d. all_below 256 (sets_bit c d))) a sets_bit_table
          h)
        l)
      m

sets_same :
    (a x : ℕ) → a < 8 → x < 256 → (has_bit (bit_or x (2 ^ a)) a ≡ true) × (bit_or x (2 ^ a) < 256)
sets_same a x h m = ground (arith, sets_bit_lem a a x h h m)

sets_other :
    (a b x : ℕ) → a < 8 → b < 8 → x < 256 → a ≢ b → has_bit (bit_or x (2 ^ a)) b ≡ has_bit x b
sets_other a b x h l m ne = ground (arith, sets_bit_lem a b x h l m)

-- Bit j of the bitmap.
abbrev pub bit_of : List ℕ → ℕ → Bool
bit_of bitmap j = has_bit (get_or bitmap (j / 8) 0) (j % 8)

abbrev pub AreBytes : List ℕ → Type 0
AreBytes bitmap = (j : ℕ) → get_or bitmap j 0 < 256

-- The bitmap with bit i set.
abbrev marked : ℕ → List ℕ → List ℕ
marked i bitmap = set bitmap (i / 8) (bit_or (get_or bitmap (i / 8) 0) (2 ^ (i % 8)))

module _ (i : ℕ) (bitmap : List ℕ) (small : AreBytes bitmap) (inside : i / 8 < length bitmap) where
  marked_at : get_or (marked i bitmap) (i / 8) 0 ≡ bit_or (get_or bitmap (i / 8) 0) (2 ^ (i % 8))
  marked_at =
      get_or-set_self bitmap (i / 8) (bit_or (get_or bitmap (i / 8) 0) (2 ^ (i % 8))) 0 inside

  marked_apart : (j : ℕ) → i / 8 ≢ j → get_or (marked i bitmap) j 0 ≡ get_or bitmap j 0
  marked_apart j ne =
      get_or-set bitmap (i / 8) j (bit_or (get_or bitmap (i / 8) 0) (2 ^ (i % 8))) 0 inside
      ∙ (ground (arith, ne))

  same_byte :
      {j : ℕ} → i / 8 ≡ j → get_or (marked i bitmap) j 0 ≡ bit_or (get_or bitmap j 0) (2 ^ (i % 8))
  same_byte {j} e =
      ap (λ z. get_or (marked i bitmap) z 0) (sym e)
      ∙ (marked_at ∙ ap (λ z. bit_or (get_or bitmap z 0) (2 ^ (i % 8))) e)

  bit_marked : bit_of (marked i bitmap) i ≡ true
  bit_marked =
      ap (λ z. has_bit z (i % 8)) marked_at
      ∙ (sets_same (i % 8) (get_or bitmap (i / 8) 0) (omega arith) (small (i / 8))).0

  bit_kept : (j : ℕ) → i ≢ j → bit_of (marked i bitmap) j ≡ bit_of bitmap j
  bit_kept j ne = elim (dec_lt (i / 8) (j / 8)) [
    | yes less ↦ ap (λ z. has_bit z (j % 8)) (marked_apart (j / 8) (λ e. omega arith))
    | no not_less ↦ elim (dec_lt (j / 8) (i / 8)) [
      | yes more ↦ ap (λ z. has_bit z (j % 8)) (marked_apart (j / 8) (λ e. omega arith))
      | no same ↦
          ap (λ z. has_bit z (j % 8)) (same_byte {j = j / 8} (omega arith))
          ∙ sets_other (i % 8) (j % 8) (get_or bitmap (j / 8) 0) (omega arith) (omega arith)
              (small (j / 8)) (λ e. ne (omega arith))
    ]
  ]

  marked-AreBytes : AreBytes (marked i bitmap)
  marked-AreBytes j = elim (dec_lt (i / 8) j) [
    | yes less ↦ omega (arith, marked_apart j (λ e. omega arith), small j)
    | no not_less ↦ elim (dec_lt j (i / 8)) [
      | yes more ↦ omega (arith, marked_apart j (λ e. omega arith), small j)
      | no same ↦ omega (
        arith,
        same_byte {j = j} (omega arith),
        (sets_same (i % 8) (get_or bitmap j 0) (omega arith) (small j)).1,
      )
    ]
  ]

-- A bitmap that says of each column from i on whether its value is nil, and keeps the bits before.
pub record Marks (i : ℕ) (vs : List Value) (bitmap new : List ℕ) : Type 0 where
  pub same_length : length new ≡ length bitmap
  pub before : (j : ℕ) → j < i → bit_of new j ≡ bit_of bitmap j
  pub nulls : NullsAt true new i vs

null_at_lem :
    (i : ℕ) (bitmap : List ℕ) (b : Bool)
    → i / 8 < length bitmap
    → bit_of bitmap i ≡ b
    → null_at true bitmap i ≡ ok b
unfolding null_at
null_at_lem i bitmap b inside e = rw (lt→ltb (i / 8) (length bitmap) inside, e) refl

-- With room for its bits, and none of them set from column i on, the bitmap that Encode makes of a zeroed
-- one says which values are nil.
pub mark_nulls_lem :
    (i : ℕ) (vs : List Value) (bitmap : List ℕ)
    → AreBytes bitmap
    → i + length vs ≤ 8 * length bitmap
    → ((j : ℕ) → i ≤ j → bit_of bitmap j ≡ false)
    → (new : List ℕ) × (mark_nulls i vs bitmap ≡ ok new) × Marks i vs bitmap new
unfolding mark_nulls
mark_nulls_lem i [] bitmap small room clear =
    (bitmap, refl, record { same_length = refl; before = λ j l. refl; nulls = tt })
mark_nulls_lem i (v ∷ vs) bitmap small room clear = elim (Bool-cases (is_null v)) [
  | inl nil ↦
      let inside : i / 8 < length bitmap = omega arith in
      let size : length (marked i bitmap) ≡ length bitmap =
        length-set bitmap (i / 8) (bit_or (get_or bitmap (i / 8) 0) (2 ^ (i % 8))) in
      let (new, run, m) =
        mark_nulls_lem (i + 1) vs (marked i bitmap) (marked-AreBytes i bitmap small inside)
          (omega (arith, size))
          (λ j l. bit_kept i bitmap small inside j (λ e. omega arith) ∙ clear j (omega arith)) in
      (
        new,
        rw (nil, lt→ltb (i / 8) (length bitmap) inside) run,
        record {
          same_length = m.same_length ∙ size;
          before =
              λ j l. m.before j (omega arith) ∙ bit_kept i bitmap small inside j (λ e. omega arith);
          nulls = (
            null_at_lem i new (is_null v) (omega (arith, m.same_length, size))
                (m.before i (omega arith) ∙ (bit_marked i bitmap small inside ∙ sym nil)),
            m.nulls,
          );
        },
      )
  | inr some ↦
      let (new, run, m) =
        mark_nulls_lem (i + 1) vs bitmap small (omega arith) (λ j l. clear j (omega arith)) in
      (
        new,
        rw some run,
        record {
          same_length = m.same_length;
          before = λ j l. m.before j (omega arith);
          nulls = (
            null_at_lem i new (is_null v) (omega (arith, m.same_length))
                (m.before i (omega arith) ∙ (clear i (omega arith) ∙ sym some)),
            m.nulls,
          );
        },
      )
]

-- Without a nil value no bit is set, and none is asked for.
pub no_nulls :
    (i : ℕ) (vs : List Value) (bitmap : List ℕ)
    → any_null vs ≡ false
    → (mark_nulls i vs bitmap ≡ ok bitmap) × NullsAt false bitmap i vs
unfolding mark_nulls null_at
no_nulls i [] bitmap e = (refl, tt)
no_nulls i (v ∷ vs) bitmap e =
    let some : is_null v ≡ false = ground (arith, e) in
    let (run, nulls) = no_nulls (i + 1) vs bitmap (ground (arith, e, some)) in
    (rw some run, (ap (λ z. ok z) (sym some), nulls))
