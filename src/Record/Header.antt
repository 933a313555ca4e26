-- ===== src/Record/Header.antt =====
-- The tuple header that Encode writes, checked for every number of columns by evaluation.
use mini_db.Base.{
  ℕ, ◌+◌, ◌<◌, ◌≡◌, refl, Bool, true, false, not, ◌&&◌, List, length, replicate, ◌==◌,
  if◌then◌else◌, arith,
}
use mini_db.Base.Copy.{splice}
use mini_db.Base.Outcome.{Outcome, ok, err, panic}
use mini_db.Util.Bits.{read_bits, write_bits}
use mini_db.Page.Tuple.{column_count, set_column_count, hoff, set_hoff, has_null, set_flags}
use mini_db.Record.{RecordError, bitmap_size, encode_header}
use mini_db.Record.Nulls.{all_below, all_below_sound}

-- The header of a zeroed buffer, for every number of columns that fits its field.
abbrev pub start_of : Bool → ℕ → ℕ
start_of some_null n = 12 + bitmap_size some_null n

abbrev right_header : Bool → ℕ → List ℕ → Bool
right_header some_null n h =
    (length h == 12)
    && ((column_count h == n)
        && ((hoff h == start_of some_null n)
            && (if some_null then has_null h else not (has_null h))))

abbrev is_right : Bool → ℕ → Outcome RecordError (List ℕ) → Bool
is_right some_null n (ok h) = right_header some_null n h
is_right some_null n (err e) = false
is_right some_null n panic = false

abbrev pub header_of : Bool → ℕ → Outcome RecordError (List ℕ)
header_of some_null n = encode_header some_null n (start_of some_null n) (replicate 12 0)

header_table :
    (all_below 1024 (λ n. is_right true n (header_of true n)) ≡ true)
    × (all_below 1024 (λ n. is_right false n (header_of false n)) ≡ true)
unfolding all_below encode_header column_count hoff has_null set_column_count write_bits set_flags
    set_hoff splice read_bits
header_table = (refl, refl)

-- The header that Encode writes, as Decode reads it.
pub record IsHeaderOf (some_null : Bool) (n : ℕ) (h : List ℕ) : Type 0 where
  pub twelve : length h ≡ 12
  pub columns : column_count h ≡ n
  pub offset : hoff h ≡ start_of some_null n
  pub nulls : has_null h ≡ some_null

right-IsHeaderOf :
    (some_null : Bool) (n : ℕ) (h : List ℕ)
    → right_header some_null n h ≡ true
    → IsHeaderOf some_null n h
right-IsHeaderOf true n h e = ground (arith, e)
right-IsHeaderOf false n h e = ground (arith, e)

right_outcome :
    (some_null : Bool) (n : ℕ) (o : Outcome RecordError (List ℕ))
    → is_right some_null n o ≡ true
    → (h : List ℕ) × (o ≡ ok h) × IsHeaderOf some_null n h
right_outcome some_null n (ok h) e = (h, refl, right-IsHeaderOf some_null n h e)
right_outcome some_null n (err x) e = cc
right_outcome some_null n panic e = cc

-- On at most 1023 columns Encode writes a header, which Decode reads back.
pub header_lem :
    (some_null : Bool) (n : ℕ)
    → n < 1024
    → (h : List ℕ) × (header_of some_null n ≡ ok h) × IsHeaderOf some_null n h
header_lem true n l =
    right_outcome true n (header_of true n)
      (all_below_sound 1024 (λ m. is_right true m (header_of true m)) n header_table.0 l)
header_lem false n l =
    right_outcome false n (header_of false n)
      (all_below_sound 1024 (λ m. is_right false m (header_of false m)) n header_table.1 l)
