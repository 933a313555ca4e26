-- ===== src/Page/Tuple/Laws.antt =====
-- The packed fields of the tuple header: each setter sets its field and no other.
use mini_db.Base.{ℕ, ◌^◌, ◌<◌, ◌≡◌, inl, inr, ap, ◌∙◌, List, length, arith}
use native.Mathlib.Nat.{mod-eq_of_lt}
use mini_db.Base.Endian.{IsBytes}
use mini_db.Base.Outcome.{ok}
use mini_db.Base.Words.{u8}
use mini_db.Page.SlotEntry.{value_of}
use mini_db.Util.Bits.Stream.{IsRun}
use mini_db.Util.Bits.Laws.{
  IsWritten, write_bits_lem, read_bits-write_bits_self, read_bits-write_bits_apart,
}
use mini_db.Page.Tuple.{flags, set_flags, column_count, set_column_count}

-- The twelve bytes of a tuple header.
pub record IsHeader (h : List ℕ) : Type 0 where
  pub twelve : length h ≡ 12
  pub bytes_in_range : IsBytes h

module _ {h : List ℕ} (e : IsHeader h) where
  flags-IsRun : IsRun h 64 6
  flags-IsRun = record {
    bytes_in_range = e.bytes_in_range;
    positive = omega arith;
    narrow = omega arith;
    inside = omega (arith, e.twelve);
    small = omega (arith, e.twelve);
  }

  column_count-IsRun : IsRun h 70 10
  column_count-IsRun = record {
    bytes_in_range = e.bytes_in_range;
    positive = omega arith;
    narrow = omega arith;
    inside = omega (arith, e.twelve);
    small = omega (arith, e.twelve);
  }

IsWritten-IsHeader :
    {h : List ℕ} {o l val : ℕ} {new : List ℕ} → IsHeader h → IsWritten h o l val new → IsHeader new
IsWritten-IsHeader e w = record {
  twelve = w.same_length ∙ e.twelve;
  bytes_in_range = w.bytes_in_range;
}

-- SetColumnCount succeeds on every 10-bit value; ColumnCount then returns it, and Flags returns what
-- it returned before.
pub set_column_count_lem :
    (h : List ℕ) (val : ℕ)
    → IsHeader h
    → val < 2 ^ 10
    → (new : List ℕ) × (set_column_count h val ≡ ok new)
      × IsHeader new
      × (column_count new ≡ val)
      × (flags new ≡ flags h)
unfolding set_column_count column_count flags
set_column_count_lem h val e small =
    let r = column_count-IsRun e in
    let (new, written, w) = write_bits_lem h 70 10 val r small in
    (
      new,
      written,
      IsWritten-IsHeader e w,
      ap value_of (read_bits-write_bits_self h 70 10 val r written),
      ap (λ x. u8 (value_of x))
          (read_bits-write_bits_apart h 70 10 val 64 6 r (flags-IsRun e) (inl (omega arith))
            written),
    )

-- SetFlags succeeds on every 6-bit value; Flags then returns it, and ColumnCount returns what it
-- returned before.
pub set_flags_lem :
    (h : List ℕ) (val : ℕ)
    → IsHeader h
    → val < 2 ^ 6
    → (new : List ℕ) × (set_flags h val ≡ ok new)
      × IsHeader new
      × (flags new ≡ val)
      × (column_count new ≡ column_count h)
unfolding set_flags column_count flags
set_flags_lem h val e small =
    let r = flags-IsRun e in
    let (new, written, w) = write_bits_lem h 64 6 val r small in
    (
      new,
      written,
      IsWritten-IsHeader e w,
      ap (λ x. u8 (value_of x)) (read_bits-write_bits_self h 64 6 val r written)
          ∙ mod-eq_of_lt (omega arith),
      ap value_of (
          read_bits-write_bits_apart h 64 6 val 70 10 r (column_count-IsRun e) (inr (omega arith))
            written),
    )
