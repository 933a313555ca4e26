-- ===== src/Page/SlotEntry/Laws.antt =====
-- The three fields of a slot entry as arithmetic on its four bytes, and their independence.
use mini_db.Base.{
  ℕ, ◌+◌, ◌/◌, ◌%◌, ◌^◌, ◌≤◌, ◌<◌, ◌≡◌, inl, inr, refl, ap, ◌∙◌, List, length, arith,
}
use mini_db.Base.Endian.{IsBytes, from_be}
use mini_db.Base.Outcome.{ok}
use mini_db.Base.Words.{u8}
use native.Mathlib.Nat.{mod-eq_of_lt}
use mini_db.Util.Bits.Stream.{IsRun}
use mini_db.Util.Bits.Laws.{
  IsWritten, read_bits_lem, write_bits_lem, read_bits-write_bits_self, read_bits-write_bits_apart,
}
use mini_db.Page.SlotEntry.{
  value_of, offset, entry_length, flag, set_offset, set_entry_length, set_flag,
}

-- The four bytes of an entry.
pub record IsEntry (s : List ℕ) : Type 0 where
  pub four : length s ≡ 4
  pub bytes_in_range : IsBytes s

module _ {s : List ℕ} (e : IsEntry s) where
  IsRun-at : (o l : ℕ) → 0 < l → l ≤ 16 → o + l ≤ 32 → IsRun s o l
  IsRun-at o l p n i = record {
    bytes_in_range = e.bytes_in_range;
    positive = p;
    narrow = n;
    inside = omega (arith, e.four);
    small = omega (arith, e.four);
  }

  pub offset-IsRun : IsRun s 0 15
  offset-IsRun = IsRun-at 0 15 (omega arith) (omega arith) (omega arith)

  pub len-IsRun : IsRun s 15 15
  len-IsRun = IsRun-at 15 15 (omega arith) (omega arith) (omega arith)

  pub flag-IsRun : IsRun s 30 2
  flag-IsRun = IsRun-at 30 2 (omega arith) (omega arith) (omega arith)

-- The getters as arithmetic on the entry read as one 32-bit number.
pub entry_fields :
    (s : List ℕ)
    → IsEntry s
    → (offset s ≡ from_be s / 2 ^ 17 % 2 ^ 15)
      × (entry_length s ≡ from_be s / 2 ^ 2 % 2 ^ 15)
      × (flag s ≡ from_be s % 2 ^ 2)
unfolding offset entry_length flag
entry_fields s e = (
  rw (read_bits_lem s 0 15 (offset-IsRun e), e.four) refl,
  rw (read_bits_lem s 15 15 (len-IsRun e), e.four) refl,
  rw (read_bits_lem s 30 2 (flag-IsRun e), e.four) (omega arith),
)

-- The four bytes of an entry with the given fields.
pub record IsEntryWith (o l f : ℕ) (s : List ℕ) : Type 0 where
  pub entry : IsEntry s
  pub offset_is : offset s ≡ o
  pub length_is : entry_length s ≡ l
  pub flag_is : flag s ≡ f

IsWritten-IsEntry :
    {s : List ℕ} {o l val : ℕ} {new : List ℕ} → IsEntry s → IsWritten s o l val new → IsEntry new
IsWritten-IsEntry e w = record { four = w.same_length ∙ e.four; bytes_in_range = w.bytes_in_range }

-- SetOffset succeeds on every 15-bit value; Offset then returns it, and Length and Flag return what
-- they returned before.
pub set_offset_lem :
    (s : List ℕ) (val : ℕ)
    → IsEntry s
    → val < 2 ^ 15
    → (new : List ℕ) × (set_offset s val ≡ ok new) × IsEntryWith val (entry_length s) (flag s) new
unfolding set_offset offset entry_length flag
set_offset_lem s val e h =
    let r = offset-IsRun e in
    let (new, written, w) = write_bits_lem s 0 15 val r h in
    (
      new,
      written,
      record {
        entry = IsWritten-IsEntry e w;
        offset_is = ap value_of (read_bits-write_bits_self s 0 15 val r written);
        length_is = ap value_of (
            read_bits-write_bits_apart s 0 15 val 15 15 r (len-IsRun e) (inr (omega arith))
              written);
        flag_is =
            ap (λ x. u8 (value_of x))
              (read_bits-write_bits_apart s 0 15 val 30 2 r (flag-IsRun e) (inr (omega arith))
                written);
      },
    )

-- SetLength succeeds on every 15-bit value; Length then returns it, and Offset and Flag return what
-- they returned before.
pub set_entry_length_lem :
    (s : List ℕ) (val : ℕ)
    → IsEntry s
    → val < 2 ^ 15
    → (new : List ℕ) × (set_entry_length s val ≡ ok new) × IsEntryWith (offset s) val (flag s) new
unfolding set_entry_length offset entry_length flag
set_entry_length_lem s val e h =
    let r = len-IsRun e in
    let (new, written, w) = write_bits_lem s 15 15 val r h in
    (
      new,
      written,
      record {
        entry = IsWritten-IsEntry e w;
        offset_is = ap value_of (
            read_bits-write_bits_apart s 15 15 val 0 15 r (offset-IsRun e) (inl (omega arith))
              written);
        length_is = ap value_of (read_bits-write_bits_self s 15 15 val r written);
        flag_is =
            ap (λ x. u8 (value_of x))
              (read_bits-write_bits_apart s 15 15 val 30 2 r (flag-IsRun e) (inr (omega arith))
                written);
      },
    )

-- SetFlag succeeds on every 2-bit value; Flag then returns it, and Offset and Length return what
-- they returned before.
pub set_flag_lem :
    (s : List ℕ) (val : ℕ)
    → IsEntry s
    → val < 2 ^ 2
    → (new : List ℕ) × (set_flag s val ≡ ok new) × IsEntryWith (offset s) (entry_length s) val new
unfolding set_flag offset entry_length flag
set_flag_lem s val e h =
    let r = flag-IsRun e in
    let (new, written, w) = write_bits_lem s 30 2 val r h in
    (
      new,
      written,
      record {
        entry = IsWritten-IsEntry e w;
        offset_is = ap value_of (
            read_bits-write_bits_apart s 30 2 val 0 15 r (offset-IsRun e) (inl (omega arith))
              written);
        length_is = ap value_of (
            read_bits-write_bits_apart s 30 2 val 15 15 r (len-IsRun e) (inl (omega arith))
              written);
        flag_is =
            ap (λ x. u8 (value_of x)) (read_bits-write_bits_self s 30 2 val r written)
            ∙ mod-eq_of_lt (omega arith);
      },
    )
