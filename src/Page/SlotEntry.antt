-- ===== src/Page/SlotEntry.antt =====
-- internal/storage/page/slot_entry.go: the packed 4-byte slot entry, offset (15 bits), length (15)
-- and flag (2), most significant bits first.
pub mod Laws
use mini_db.Base.{ℕ, ◌%◌, ◌^◌, List}
use mini_db.Base.Outcome.{Outcome, ok, err, panic}
use mini_db.Base.Words.{u8}
use mini_db.Util.Bits.{BitsError, read_bits, write_bits}

-- `v, _ := ReadBits(…)`: an error leaves the zero value. The getters never panic (Bits.Laws).
unfoldable pub value_of : Outcome BitsError ℕ → ℕ
value_of (ok v) = v
value_of (err e) = 0
value_of panic = 0

unfoldable pub offset : List ℕ → ℕ
unfolding value_of
offset s = value_of (read_bits s 0 15)

unfoldable pub set_offset : List ℕ → ℕ → Outcome BitsError (List ℕ)
set_offset s val = write_bits s 0 15 val

unfoldable pub entry_length : List ℕ → ℕ
unfolding value_of
entry_length s = value_of (read_bits s 15 15)

unfoldable pub set_entry_length : List ℕ → ℕ → Outcome BitsError (List ℕ)
set_entry_length s val = write_bits s 15 15 val

unfoldable pub flag : List ℕ → ℕ
unfolding value_of
flag s = u8 (value_of (read_bits s 30 2))

unfoldable pub set_flag : List ℕ → ℕ → Outcome BitsError (List ℕ)
set_flag s val = write_bits s 30 2 val
