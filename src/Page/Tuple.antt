-- ===== src/Page/Tuple.antt =====
-- internal/storage/page/tuple.go: a tuple is its bytes, and its header the 12 bytes it begins with.
pub mod Laws
use Prim.Native.Nat.{bit_and}
use mini_db.Base.{ℕ, Bool, not, List, length, leb, ◌==◌, get_or, set}
use mini_db.Base.Outcome.{Outcome, checked}
use mini_db.Base.Words.{u8}
use mini_db.Base.Copy.{slice, splice}
use mini_db.Base.Endian.{get_uint, put_uint}
use mini_db.Util.Bits.{BitsError, read_bits, write_bits}
use mini_db.Page.SlotEntry.{value_of}

abbrev pub flags_bit_pos : ℕ
flags_bit_pos = 64

abbrev pub flags_bit_len : ℕ
flags_bit_len = 6

abbrev pub col_count_bit_pos : ℕ
col_count_bit_pos = 70

abbrev pub col_count_bit_len : ℕ
col_count_bit_len = 10

-- FlagHasNull = 1 << 0.
abbrev pub flag_has_null : ℕ
flag_has_null = 1

-- `t.data[:TupleHeaderSize]`, which panics on a shorter tuple; writing through the view changes
-- the tuple's first 12 bytes.
abbrev pub tuple_header {ℓ} : {E : Type ℓ} → List ℕ → Outcome E (List ℕ)
tuple_header t = checked (leb 12 (length t)) (slice 0 12 t)

abbrev pub with_header : List ℕ → List ℕ → List ℕ
with_header h t = splice 0 h t

unfoldable pub tx_min : List ℕ → ℕ
tx_min h = get_uint 0 4 h

unfoldable pub set_tx_min : ℕ → List ℕ → List ℕ
set_tx_min xid h = put_uint 0 4 xid h

unfoldable pub tx_max : List ℕ → ℕ
tx_max h = get_uint 4 4 h

unfoldable pub set_tx_max : ℕ → List ℕ → List ℕ
set_tx_max xid h = put_uint 4 4 xid h

unfoldable pub flags : List ℕ → ℕ
unfolding value_of
flags h = u8 (value_of (read_bits h flags_bit_pos flags_bit_len))

unfoldable pub set_flags : List ℕ → ℕ → Outcome BitsError (List ℕ)
set_flags h val = write_bits h flags_bit_pos flags_bit_len val

unfoldable pub has_null : List ℕ → Bool
unfolding flags
has_null h = not (bit_and (flags h) flag_has_null == 0)

unfoldable pub column_count : List ℕ → ℕ
unfolding value_of
column_count h = value_of (read_bits h col_count_bit_pos col_count_bit_len)

unfoldable pub set_column_count : List ℕ → ℕ → Outcome BitsError (List ℕ)
set_column_count h val = write_bits h col_count_bit_pos col_count_bit_len val

unfoldable pub hoff : List ℕ → ℕ
hoff h = get_or h 10 0

unfoldable pub set_hoff : ℕ → List ℕ → List ℕ
set_hoff off h = set h 10 off
