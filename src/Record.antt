-- ===== src/Record.antt =====
-- internal/record/record.go: typed rows as tuple bytes, behind the tuple header and a null bitmap.
-- A string is the list of its bytes, an int64 is its 64-bit pattern, so that the conversions to and
-- from uint64 keep it.
pub mod Columns
pub mod Nulls
pub mod Header
pub mod RoundTrip
pub mod Total
mod Tests
use Prim.Native.Nat.{bit_and, bit_or}
use mini_db.Base.{
  ℕ, zero, suc, ◌+◌, ◌-◌, ◌*◌, ◌/◌, ◌%◌, ◌^◌, Bool, true, false, not, ◌&&◌, List, [], ◌∷◌, ltb, leb,
  ◌==◌, if◌then◌else◌, length, get_or, set, replicate, min,
}
use mini_db.Base.Copy.{slice, splice}
use mini_db.Base.Endian.{get_uint, put_uint}
use mini_db.Base.Outcome.{Outcome, ok, err, panic, checked, wrap_err, ◌>>=◌}
use mini_db.Base.Words.{u8, u16}
use mini_db.Util.Bits.{BitsError}
use mini_db.Page.Tuple.{
  tuple_header, with_header, column_count, set_column_count, hoff, set_hoff, has_null, set_flags,
  flag_has_null,
}

pub data ColumnType : Type 0 where
  type_int type_text : ColumnType
  type_other : ℕ → ColumnType

pub record Column : Type 0 where
  pub name : List ℕ
  pub kind : ColumnType
  pub nullable : Bool

-- A value of a row; `other` is one of any other dynamic type.
pub data Value : Type 0 where
  null : Value
  int : ℕ → Value
  text : List ℕ → Value
  other : Value

pub data RecordError : Type 0 where
  row_length too_short column_mismatch header_mismatch no_bitmap : RecordError
  not_nullable wrong_value text_too_long unknown_type : ℕ → RecordError
  truncated_int truncated_text_length truncated_text : ℕ → RecordError
  bits : BitsError → RecordError

abbrev pub is_null : Value → Bool
is_null null = true
is_null (int n) = false
is_null (text s) = false
is_null other = false

-- The bytes that a value takes in column `i` of the given type, if it may stand there.
unfoldable pub value_size : ℕ → ColumnType → Value → Outcome RecordError ℕ
value_size i type_int (int n) = ok 8
value_size i type_int null = err (wrong_value i)
value_size i type_int (text s) = err (wrong_value i)
value_size i type_int other = err (wrong_value i)
value_size i type_text (text s) =
    if ltb 65535 (length s) then err (text_too_long i) else ok (2 + length s)
value_size i type_text null = err (wrong_value i)
value_size i type_text (int n) = err (wrong_value i)
value_size i type_text other = err (wrong_value i)
value_size i (type_other t) v = err (unknown_type i)

-- The first loop of Encode, from column `i` on: whether some value is nil, and the size of the data.
unfoldable pub validate : ℕ → List Column → List Value → Outcome RecordError (Bool × ℕ)
validate i [] vs = ok (false, 0)
validate i (c ∷ cs) [] = panic
validate i (c ∷ cs) (v ∷ vs) =
    if is_null v
    then (if not c.nullable
        then err (not_nullable i)
        else validate (i + 1) cs vs >>= λ r. ok (true, r.1))
    else value_size i c.kind v >>= λ n. validate (i + 1) cs vs >>= λ r. ok (r.0, n + r.1)

abbrev pub bitmap_size : Bool → ℕ → ℕ
bitmap_size true columns = (columns + 7) / 8
bitmap_size false columns = 0

-- `bitmap[i/8] |= 1 << (i % 8)` for the columns from `i` on whose value is nil.
unfoldable pub mark_nulls : ℕ → List Value → List ℕ → Outcome RecordError (List ℕ)
mark_nulls i [] bitmap = ok bitmap
mark_nulls i (v ∷ vs) bitmap =
    if is_null v
    then checked (ltb (i / 8) (length bitmap))
        (set bitmap (i / 8) (bit_or (get_or bitmap (i / 8) 0) (2 ^ (i % 8))))
      >>= mark_nulls (i + 1) vs
    else mark_nulls (i + 1) vs bitmap

-- One step of the last loop of Encode: the bytes, and the next position.
unfoldable pub write_value : ColumnType → Value → ℕ → List ℕ → Outcome RecordError (List ℕ × ℕ)
write_value type_int (int n) pos buf =
    if leb (pos + 8) (length buf) then ok (put_uint pos 8 n buf, pos + 8) else panic
write_value type_int null pos buf = panic
write_value type_int (text s) pos buf = panic
write_value type_int other pos buf = panic
write_value type_text (text s) pos buf =
    if leb (pos + 2) (length buf)
    then ok (
      splice (pos + 2) s (put_uint pos 2 (u16 (length s)) buf),
      pos + 2 + min (length s) (length buf - (pos + 2)),
    )
    else panic
write_value type_text null pos buf = panic
write_value type_text (int n) pos buf = panic
write_value type_text other pos buf = panic
write_value (type_other t) v pos buf = ok (buf, pos)

unfoldable pub write_columns : List Column → List Value → ℕ → List ℕ → Outcome RecordError (List ℕ)
write_columns [] vs pos buf = ok buf
write_columns (c ∷ cs) [] pos buf = panic
write_columns (c ∷ cs) (v ∷ vs) pos buf =
    if is_null v
    then write_columns cs vs pos buf
    else write_value c.kind v pos buf >>= λ w. write_columns cs vs w.1 w.0

-- The header that Encode writes; `_, _ = h.SetFlags(…)` ignores an error.
unfoldable pub encode_header : Bool → ℕ → ℕ → List ℕ → Outcome RecordError (List ℕ)
encode_header some_null columns start h =
    wrap_err bits (set_column_count h (u16 columns)) >>= λ counted. ok (
      let placed = set_hoff (u8 start) counted in
      if some_null
      then elim (set_flags placed flag_has_null) [
        | ok flagged ↦ flagged
        | err e ↦ placed
        | panic ↦ placed
      ]
      else placed)

unfoldable pub encode : List Column → List Value → Outcome RecordError (List ℕ)
encode columns row = if not (length row == length columns) then err row_length else do
  checked_row ← validate 0 columns row
  let start = 12 + bitmap_size checked_row.0 (length columns)
  let buf = replicate (start + checked_row.1) 0
  h ← tuple_header buf
  header ← encode_header checked_row.0 (length columns) start h
  let headed = with_header header buf
  bitmap ← mark_nulls 0 row (slice 12 (start - 12) headed)
  write_columns columns row start (splice 12 bitmap headed)

-- `h.HasNull() && bitmap[i/8]&(1<<(i%8)) != 0`
unfoldable pub null_at : Bool → List ℕ → ℕ → Outcome RecordError Bool
null_at false bitmap i = ok false
null_at true bitmap i =
    checked (ltb (i / 8) (length bitmap))
      (not (bit_and (get_or bitmap (i / 8) 0) (2 ^ (i % 8)) == 0))

-- `binary.BigEndian.Uint64(data[pos:])` for a width of 8, Uint16 for 2: fewer bytes panic.
unfoldable pub read_uint : ℕ → ℕ → List ℕ → Outcome RecordError ℕ
read_uint pos width bytes = checked (leb (pos + width) (length bytes)) (get_uint pos width bytes)

-- `data[pos:pos+n]`
unfoldable pub read_bytes : ℕ → ℕ → List ℕ → Outcome RecordError (List ℕ)
read_bytes pos n bytes = checked (leb (pos + n) (length bytes)) (slice pos n bytes)

-- One value of a column, and the next position.
unfoldable pub read_value : ColumnType → ℕ → ℕ → List ℕ → Outcome RecordError (Value × ℕ)
read_value type_int i pos bytes =
    if ltb (length bytes) (pos + 8)
    then err (truncated_int i)
    else (read_uint pos 8 bytes >>= λ n. ok (int n, pos + 8))
read_value type_text i pos bytes =
    if ltb (length bytes) (pos + 2)
    then err (truncated_text_length i)
    else (read_uint pos 2 bytes >>= λ n.
        if ltb (length bytes) (pos + 2 + n)
        then err (truncated_text i)
        else (read_bytes (pos + 2) n bytes >>= λ s. ok (text s, pos + 2 + n)))
read_value (type_other t) i pos bytes = err (unknown_type i)

unfoldable pub read_columns :
    List Column → ℕ → ℕ → Bool → List ℕ → List ℕ → Outcome RecordError (List Value)
read_columns [] i pos some_null bitmap bytes = ok []
read_columns (c ∷ cs) i pos some_null bitmap bytes = null_at some_null bitmap i >>= λ skip.
    if skip
    then (read_columns cs (i + 1) pos some_null bitmap bytes >>= λ vs. ok (null ∷ vs))
    else (read_value c.kind i pos bytes >>= λ r.
        read_columns cs (i + 1) r.1 some_null bitmap bytes >>= λ vs. ok (r.0 ∷ vs))

-- Decode past its checks of the header: `start` is where the column data begins.
unfoldable pub decode_body : List Column → Bool → ℕ → List ℕ → Outcome RecordError (List Value)
decode_body columns some_null start bytes =
    if ltb (length bytes) start
    then err no_bitmap
    else read_columns columns 0 start some_null (slice 12 (start - 12) bytes) bytes

unfoldable pub decode_headed : List Column → List ℕ → List ℕ → Outcome RecordError (List Value)
decode_headed columns h bytes =
    let start = 12 + bitmap_size (has_null h) (length columns) in
    if not (column_count h == length columns)
    then err column_mismatch
    else if not (hoff h == start)
    then err header_mismatch
    else decode_body columns (has_null h) start bytes

unfoldable pub decode : List Column → List ℕ → Outcome RecordError (List Value)
decode columns bytes =
    if ltb (length bytes) 12
    then err too_short
    else (tuple_header bytes >>= λ h. decode_headed columns h bytes)
