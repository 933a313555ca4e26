-- ===== src/Record/Total.antt =====
-- Decode on arbitrary bytes.
use mini_db.Base.{
  ℕ, suc, ◌+◌, ◌-◌, ◌/◌, ◌≤◌, ◌<◌, ◌≡◌, ◌≢◌, ◌%◌, ◌^◌, bit_and, get_or, refl, ap, ◌⊎◌, inl, inr,
  Bool, true, false, not, List, [], ◌∷◌, length, ltb, ◌==◌, Bool-cases, arith,
}
use native.Mathlib.Decide.{dec_lt}
use mini_db.Base.Endian.{get_uint}
use mini_db.Base.Copy.{slice, length-slice}
use mini_db.Base.Outcome.{Outcome, ok, err, panic, returned}
use mini_db.Page.Tuple.{has_null, column_count, hoff}
use mini_db.Record.{
  ColumnType, type_int, type_text, type_other, Column, Value, null, RecordError, bitmap_size,
  null_at, read_uint, read_bytes, read_value, read_columns, decode_body, decode_headed, decode,
  no_bitmap, too_short, column_mismatch, header_mismatch,
}

-- A row with one value for each column, or an error.
abbrev pub RowOrError : List Column → Outcome RecordError (List Value) → Type 0
RowOrError cs o =
    ((vs : List Value) × (o ≡ ok vs) × (length vs ≡ length cs)) ⊎ ((e : RecordError) × (o ≡ err e))

null_at_inside :
    (some_null : Bool) (bitmap : List ℕ) (i n : ℕ)
    → i < n
    → bitmap_size some_null n ≤ length bitmap
    → (b : Bool) × (null_at some_null bitmap i ≡ ok b)
unfolding null_at
null_at_inside false bitmap i n h covers = (false, refl)
null_at_inside true bitmap i n h covers =
    (not (bit_and (get_or bitmap (i / 8) 0) (2 ^ (i % 8)) == 0), ground (arith, h, covers))

-- Each test before a read says that its bytes are there.
read_value-ne-panic :
    (k : ColumnType) (i pos : ℕ) (bytes : List ℕ) → read_value k i pos bytes ≢ panic
unfolding read_value read_uint read_bytes
read_value-ne-panic type_int i pos bytes = elim (dec_lt (length bytes) (pos + 8)) [
  | yes short ↦ ground arith
  | no long ↦ ground arith
]
read_value-ne-panic type_text i pos bytes = elim (dec_lt (length bytes) (pos + 2)) [
  | yes short ↦ ground arith
  | no long ↦ elim (dec_lt (length bytes) (pos + 2 + get_uint pos 2 bytes)) [
    | yes cut ↦ ground arith
    | no whole ↦ ground arith
  ]
]
read_value-ne-panic (type_other t) i pos bytes = ground arith

read_columns_returns :
    (cs : List Column) (i pos n : ℕ) (some_null : Bool) (bitmap bytes : List ℕ)
    → i + length cs ≤ n
    → bitmap_size some_null n ≤ length bitmap
    → RowOrError cs (read_columns cs i pos some_null bitmap bytes)
unfolding read_columns
read_columns_returns [] i pos n some_null bitmap bytes h covers = inl ([], refl, refl)
read_columns_returns (c ∷ cs) i pos n some_null bitmap bytes h covers =
    let (b, nil) = null_at_inside some_null bitmap i n (omega arith) covers in
    elim (Bool-cases b) [
      | inl skip ↦
          elim (read_columns_returns cs (i + 1) pos n some_null bitmap bytes (omega arith) covers) [
            | inl (vs, rest, size) ↦ inl (null ∷ vs, ground (arith, nil, skip, rest), ap suc size)
            | inr (e, rest) ↦ inr (e, ground (arith, nil, skip, rest))
          ]
      | inr keep ↦
          elim (returned (read_value c.kind i pos bytes) (read_value-ne-panic c.kind i pos bytes)) [
            | inr (e, bad) ↦ inr (e, ground (arith, nil, keep, bad))
            | inl (r, good) ↦
                elim (read_columns_returns cs (i + 1) r.1 n some_null bitmap bytes (omega arith)
                  covers) [
                    | inl (vs, rest, size) ↦
                        inl (r.0 ∷ vs, ground (arith, nil, keep, good, rest), ap suc size)
                    | inr (e, rest) ↦ inr (e, ground (arith, nil, keep, good, rest))
                  ]
          ]
    ]

decode_body_returns :
    (cs : List Column) (some_null : Bool) (bytes : List ℕ)
    → RowOrError cs (decode_body cs some_null (12 + bitmap_size some_null (length cs)) bytes)
unfolding decode_body
decode_body_returns cs some_null bytes =
    let start = 12 + bitmap_size some_null (length cs) in
    elim (Bool-cases (ltb (length bytes) start)) [
      | inl short ↦ inr (no_bitmap, ground (arith, short))
      | inr long ↦
          let covers : bitmap_size some_null (length cs) ≤ length (slice 12 (start - 12) bytes) =
            ground (arith, long, length-slice 12 (start - 12) bytes) in
          let all =
            read_columns_returns cs 0 start (length cs) some_null (slice 12 (start - 12) bytes)
              bytes (omega arith) covers in
          elim all [
            | inl (vs, read, size) ↦ inl (vs, ground (arith, long, read), size)
            | inr (e, bad) ↦ inr (e, ground (arith, long, bad))
          ]
    ]

decode_headed_returns :
    (cs : List Column) (h bytes : List ℕ) → RowOrError cs (decode_headed cs h bytes)
unfolding decode_headed
decode_headed_returns cs h bytes = elim (Bool-cases (column_count h == length cs)) [
  | inr other ↦ inr (column_mismatch, ground (arith, other))
  | inl counted ↦ elim (Bool-cases (hoff h == 12 + bitmap_size (has_null h) (length cs))) [
    | inr other ↦ inr (header_mismatch, ground (arith, counted, other))
    | inl placed ↦ elim (decode_body_returns cs (has_null h) bytes) [
      | inl (vs, read, size) ↦ inl (vs, ground (arith, counted, placed, read), size)
      | inr (e, bad) ↦ inr (e, ground (arith, counted, placed, bad))
    ]
  ]
]

-- Decode never panics: on every list of bytes and for every schema it returns a row with one value
-- for each column, or an error.
pub decode_returns : (cs : List Column) (bytes : List ℕ) → RowOrError cs (decode cs bytes)
unfolding decode
decode_returns cs bytes = elim (Bool-cases (ltb (length bytes) 12)) [
  | inl short ↦ inr (too_short, ground (arith, short))
  | inr long ↦ elim (decode_headed_returns cs (slice 0 12 bytes) bytes) [
    | inl (vs, read, size) ↦ inl (vs, ground (arith, long, read), size)
    | inr (e, bad) ↦ inr (e, ground (arith, long, bad))
  ]
]
