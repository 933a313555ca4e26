-- ===== src/Record/RoundTrip.antt =====
-- Encode and Decode of whole rows.
use mini_db.Base.{
  ℕ, zero, suc, ◌+◌, ◌-◌, ◌/◌, ◌%◌, ◌≤◌, ◌<◌, ◌≡◌, refl, sym, ap, ◌∙◌, inl, inr, Bool, true, false,
  not, ◌&&◌, List, [], ◌∷◌, length, take, drop, get_or, replicate, ltb, leb, ◌==◌, length-replicate,
  Bool-cases, arith,
}
use mini_db.Base.Copy.{
  slice, splice, length-splice, slice-splice_self, slice-splice_below, slice-splice_apart,
}
use mini_db.Base.Outcome.{ok}
use mini_db.Page.Tuple.{with_header, column_count, hoff}
use mini_db.Record.{
  ColumnType, type_int, type_text, type_other, Column, Value, null, int, text, other, is_null,
  value_size, validate, bitmap_size, mark_nulls, write_columns, encode, read_columns, decode_body,
  decode_headed, decode,
}
use mini_db.Record.Columns.{Fits, Conforms, size_of, data_size, NullsAt, read_columns-write_columns}
use mini_db.Record.Header.{start_of, header_of, IsHeaderOf, header_lem}
use mini_db.Record.Nulls.{any_null, has_bit, all_below, all_below_sound, mark_nulls_lem, no_nulls}

-- A nil stands in nullable columns only.
abbrev pub NilsAllowed : List Column → List Value → Type 0
NilsAllowed [] vs = Unit {0}
NilsAllowed (c ∷ cs) [] = Unit {0}
NilsAllowed (c ∷ cs) (v ∷ vs) = ((is_null v && not c.nullable) ≡ false) × NilsAllowed cs vs

value_size_lem :
    (i : ℕ) (k : ColumnType) (v : Value)
    → Fits k v
    → is_null v ≡ false
    → value_size i k v ≡ ok (size_of v)
unfolding value_size
value_size_lem i type_int (int n) f e = refl
value_size_lem i type_text (text s) f e = ground arith
value_size_lem i type_int null f e = absurd (ground (arith, e))
value_size_lem i type_int (text s) f e = absurd f
value_size_lem i type_int other f e = absurd f
value_size_lem i type_text null f e = absurd (ground (arith, e))
value_size_lem i type_text (int n) f e = absurd f
value_size_lem i type_text other f e = absurd f
value_size_lem i (type_other t) null f e = absurd (ground (arith, e))
value_size_lem i (type_other t) (int n) f e = absurd f
value_size_lem i (type_other t) (text s) f e = absurd f
value_size_lem i (type_other t) other f e = absurd f

null-size_of : (v : Value) → is_null v ≡ true → size_of v ≡ 0
null-size_of null e = refl
null-size_of (int n) e = cc
null-size_of (text s) e = cc
null-size_of other e = refl

validate_lem :
    (i : ℕ) (cs : List Column) (vs : List Value)
    → Conforms cs vs
    → NilsAllowed cs vs
    → validate i cs vs ≡ ok (any_null vs, data_size vs)
unfolding validate
validate_lem i [] [] f a = refl
validate_lem i [] (v ∷ vs) f a = absurd f
validate_lem i (c ∷ cs) [] f a = absurd f
validate_lem i (c ∷ cs) (v ∷ vs) f a = elim (Bool-cases (is_null v)) [
  | inl nil ↦
      let allowed : not c.nullable ≡ false = ground (arith, a.0, nil) in
      rw (nil, allowed, validate_lem (i + 1) cs vs f.1 a.1)
        (ap (λ z. ok (true, z)) (omega (arith, null-size_of v nil)))
  | inr some ↦
      rw (some, value_size_lem i c.kind v f.0 some, validate_lem (i + 1) cs vs f.1 a.1) refl
]

length-Conforms : (cs : List Column) (vs : List Value) → Conforms cs vs → length vs ≡ length cs
length-Conforms [] [] f = refl
length-Conforms [] (v ∷ vs) f = absurd f
length-Conforms (c ∷ cs) [] f = absurd f
length-Conforms (c ∷ cs) (v ∷ vs) f = ap suc (length-Conforms cs vs f.1)

-- Zeroes.
abbrev zeroes : ℕ → List ℕ
zeroes n = replicate n 0

length-zeroes : (n : ℕ) → length (zeroes n) ≡ n
length-zeroes n = length-replicate n 0

take-replicate : (k n : ℕ) → k ≤ n → take k (zeroes n) ≡ zeroes k
take-replicate zero n h = refl
take-replicate (suc k) zero h = absurd (omega arith)
take-replicate (suc k) (suc n) h = ap (◌∷◌ 0) (take-replicate k n (omega arith))

drop-replicate : (k n : ℕ) → k ≤ n → drop k (zeroes n) ≡ zeroes (n - k)
drop-replicate zero n h = ap (λ z. zeroes z) {x = n} {y = n - 0} (omega arith)
drop-replicate (suc k) zero h = absurd (omega arith)
drop-replicate (suc k) (suc n) h =
    drop-replicate k n (omega arith)
    ∙ ap (λ z. zeroes z) {x = n - k} {y = suc n - suc k} (omega arith)

get_or-replicate : (n j : ℕ) → ◌≡◌ {A = ℕ} (get_or (zeroes n) j 0) 0
get_or-replicate zero j = refl
get_or-replicate (suc n) zero = refl
get_or-replicate (suc n) (suc j) = get_or-replicate n j

no_bit_table : all_below 8 (λ b. not (has_bit 0 b)) ≡ true
unfolding all_below
no_bit_table = refl

no_bit : (b : ℕ) → b < 8 → has_bit 0 b ≡ false
no_bit b h = ground (arith, all_below_sound 8 (λ c. not (has_bit 0 c)) b no_bit_table h)

bitmap_lem :
    (vs : List Value) (some_null : Bool) (k : ℕ)
    → any_null vs ≡ some_null
    → k ≡ bitmap_size some_null (length vs)
    → (bitmap : List ℕ) × (mark_nulls 0 vs (zeroes k) ≡ ok bitmap)
      × (length bitmap ≡ k)
      × NullsAt some_null bitmap 0 vs
bitmap_lem vs false k e size =
    let (run, nulls) = no_nulls 0 vs (zeroes k) e in (zeroes k, run, length-zeroes k, nulls)
bitmap_lem vs true k e size =
    let (bitmap, run, m) =
      mark_nulls_lem 0 vs (zeroes k) (λ j. omega (arith, get_or-replicate k j))
        (omega (arith, size, length-zeroes k))
        (λ j l.
          ap (λ z. has_bit z (j % 8)) (get_or-replicate k (j / 8))
          ∙ no_bit (j % 8) (omega arith)) in
    (bitmap, run, m.same_length ∙ length-zeroes k, m.nulls)

-- The two runs, from those of their parts.
module _ (cs : List Column) (vs : List Value) (some_null : Bool) (d : ℕ)
    (h bitmap bytes : List ℕ) where
  abbrev n : ℕ
  n = length cs

  abbrev start : ℕ
  start = start_of some_null n

  abbrev buf : List ℕ
  buf = zeroes (start + d)

  encode_run :
      length vs ≡ n
      → validate 0 cs vs ≡ ok (some_null, d)
      → slice 0 12 buf ≡ zeroes 12
      → header_of some_null n ≡ ok h
      → mark_nulls 0 vs (slice 12 (start - 12) (with_header h buf)) ≡ ok bitmap
      → write_columns cs vs start (splice 12 bitmap (with_header h buf)) ≡ ok bytes
      → encode cs vs ≡ ok bytes
  unfolding encode
  encode_run size valid first header marks written =
      let fits : leb 12 (length buf) ≡ true = ground (arith, length-zeroes (start + d)) in
      let same : (length vs == n) ≡ true = ground (arith, size) in
      rw (same, valid, fits, first, header, marks, written) refl

  decode_run :
      length bytes ≡ start + d
      → slice 0 12 bytes ≡ h
      → IsHeaderOf some_null n h
      → slice 12 (start - 12) bytes ≡ bitmap
      → read_columns cs 0 start some_null bitmap bytes ≡ ok vs
      → decode cs bytes ≡ ok vs
  unfolding decode decode_headed decode_body
  decode_run size first x middle read =
      let long : ltb (length bytes) 12 ≡ false = ground (arith, size) in
      let fits : leb 12 (length bytes) ≡ true = ground (arith, size) in
      let same : (column_count h == n) ≡ true = ground (arith, x.columns) in
      let placed : (hoff h == start) ≡ true = ground (arith, x.offset) in
      let whole : ltb (length bytes) start ≡ false = ground (arith, size) in
      rw (long, fits, first, x.nulls, same, placed, whole, middle, read) refl

-- A row that conforms to a schema of at most 1023 columns, with nils in nullable columns only, is encoded, and
-- Decode by the same schema reads the same row from the bytes.
pub decode-encode :
    (cs : List Column) (vs : List Value)
    → Conforms cs vs
    → NilsAllowed cs vs
    → length cs < 1024
    → (bytes : List ℕ) × (encode cs vs ≡ ok bytes) × (decode cs bytes ≡ ok vs)
decode-encode cs vs f a few =
    let b = any_null vs in
    let d = data_size vs in
    let size = length-Conforms cs vs f in
    let k = bitmap_size b (length cs) in
    let from = start_of b (length cs) in
    let (h, header, x) = header_lem b (length cs) few in
    let zeroed = zeroes (from + d) in
    let long : length zeroed ≡ from + d = length-zeroes (from + d) in
    let headed = splice 0 h zeroed in
    let long_too : length headed ≡ from + d = length-splice 0 h zeroed ∙ long in
    let first : slice 0 12 zeroed ≡ zeroes 12 = take-replicate 12 (from + d) (omega arith) in
    let blank : slice 12 (from - 12) headed ≡ zeroes (from - 12) =
      slice-splice_apart 12 (from - 12) 0 h zeroed (inr (omega (arith, x.twelve)))
      ∙ (ap (take (from - 12)) (drop-replicate 12 (from + d) (omega arith))
          ∙ take-replicate (from - 12) (from + d - 12) (omega arith)) in
    let (bitmap, marks, bitmap_long, nulls) =
      bitmap_lem vs b (from - 12) refl (sized b (length cs) ∙ ap (bitmap_size b) (sym size)) in
    let placed = splice 12 bitmap headed in
    let long_placed : length placed ≡ from + d = length-splice 12 bitmap headed ∙ long_too in
    let (bytes, written, kept, read) =
      read_columns-write_columns cs vs from 0 placed b bitmap f nulls
        (omega (arith, long_placed)) in
    let head : slice 0 12 bytes ≡ h =
      kept.below 0 12 (omega arith)
      ∙ (slice-splice_below 0 12 12 bitmap headed (omega arith)
          ∙ (ap (λ z. slice 0 z headed) (sym x.twelve)
              ∙ slice-splice_self 0 h zeroed (omega (arith, x.twelve, long)))) in
    let middle : slice 12 (from - 12) bytes ≡ bitmap =
      kept.below 12 (from - 12) (omega arith)
      ∙ (ap (λ z. slice 12 z placed) (sym bitmap_long)
          ∙ slice-splice_self 12 bitmap headed (omega (arith, bitmap_long, long_too))) in
    (
      bytes,
      encode_run cs vs b d h bitmap bytes size (validate_lem 0 cs vs f a) first header
          (ap (mark_nulls 0 vs) blank ∙ marks) written,
      decode_run cs vs b d h bitmap bytes (kept.same_length ∙ long_placed) head x middle read,
    )
  where
    sized : (some_null : Bool) (m : ℕ) → start_of some_null m - 12 ≡ bitmap_size some_null m
    sized some_null m = omega arith
