-- ===== src/Record/Columns.antt =====
-- The column data: what Encode's last loop writes, Decode's loop reads.
use mini_db.Base.{
  ℕ, ◌+◌, ◌^◌, ◌≤◌, ◌<◌, ◌≡◌, refl, ◌∙◌, inl, inr, Bool, true, false, List, [], ◌∷◌, length,
  Bool-cases, arith,
}
use native.Mathlib.Nat.{mod-eq_of_lt}
use mini_db.Base.Copy.{slice, splice, slice-splice_below, slice-splice_self, length-splice}
use mini_db.Base.Endian.{
  get_uint, put_uint, length-put_uint, slice-put_uint, get_uint-put_uint_self, get_uint_congr,
}
use mini_db.Base.Outcome.{ok}
use mini_db.Base.Words.{u16}
use mini_db.Record.{
  ColumnType, type_int, type_text, type_other, Column, Value, null, int, text, other, is_null,
  null_at, write_value, write_columns, read_uint, read_bytes, read_value, read_columns,
}

-- A value that may stand in a column of the given type.
abbrev pub Fits : ColumnType → Value → Type 0
Fits k null = Unit
Fits type_int (int n) = n < 2 ^ 64
Fits type_int (text s) = ⊥
Fits type_text (text s) = length s < 2 ^ 16
Fits type_text (int n) = ⊥
Fits (type_other t) (int n) = ⊥
Fits (type_other t) (text s) = ⊥
Fits k other = ⊥

abbrev pub Conforms : List Column → List Value → Type 0
Conforms [] [] = Unit
Conforms [] (v ∷ vs) = ⊥
Conforms (c ∷ cs) [] = ⊥
Conforms (c ∷ cs) (v ∷ vs) = Fits c.kind v × Conforms cs vs

abbrev pub size_of : Value → ℕ
size_of null = 0
size_of (int n) = 8
size_of (text s) = 2 + length s
size_of other = 0

abbrev pub data_size : List Value → ℕ
data_size [] = 0
data_size (v ∷ vs) = size_of v + data_size vs

-- The null bits of the columns from `i` on say which values are nil.
abbrev pub NullsAt : Bool → List ℕ → ℕ → List Value → Type 0
NullsAt some_null bitmap i [] = Unit
NullsAt some_null bitmap i (v ∷ vs) =
    (null_at some_null bitmap i ≡ ok (is_null v)) × NullsAt some_null bitmap (i + 1) vs

-- `new` is as long as `old` and agrees with it below `pos`.
pub record IsKept (pos : ℕ) (old new : List ℕ) : Type 0 where
  pub same_length : length new ≡ length old
  pub below : (o n : ℕ) → o + n ≤ pos → slice o n new ≡ slice o n old

IsKept-trans : {a b : ℕ} {x y z : List ℕ} → a ≤ b → IsKept a x y → IsKept b y z → IsKept a x z
IsKept-trans h k l = record {
  same_length = l.same_length ∙ k.same_length;
  below = λ o n le. l.below o n (omega arith) ∙ k.below o n le;
}

read_text :
    (s : List ℕ) (pos : ℕ) (buf : List ℕ)
    → length s < 2 ^ 16
    → pos + (2 + length s) ≤ length buf
    → (i : ℕ) (later : List ℕ)
    → IsKept (pos + (2 + length s)) (splice (pos + 2) s (put_uint pos 2 (u16 (length s)) buf)) later
    → read_value type_text i pos later ≡ ok (text s, pos + (2 + length s))
unfolding read_value read_uint read_bytes
read_text s pos buf fits room i later kept =
    let mid = put_uint pos 2 (u16 (length s)) buf in
    let whole = splice (pos + 2) s mid in
    let count : get_uint pos 2 later ≡ length s =
      get_uint_congr pos 2 later whole (kept.below pos 2 (omega arith))
      ∙ (get_uint_congr pos 2 whole mid (slice-splice_below pos 2 (pos + 2) s mid (omega arith))
          ∙ (get_uint-put_uint_self pos 2 (u16 (length s)) buf (omega arith) (omega arith)
              ∙ mod-eq_of_lt fits)) in
    let bytes : slice (pos + 2) (length s) later ≡ s =
      kept.below (pos + 2) (length s) (omega arith)
      ∙ slice-splice_self (pos + 2) s mid
          (omega (arith, room, length-put_uint pos 2 (u16 (length s)) buf)) in
    let size : length later ≡ length buf =
      kept.same_length
      ∙ (length-splice (pos + 2) s mid ∙ length-put_uint pos 2 (u16 (length s)) buf) in
    ground (arith, count, bytes, size, room)

-- A value is written, and a reader of any later state that keeps it reads it back.
pub write_value_lem :
    (k : ColumnType) (v : Value) (pos : ℕ) (buf : List ℕ)
    → Fits k v
    → is_null v ≡ false
    → pos + size_of v ≤ length buf
    → (new : List ℕ) × (write_value k v pos buf ≡ ok (new, pos + size_of v))
      × IsKept pos buf new
      × ((i : ℕ) (later : List ℕ)
          → IsKept (pos + size_of v) new later
          → read_value k i pos later ≡ ok (v, pos + size_of v))
unfolding write_value
write_value_lem type_int (int n) pos buf fits some room = (
  put_uint pos 8 n buf,
  ground arith,
  record {
    same_length = length-put_uint pos 8 n buf;
    below = λ o m le. slice-put_uint o m pos 8 n buf (inl le);
  },
  λ i later kept.
      let value : get_uint pos 8 later ≡ n =
        get_uint_congr pos 8 later (put_uint pos 8 n buf) (kept.below pos 8 (omega arith))
        ∙ get_uint-put_uint_self pos 8 n buf room (omega arith) in
      unfold read_value read_uint read_bytes in
      ground (arith, kept.same_length, length-put_uint pos 8 n buf, value),
)
write_value_lem type_text (text s) pos buf fits some room = (
  splice (pos + 2) s (put_uint pos 2 (u16 (length s)) buf),
  ground arith,
  record {
    same_length = length-splice _ _ _ ∙ length-put_uint pos 2 _ buf;
    below = λ o m le.
        slice-splice_below o m (pos + 2) s _ (omega arith)
        ∙ slice-put_uint o m pos 2 _ buf (inl le);
  },
  λ i later kept. read_text s pos buf fits room i later kept,
)
write_value_lem type_int null pos buf fits some room = absurd (ground (arith, some))
write_value_lem type_int (text s) pos buf fits some room = absurd fits
write_value_lem type_int other pos buf fits some room = absurd fits
write_value_lem type_text null pos buf fits some room = absurd (ground (arith, some))
write_value_lem type_text (int n) pos buf fits some room = absurd fits
write_value_lem type_text other pos buf fits some room = absurd fits
write_value_lem (type_other t) null pos buf fits some room = absurd (ground (arith, some))
write_value_lem (type_other t) (int n) pos buf fits some room = absurd fits
write_value_lem (type_other t) (text s) pos buf fits some room = absurd fits
write_value_lem (type_other t) other pos buf fits some room = absurd fits

null-eq : (v : Value) → is_null v ≡ true → null ≡ v
null-eq null h = refl
null-eq (int n) h = cc
null-eq (text s) h = cc
null-eq other h = cc

-- The column data of a row that fits the columns round-trips: Encode's loop writes it into a buffer
-- that has room, changing nothing before it, and Decode's loop, given null bits that say which
-- values are nil, reads the row back.
pub read_columns-write_columns :
    (cs : List Column) (vs : List Value) (pos i : ℕ) (buf : List ℕ) (some_null : Bool)
    (bitmap : List ℕ)
    → Conforms cs vs
    → NullsAt some_null bitmap i vs
    → pos + data_size vs ≤ length buf
    → (new : List ℕ) × (write_columns cs vs pos buf ≡ ok new)
      × IsKept pos buf new
      × (read_columns cs i pos some_null bitmap new ≡ ok vs)
unfolding write_columns read_columns
read_columns-write_columns [] [] pos i buf some_null bitmap fits nulls room =
    (buf, refl, record { same_length = refl; below = λ o n le. refl }, refl)
read_columns-write_columns [] (v ∷ vs) pos i buf some_null bitmap fits nulls room = absurd fits
read_columns-write_columns (c ∷ cs) [] pos i buf some_null bitmap fits nulls room = absurd fits
read_columns-write_columns (c ∷ cs) (v ∷ vs) pos i buf some_null bitmap fits nulls room =
    elim (Bool-cases (is_null v)) [
      | inl nil ↦
          let (new, written, kept, read) =
            read_columns-write_columns cs vs pos (i + 1) buf some_null bitmap fits.1 nulls.1
              (omega arith) in
          (
            new,
            ground (arith, nil, written),
            kept,
            ground (arith, nil, nulls.0, read, null-eq v nil),
          )
      | inr some ↦
          let (mid, stored, kept, reads) =
            write_value_lem c.kind v pos buf fits.0 some (omega arith) in
          let (new, written, later, read) =
            read_columns-write_columns cs vs (pos + size_of v) (i + 1) mid some_null bitmap fits.1
              nulls.1 (omega (arith, kept.same_length)) in
          (
            new,
            ground (arith, some, stored, written),
            IsKept-trans (omega arith) kept later,
            ground (arith, nulls.0, some, reads i new later, read),
          )
    ]
