-- ===== src/Util/Bits/Laws.antt =====
-- What ReadBits and WriteBits guarantee to their callers, on slices of at most 8192 bytes; and what
-- happens past the end of their uint16 arithmetic.
use mini_db.Base.{
  ℕ, ◌+◌, ◌-◌, ◌*◌, ◌^◌, ◌≤◌, ◌<◌, ◌≡◌, ◌⊎◌, ◌∙◌, ap, inl, inr, List, length, ltb, ◌==◌, ◌||◌, refl,
  sym, Bool-cases, arith,
}
use mathlib.Core.Path.{subst}
use native.Mathlib.Decide.{dec_lt, dec_le}
use mini_db.Base.Powers.{pow_pos}
use mini_db.Base.Copy.{length-splice, All-splice}
use mini_db.Base.Endian.{IsByte, IsBytes, from_be, to_be-IsBytes}
use mini_db.Base.Fields.{field, Replaced, Replaced-field_self, Replaced-field_apart}
use mini_db.Base.Outcome.{ok, err, panic}
use mini_db.Util.Bits.{read_bits, write_bits, BitsError, bad_length, out_of_range, bad_value}
use mini_db.Util.Bits.Stream.{IsRun, below_run, ones-eq, read_bits-field}
use mini_db.Util.Bits.Write.{write_bits-written, from_be-written, written}

-- ReadBits returns the run of bits that begins `offset` bits from the top of the slice, read as one
-- big-endian number, for every accepted length and offset in a slice of at most 8192 bytes.
pub read_bits_lem :
    (bytes : List ℕ) (offset len : ℕ)
    → IsRun bytes offset len
    → read_bits bytes offset len ≡ ok (field (below_run bytes offset len) len (from_be bytes))
read_bits_lem bytes offset len r = read_bits-field bytes offset len r

-- `new` is `bytes` with the run replaced by `val`, every other bit as it was.
pub record IsWritten (bytes : List ℕ) (offset len val : ℕ) (new : List ℕ) : Type 0 where
  pub same_length : length new ≡ length bytes
  pub bytes_in_range : IsBytes new
  pub replaced : Replaced (below_run bytes offset len) len val (from_be bytes) (from_be new)

-- WriteBits succeeds on a value that fits the run, and replaces the run and no other bit.
pub write_bits_lem :
    (bytes : List ℕ) (offset len val : ℕ)
    → IsRun bytes offset len
    → val < 2 ^ len
    → (new : List ℕ) × (write_bits bytes offset len val ≡ ok new)
      × IsWritten bytes offset len val new
write_bits_lem bytes offset len val r fits = (
  written bytes offset len val r fits,
  write_bits-written bytes offset len val r fits,
  record {
    same_length = length-splice _ _ bytes;
    bytes_in_range = All-splice IsByte _ _ bytes (to_be-IsBytes _ _) r.bytes_in_range;
    replaced = from_be-written bytes offset len val r fits;
  },
)

-- Conversely, what WriteBits accepts fits the run, and is written like that.
pub write_bits-IsWritten :
    (bytes : List ℕ) (offset len val : ℕ) {new : List ℕ}
    → IsRun bytes offset len
    → write_bits bytes offset len val ≡ ok new
    → (val < 2 ^ len) × IsWritten bytes offset len val new
write_bits-IsWritten bytes offset len val {new} r e = elim (dec_lt val (2 ^ len)) [
  | yes fits ↦
      let (new', accepted, w) = write_bits_lem bytes offset len val r fits in
      let same : new' ≡ new = cc in (fits, subst (IsWritten bytes offset len val) same w)
  | no wide ↦ absurd (refused wide)
]
  where
    refused : ¬ (val < 2 ^ len) → ⊥
    refused wide = unfold write_bits in ground (arith, ones-eq len r.narrow, pow_pos len)

-- Every run of the old slice is a run of the new one.
pub IsWritten-IsRun :
    {bytes : List ℕ} {offset len val : ℕ} {new : List ℕ} (o l : ℕ)
    → IsWritten bytes offset len val new
    → IsRun bytes o l
    → IsRun new o l
IsWritten-IsRun o l w r = record {
  bytes_in_range = w.bytes_in_range;
  positive = r.positive;
  narrow = r.narrow;
  inside = omega (arith, w.same_length);
  small = omega (arith, w.same_length);
}

-- After a WriteBits that succeeds, ReadBits of the same run returns the value written.
pub read_bits-write_bits_self :
    (bytes : List ℕ) (offset len val : ℕ) {new : List ℕ}
    → IsRun bytes offset len
    → write_bits bytes offset len val ≡ ok new
    → read_bits new offset len ≡ ok val
read_bits-write_bits_self bytes offset len val {new} r e =
    let (fits, w) = write_bits-IsWritten bytes offset len val r e in
    read_bits_lem new offset len (IsWritten-IsRun offset len w r)
    ∙ ap ok (
        ap (λ n. field (8 * n - (offset + len)) len (from_be new)) w.same_length
        ∙ Replaced-field_self (below_run bytes offset len) len val (from_be bytes) (from_be new)
            fits w.replaced)

-- After a WriteBits that succeeds, ReadBits of a run that shares no bit with the one written returns
-- what it returned before.
pub read_bits-write_bits_apart :
    (bytes : List ℕ) (offset len val o l : ℕ) {new : List ℕ}
    → IsRun bytes offset len
    → IsRun bytes o l
    → (o + l ≤ offset) ⊎ (offset + len ≤ o)
    → write_bits bytes offset len val ≡ ok new
    → read_bits new o l ≡ read_bits bytes o l
read_bits-write_bits_apart bytes offset len val o l {new} r q apart e =
    let (fits, w) = write_bits-IsWritten bytes offset len val r e in
    let other : (below_run bytes o l + l ≤ below_run bytes offset len)
        ⊎ (below_run bytes offset len + len ≤ below_run bytes o l) =
      ground arith in
    read_bits_lem new o l (IsWritten-IsRun o l w q)
    ∙ (ap ok (
          ap (λ n. field (8 * n - (o + l)) l (from_be new)) w.same_length
          ∙ Replaced-field_apart (below_run bytes offset len) len val (from_be bytes) (from_be new)
              fits w.replaced (below_run bytes o l) l other)
        ∙ sym (read_bits_lem bytes o l q))

-- What each rejection of WriteBits means.
abbrev pub Cause : List ℕ → ℕ → ℕ → ℕ → BitsError → Type 0
Cause bytes offset len val (bad_length n) = (n ≡ len) × ((len ≡ 0) ⊎ (16 < len))
Cause bytes offset len val out_of_range = 8 * length bytes < offset + len
Cause bytes offset len val bad_value = 2 ^ len ≤ val

-- On a slice of at most 8192 bytes WriteBits never panics: it writes the run, or it returns an error
-- whose cause holds.
pub write_bits_cases :
    (bytes : List ℕ) (offset len val : ℕ)
    → IsBytes bytes
    → 8 * length bytes ≤ 2 ^ 16
    → offset < 2 ^ 16
    → len < 2 ^ 8
    → ((new : List ℕ) × (write_bits bytes offset len val ≡ ok new)
        × IsWritten bytes offset len val new)
      ⊎ ((e : BitsError) × (write_bits bytes offset len val ≡ err e) × Cause bytes offset len val e)
write_bits_cases bytes offset len val h s o n = elim (Bool-cases (len == 0 || ltb 16 len)) [
  | inl bad ↦ inr (bad_length len, unfold write_bits in rw bad, (refl, ground arith))
  | inr good ↦ elim (dec_le (offset + len) (8 * length bytes)) [
    | no past ↦ inr (out_of_range, unfold write_bits in ground arith, omega arith)
    | yes inside ↦
        let r : IsRun bytes offset len = record {
          bytes_in_range = h;
          positive = ground arith;
          narrow = ground arith;
          inside = inside;
          small = s;
        } in
        elim (dec_lt val (2 ^ len)) [
          | yes fits ↦ inl (write_bits_lem bytes offset len val r fits)
          | no wide ↦ inr (
            bad_value,
            unfold write_bits in ground (arith, ones-eq len r.narrow, pow_pos len),
            omega arith,
          )
        ]
  ]
]

-- A run that ends behind bit 2 ^ 16 passes the guards of ReadBits on a long slice, and panics: its
-- uint16 end wraps around to below its start.
pub read_bits_wraps :
    (bytes : List ℕ) (offset len : ℕ)
    → 0 < len
    → len ≤ 16
    → offset < 2 ^ 16
    → 2 ^ 16 < offset + len
    → offset + len ≤ 8 * length bytes
    → 8 * length bytes < 2 ^ 32
    → read_bits bytes offset len ≡ panic
unfolding read_bits
read_bits_wraps bytes offset len p n o w h b = ground arith
