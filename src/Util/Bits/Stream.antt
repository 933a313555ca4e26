-- ===== src/Util/Bits/Stream.antt =====
-- The window of bits.go inside the whole slice, read as one big-endian bit stream.
use native.Mathlib.Nat.{mod-eq_of_lt, mod-lt, pow-le-pow_right}
use Prim.Native.Nat.{bit_and}
use mini_db.Base.{
  ℕ, ◌+◌, ◌-◌, ◌*◌, ◌/◌, ◌%◌, ◌^◌, ◌≤◌, ◌<◌, ◌≡◌, sym, ap, ap₂, ◌∙◌, ◌≡⟨◌⟩◌, ◌∎, List, ◌++◌, length,
  drop, take, All-take, All-drop, length-append, length-drop, arith,
}
use mini_db.Base.Outcome.{ok}
use mini_db.Base.BitLaws.{and_mask}
use mini_db.Base.Words.{u16}
use mini_db.Base.Copy.{slice, slice_parts, length-slice}
use mini_db.Base.Endian.{IsByte, IsBytes, from_be, from_be-append, from_be-lt}
use mini_db.Base.Fields.{field, field_below, div-pow-add}
use mini_db.Base.Powers.{pow_256, div_fields, pow-add, pow_pos}
use mini_db.Util.Bits.{read_bits, pack, ones, end_byte, tail_bits}
use mini_db.Util.Bits.Window.{pack_window}

-- The place of a run of `len` bits at bit `offset` counted from the other end.
abbrev pub below_run : List ℕ → ℕ → ℕ → ℕ
below_run bytes offset len = 8 * length bytes - (offset + len)

pub from_be_parts :
    (a w b : List ℕ)
    → from_be (a ++ (w ++ b))
      ≡ (from_be a * 2 ^ (8 * length w) + from_be w) * 2 ^ (8 * length b) + from_be b
from_be_parts a w b = omega (
  arith,
  from_be-append a (w ++ b),
  from_be-append w b,
  ap (λ (k : ℕ). from_be a * 256 ^ k) (length-append w b),
  ap (λ (k : ℕ). from_be a * k) (pow-add 256 (length w) (length b)),
  ap (λ (k : ℕ). from_be a * (k * 256 ^ length b)) (pow_256 (length w)),
  ap (λ (k : ℕ). from_be a * (2 ^ (8 * length w) * k)) (pow_256 (length b)),
  ap (λ (k : ℕ). from_be w * k) (pow_256 (length b)),
)

-- A field of the window is a field of the whole.
field_window :
    (a w b : List ℕ) (tail len d : ℕ)
    → IsBytes b
    → 8 * length w ≡ tail + len + d
    → field (8 * length b + tail) len (from_be (a ++ (w ++ b))) ≡ field tail len (from_be w)
field_window a w b tail len d hb e =
    let high = from_be a * 2 ^ (8 * length w) + from_be w in
    let small = from_be-lt b hb in
    ap (λ k. k % 2 ^ len)
      (ap (λ k. k / 2 ^ (8 * length b + tail)) (from_be_parts a w b)
        ∙ (div-pow-add (high * 2 ^ (8 * length b) + from_be b) (8 * length b) tail
            ∙ ap (λ k. k / 2 ^ tail)
                (div_fields high (from_be b) (2 ^ (8 * length b))
                  (rw (← pow_256 (length b)) small))))
    ∙ (ap (λ k. field tail len (from_be a * 2 ^ k + from_be w)) e
        ∙ field_below tail len d (from_be a) (from_be w))

pub ones-eq : (len : ℕ) → len ≤ 16 → ones len ≡ 2 ^ len - 1
ones-eq len h = omega (arith, pow-le-pow_right {n = 2} (omega arith) h, pow_pos len)

-- `windowVal & mask` of at most 16 bits, cut to a uint16.
mask_run : (len v : ℕ) → len ≤ 16 → u16 (bit_and v (ones len)) ≡ v % 2 ^ len
mask_run len v h =
    rw (ones-eq len h, and_mask len v)
      (mod-eq_of_lt
        (omega (arith, mod-lt v (pow_pos len), pow-le-pow_right {n = 2} (omega arith) h)))

-- The run that both functions accept, for a slice of at most 8192 bytes.
pub record IsRun (bytes : List ℕ) (offset len : ℕ) : Type 0 where
  pub bytes_in_range : IsBytes bytes
  pub positive : 0 < len
  pub narrow : len ≤ 16
  pub inside : offset + len ≤ 8 * length bytes
  pub small : 8 * length bytes ≤ 2 ^ 16

abbrev pub window_length : ℕ → ℕ → ℕ
window_length offset len = (offset + len - 1) / 8 + 1 - offset / 8

abbrev pub window : List ℕ → ℕ → ℕ → List ℕ
window bytes offset len = slice (offset / 8) (window_length offset len) bytes

abbrev pub tail : ℕ → ℕ → ℕ
tail offset len = 8 * window_length offset len - offset % 8 - len

module _ (bytes : List ℕ) (offset len : ℕ) (r : IsRun bytes offset len) where
  pub window-length : length (window bytes offset len) ≡ window_length offset len
  window-length = length-slice (offset / 8) (window_length offset len) bytes (omega arith)

  pub last_byte : end_byte offset len + 1 ≡ (offset + len - 1) / 8 + 1
  last_byte = omega arith

  pub bits_behind : tail_bits (window_length offset len) offset len ≡ tail offset len
  bits_behind = omega arith

  enters :
      read_bits bytes offset len
      ≡ ok (u16 (bit_and (pack 0 (window bytes offset len) / 2 ^ tail offset len) (ones len)))
  unfolding read_bits
  enters = ground (arith, last_byte, window-length, bits_behind)

  -- The slice is what stands before the window, the window, and what stands behind it.
  abbrev pub before : List ℕ
  before = take (offset / 8) bytes

  abbrev pub behind : List ℕ
  behind = drop (offset / 8 + window_length offset len) bytes

  pub length-behind : length behind ≡ length bytes - (offset / 8 + window_length offset len)
  length-behind = length-drop (offset / 8 + window_length offset len) bytes

  pub whole : before ++ (window bytes offset len ++ behind) ≡ bytes
  whole = slice_parts (offset / 8) (window_length offset len) bytes

  pub window-IsBytes : IsBytes (window bytes offset len)
  window-IsBytes =
      All-take IsByte (window_length offset len) (drop (offset / 8) bytes)
        (All-drop IsByte (offset / 8) bytes r.bytes_in_range)

  pub run_below : below_run bytes offset len ≡ 8 * length behind + tail offset len
  run_below = omega (arith, length-behind)

  pub field-window :
      field (below_run bytes offset len) len (from_be bytes)
      ≡ field (tail offset len) len (from_be (window bytes offset len))
  field-window =
      ap₂ (λ t v. field t len (from_be v)) run_below (sym whole)
      ∙ field_window before (window bytes offset len) behind (tail offset len) len (offset % 8)
          (All-drop IsByte (offset / 8 + window_length offset len) bytes r.bytes_in_range)
          (omega (arith, window-length))

  pub read_bits-field :
      read_bits bytes offset len ≡ ok (field (below_run bytes offset len) len (from_be bytes))
  read_bits-field =
      enters
      ∙ ap ok (
          u16 (bit_and (pack 0 (window bytes offset len) / 2 ^ tail offset len) (ones len))
          ≡⟨ mask_run len (pack 0 (window bytes offset len) / 2 ^ tail offset len) r.narrow
            ∙ ap (field (tail offset len) len) (
                pack_window (window bytes offset len) window-IsBytes
                  (omega (arith, window-length))) ⟩
            field (tail offset len) len (from_be (window bytes offset len))
          ≡⟨ sym field-window ⟩ field (below_run bytes offset len) len (from_be bytes) ∎)
