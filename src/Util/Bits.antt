-- ===== src/Util/Bits.antt =====
-- internal/util/bits.go: reading and writing a run of bits at any bit offset of a byte slice.
-- A `[]byte` is the list of its bytes; `WriteBits` writes in place, so the model returns the slice.
pub mod Window
pub mod Stream
pub mod Write
pub mod Laws
mod Tests
use Prim.Native.Nat.{bit_and, bit_or}
use mini_db.Base.{
  ℕ, zero, suc, ◌+◌, ◌-◌, ◌*◌, ◌/◌, ◌%◌, ◌^◌, Bool, ◌&&◌, ◌||◌, List, [], ◌∷◌, ltb, leb, ◌==◌,
  if◌then◌else◌, length, get_or, set,
}
use mini_db.Base.Outcome.{Outcome, ok, err, checked, ◌>>=◌}
use mini_db.Base.Words.{u8, u16, u32, sub16, sub32}
use mini_db.Base.Copy.{slice, splice}

abbrev pub max_bit_length : ℕ
max_bit_length = 16

pub data BitsError : Type 0 where
  bad_length : ℕ → BitsError
  out_of_range : BitsError
  bad_value : BitsError

-- x &^ m: the bits of m are taken out of x.
abbrev pub and_not : ℕ → ℕ → ℕ
and_not x m = x - bit_and x m

-- The bytes spanned by the target bits, [start_byte, end_byte + 1), in uint16 arithmetic.
abbrev pub start_byte : ℕ → ℕ
start_byte offset = offset / 8

abbrev pub end_byte : ℕ → ℕ → ℕ
end_byte offset len = sub16 (u16 (offset + len)) 1 / 8

-- The bits that stand after the target inside a window of `n` bytes.
abbrev pub tail_bits : ℕ → ℕ → ℕ → ℕ
tail_bits n offset len = sub16 (sub16 (u16 (u16 n * 8)) (offset % 8)) len

-- `for _, b := range window { windowVal = windowVal<<8 | uint32(b) }`
unfoldable pub pack : ℕ → List ℕ → ℕ
pack acc [] = acc
pack acc (b ∷ bs) = pack (bit_or (u32 (acc * 2 ^ 8)) b) bs

-- `for i := len(window) - 1; i >= 0; i-- { window[i] = byte(windowVal); windowVal >>= 8 }`
unfoldable pub unpack : ℕ → List ℕ → ℕ → List ℕ
unpack zero window v = window
unpack (suc i) window v = unpack i (set window i (u8 v)) (v / 2 ^ 8)

-- `bytes[lo:hi]`, which panics unless lo <= hi <= len(bytes).
abbrev pub window_of : List ℕ → ℕ → ℕ → Outcome BitsError (List ℕ)
window_of bytes lo hi = checked (leb lo hi && leb hi (length bytes)) (slice lo (hi - lo) bytes)

-- The two guards that both functions begin with.
abbrev pub bad_run : List ℕ → ℕ → ℕ → Bool
bad_run bytes offset len = ltb (u32 (u32 (length bytes) * 8)) (u32 (offset + len))

-- uint32(1)<<length - 1
abbrev pub ones : ℕ → ℕ
ones len = sub32 (u32 (2 ^ len)) 1

unfoldable pub read_bits : List ℕ → ℕ → ℕ → Outcome BitsError ℕ
unfolding pack
read_bits bytes offset len =
    if len == 0 || ltb max_bit_length len
    then err (bad_length len)
    else if bad_run bytes offset len
    then err out_of_range
    else do
      window ← window_of bytes (start_byte offset) (end_byte offset len + 1)
      let tail = tail_bits (length window) offset len
      ok (u16 (bit_and (pack 0 window / 2 ^ tail) (ones len)))

unfoldable pub write_bits : List ℕ → ℕ → ℕ → ℕ → Outcome BitsError (List ℕ)
unfolding pack unpack
write_bits bytes offset len val =
    if len == 0 || ltb max_bit_length len
    then err (bad_length len)
    else if bad_run bytes offset len
    then err out_of_range
    else if ltb (ones len) val
    then err bad_value
    else do
      window ← window_of bytes (start_byte offset) (end_byte offset len + 1)
      let tail = tail_bits (length window) offset len
      let mask = u32 (ones len * 2 ^ tail)
      let merged = bit_or (and_not (pack 0 window) mask) (u32 (val * 2 ^ tail))
      ok (splice (start_byte offset) (unpack (length window) window merged) bytes)
