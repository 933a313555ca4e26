-- ===== src/Util/Bits/Write.antt =====
-- What WriteBits leaves in the slice, read as one big-endian number.
use native.Mathlib.Nat.{mod-eq_of_lt, pow-le-pow_right}
use Prim.Native.Nat.{bit_or}
use mini_db.Base.{
  ℕ, ◌+◌, ◌-◌, ◌*◌, ◌/◌, ◌%◌, ◌^◌, ◌≤◌, ◌<◌, ◌≡◌, sym, ap, ap₂, ◌∙◌, List, ◌++◌, append-nil,
  drop-length, length, drop, arith,
}
use mini_db.Base.Outcome.{ok}
use mini_db.Base.Words.{u32}
use mini_db.Base.Copy.{splice, splice_parts}
use mini_db.Base.Endian.{from_be, to_be, from_be-to_be, from_be-lt, length-to_be}
use mini_db.Base.Fields.{field, Replaced, Replaced-lt}
use mini_db.Base.Powers.{pow_256, pow-add, pow_pos}
use mini_db.Util.Bits.{write_bits, pack, unpack, and_not, ones}
use mini_db.Util.Bits.Window.{pack_window, unpack-to_be, merge_field}
use mini_db.Util.Bits.Stream
use mini_db.Util.Bits.Stream.{IsRun, below_run, window_length, window, tail, ones-eq, from_be_parts}

-- `mask` and `val << tail` fit 32 bits, so nothing is cut off.
shifted_fits : (v len t : ℕ) → v < 2 ^ len → len + t ≤ 24 → u32 (v * 2 ^ t) ≡ v * 2 ^ t
shifted_fits v len t h n =
    let product : v * 2 ^ t < 2 ^ len * 2 ^ t = grind (arith, pow_pos t) in
    mod-eq_of_lt (omega (arith, product, pow-add 2 len t, pow-le-pow_right {n = 2} (omega arith) n))

lift :
    (hi m w old val t b low : ℕ)
    → m + old * t ≡ w + val * t
    → (hi + m) * b + low + old * (b * t) ≡ (hi + w) * b + low + val * (b * t)
lift hi m w old val t b low e = omega (arith, ap (λ (k : ℕ). k * b) e)

pub merged : List ℕ → ℕ → ℕ → ℕ → ℕ
merged w len t val = bit_or (and_not (pack 0 w) (u32 (ones len * 2 ^ t))) (u32 (val * 2 ^ t))

module _ (bytes : List ℕ) (offset len val : ℕ) (r : IsRun bytes offset len)
    (fits : val < 2 ^ len) where
  abbrev pub w : List ℕ
  w = window bytes offset len

  enters :
      write_bits bytes offset len val
      ≡ ok (splice (offset / 8) (unpack (length w) w (merged w len (tail offset len) val)) bytes)
  unfolding write_bits merged
  enters = ground (
    arith,
    ones-eq len r.narrow,
    Stream.last_byte bytes offset len r,
    Stream.window-length bytes offset len r,
    Stream.bits_behind bytes offset len r,
  )

  merged-Replaced :
      Replaced (tail offset len) len val (from_be w) (merged w len (tail offset len) val)
  unfolding merged
  merged-Replaced =
      let narrow : len + tail offset len ≤ 24 = omega arith in
      rw
        (
          ones-eq len r.narrow,
          shifted_fits (2 ^ len - 1) len (tail offset len) (omega (arith, pow_pos len)) narrow,
          shifted_fits val len (tail offset len) fits narrow,
          pack_window w (Stream.window-IsBytes bytes offset len r)
              (omega (arith, Stream.window-length bytes offset len r)),
        )
        (merge_field (tail offset len) len (from_be w) val fits)

  abbrev pub m : ℕ
  m = merged w len (tail offset len) val

  -- The bits of the window: those behind the run, the run, and those before it.
  window_bits : 8 * length w ≡ tail offset len + len + offset % 8
  window_bits = omega (arith, Stream.window-length bytes offset len r)

  merged-lt : m < 256 ^ length w
  merged-lt =
      let bound = from_be-lt w (Stream.window-IsBytes bytes offset len r) in
      let old : from_be w < 2 ^ (tail offset len + len + offset % 8) =
        rw (← window_bits, ← pow_256 (length w)) bound in
      rw (pow_256 (length w), window_bits)
        (Replaced-lt (tail offset len) len val (from_be w) m fits merged-Replaced (offset % 8) old)

  abbrev pub written : List ℕ
  written = splice (offset / 8) (to_be (length w) m) bytes

  pub write_bits-written : write_bits bytes offset len val ≡ ok written
  write_bits-written =
      enters
      ∙ ap (λ v. ok (splice (offset / 8) v bytes))
          (unpack-to_be (length w) w m (omega arith)
            ∙ (ap (λ r. to_be (length w) m ++ r) (drop-length w) ∙ append-nil (to_be (length w) m)))

  bytes_parts :
      from_be bytes
      ≡ (from_be (Stream.before bytes offset len r) * 2 ^ (8 * length w) + from_be w)
          * 2 ^ (8 * length (Stream.behind bytes offset len r))
        + from_be (Stream.behind bytes offset len r)
  bytes_parts =
      ap from_be (sym (Stream.whole bytes offset len r))
      ∙ from_be_parts (Stream.before bytes offset len r) w (Stream.behind bytes offset len r)

  written_parts :
      from_be written
      ≡ (from_be (Stream.before bytes offset len r) * 2 ^ (8 * length w) + m)
          * 2 ^ (8 * length (Stream.behind bytes offset len r))
        + from_be (Stream.behind bytes offset len r)
  written_parts =
      let vs = to_be (length w) m in
      let same_length = length-to_be (length w) m in
      let before = Stream.before bytes offset len r in
      let behind = Stream.behind bytes offset len r in
      let inside : offset / 8 + length vs ≤ length bytes =
        omega (arith, same_length, Stream.window-length bytes offset len r) in
      ap from_be (splice_parts (offset / 8) vs bytes inside)
      ∙ (ap (λ k. from_be (before ++ (vs ++ drop (offset / 8 + k) bytes)))
            (same_length ∙ Stream.window-length bytes offset len r)
          ∙ (from_be_parts before vs behind
              ∙ ap₂
                  (λ k v.
                    (from_be before * 2 ^ (8 * k) + v) * 2 ^ (8 * length behind) + from_be behind)
                  same_length (from_be-to_be (length w) m merged-lt)))

  pub from_be-written :
      Replaced (below_run bytes offset len) len val (from_be bytes) (from_be written)
  from_be-written =
      let t = tail offset len in
      let lb = 8 * length (Stream.behind bytes offset len r) in
      let old = field (below_run bytes offset len) len (from_be bytes) in
      let same : m + old * 2 ^ t ≡ from_be w + val * 2 ^ t =
        ap (λ k. m + k * 2 ^ t) (Stream.field-window bytes offset len r) ∙ merged-Replaced in
      let weight : 2 ^ below_run bytes offset len ≡ 2 ^ lb * 2 ^ t =
        ap (λ k. 2 ^ k) (Stream.run_below bytes offset len r) ∙ pow-add 2 lb t in
      let b = 2 ^ lb in
      let high = from_be (Stream.before bytes offset len r) * 2 ^ (8 * length w) in
      let low = from_be (Stream.behind bytes offset len r) in
      omega (
        arith,
        written_parts,
        bytes_parts,
        ap (λ (k : ℕ). old * k) weight,
        ap (λ (k : ℕ). val * k) weight,
        lift high m (from_be w) old val (2 ^ t) b low same,
      )
