-- ===== src/Util/Bits/Tests.antt =====
-- Runs of bits.go on small slices, and the laws at concrete runs.
use mini_db.Base.{ℕ, ◌≡◌, refl, ◌⊎◌, List, [], ◌∷◌, length, replicate, length-replicate, arith}
use mini_db.Base.Copy.{splice}
use mini_db.Base.Endian.{from_be}
use mini_db.Base.Fields.{field}
use mini_db.Base.Outcome.{ok, err, panic}
use mini_db.Util.Bits.{BitsError, bad_length, out_of_range, bad_value, read_bits, write_bits}
use mini_db.Util.Bits.Laws.{
  IsWritten, Cause, read_bits_lem, write_bits_lem, write_bits_cases, read_bits_wraps,
}
use mini_db.Util.Bits.Stream.{IsRun, below_run}

abbrev three : List ℕ
three = 0xab ∷ 0xcd ∷ 0xef ∷ []

abbrev three_written : List ℕ
three_written = 0xab ∷ 0xd5 ∷ 0x6f ∷ []

three_runs :
    (read_bits three 4 16 ≡ ok 0xbcde)
    × (read_bits three 0 17 ≡ err (bad_length 17))
    × (read_bits three 20 5 ≡ err out_of_range)
    × (write_bits three 12 5 32 ≡ err bad_value)
    × (write_bits three 11 6 42 ≡ ok three_written)
unfolding read_bits write_bits splice
three_runs = (refl, refl, refl, refl, refl)

three-IsRun : IsRun three 11 6
three-IsRun = record {
  bytes_in_range = omega arith;
  positive = omega arith;
  narrow = omega arith;
  inside = omega arith;
  small = omega arith;
}

head-IsRun : IsRun three 0 11
head-IsRun = record {
  bytes_in_range = omega arith;
  positive = omega arith;
  narrow = omega arith;
  inside = omega arith;
  small = omega arith;
}

three_accepts : write_bits three 11 6 42 ≡ ok three_written
three_accepts = three_runs.4

read_bits_lem_example : read_bits three 11 6 ≡ ok (field (below_run three 11 6) 6 (from_be three))
read_bits_lem_example = read_bits_lem three 11 6 three-IsRun

write_bits_lem_example :
    (new : List ℕ) × (write_bits three 11 6 42 ≡ ok new) × IsWritten three 11 6 42 new
write_bits_lem_example = write_bits_lem three 11 6 42 three-IsRun (omega arith)

write_bits_cases_example :
    ((new : List ℕ) × (write_bits three 12 5 32 ≡ ok new) × IsWritten three 12 5 32 new)
    ⊎ ((e : BitsError) × (write_bits three 12 5 32 ≡ err e) × Cause three 12 5 32 e)
write_bits_cases_example =
    write_bits_cases three 12 5 32 (omega arith) (omega arith) (omega arith) (omega arith)

-- 8200 bytes, as the program never holds in one slice.
abbrev long : List ℕ
long = replicate 8200 0

long-length : length long ≡ 8200
long-length = length-replicate {A = ℕ} 8200 0

read_bits_wraps_example : read_bits long 65530 16 ≡ panic
read_bits_wraps_example =
    read_bits_wraps long 65530 16 (omega arith) (omega arith) (omega arith) (omega arith)
      (omega (arith, long-length)) (omega (arith, long-length))
