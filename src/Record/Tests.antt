-- ===== src/Record/Tests.antt =====
-- The theorems on tuple headers and on column data, applied to a header and to a row with a nil.
use mini_db.Base.{ℕ, ◌≡◌, refl, true, false, List, [], ◌∷◌, arith}
use mini_db.Base.Outcome.{ok}
use mini_db.Page.Tuple.Laws.{IsHeader}
use mini_db.Record.{Column, type_int, type_text, Value, null, int, text, encode, decode}
use mini_db.Record.Total.{RowOrError, decode_returns}
use mini_db.Record.RoundTrip.{decode-encode}

abbrev header : List ℕ
header = 0 ∷ 0 ∷ 0 ∷ 1 ∷ 0 ∷ 0 ∷ 0 ∷ 2 ∷ 4 ∷ 3 ∷ 12 ∷ 0 ∷ []

header-IsHeader : IsHeader header
header-IsHeader = record { twelve = refl; bytes_in_range = ground arith }

-- id INT, note TEXT NULL, name TEXT
abbrev columns : List Column
columns =
    record { name = 105 ∷ []; kind = type_int; nullable = false }
    ∷ record { name = 116 ∷ []; kind = type_text; nullable = true }
    ∷ record { name = 110 ∷ []; kind = type_text; nullable = false }
    ∷ []

abbrev row : List Value
row = int 7 ∷ null ∷ text (104 ∷ 105 ∷ []) ∷ []

decode-encode_example :
    (bytes : List ℕ) × (encode columns row ≡ ok bytes) × (decode columns bytes ≡ ok row)
decode-encode_example =
    decode-encode columns row (omega arith, (tt, (omega arith, tt))) (refl, (refl, (refl, tt)))
      (omega arith)

-- A text that is cut off.
decode_returns_example :
    RowOrError columns (decode columns (0 ∷ 0 ∷ 0 ∷ 0 ∷ 0 ∷ 0 ∷ 0 ∷ 0 ∷ 0 ∷ 3 ∷ 12 ∷ 0 ∷ 1 ∷ []))
decode_returns_example =
    decode_returns columns (0 ∷ 0 ∷ 0 ∷ 0 ∷ 0 ∷ 0 ∷ 0 ∷ 0 ∷ 0 ∷ 3 ∷ 12 ∷ 0 ∷ 1 ∷ [])
