-- ===== src/Disk/File.antt =====
-- A file as a row of pages of 8192 bytes: what a write changes.
use mini_db.Base.{
  ℕ, zero, suc, ◌+◌, ◌-◌, ◌≤◌, ◌≡◌, refl, sym, ap, ◌∙◌, inr, List, [], ◌∷◌, ◌++◌, length, take,
  drop, replicate, length-append, length-take, length-drop, length-replicate, take-length-append,
  drop-length-append, append_assoc, arith,
}
use mini_db.Base.Copy.{slice, splice, splice_parts, slice-splice_apart}
use mini_db.Disk.{write_bytes}

abbrev padded : ℕ → List ℕ → List ℕ
padded off file = file ++ replicate (off - length file) 0

module _ {ℓ} {A : Type ℓ} where
  pub take-append_le : (n : ℕ) (xs ys : List A) → n ≤ length xs → take n (xs ++ ys) ≡ take n xs
  take-append_le zero xs ys h = refl
  take-append_le (suc n) [] ys h = absurd (omega arith)
  take-append_le (suc n) (x ∷ xs) ys h = ap (◌∷◌ x) (take-append_le n xs ys (omega arith))

  pub drop-append_le :
      (n : ℕ) (xs ys : List A) → n ≤ length xs → drop n (xs ++ ys) ≡ drop n xs ++ ys
  drop-append_le zero xs ys h = refl
  drop-append_le (suc n) [] ys h = absurd (omega arith)
  drop-append_le (suc n) (x ∷ xs) ys h = drop-append_le n xs ys (omega arith)

  pub slice-append_le :
      (o n : ℕ) (xs ys : List A) → o + n ≤ length xs → slice o n (xs ++ ys) ≡ slice o n xs
  slice-append_le o n xs ys h =
      ap (take n) (drop-append_le o xs ys (omega arith))
      ∙ take-append_le n (drop o xs) ys (omega (arith, length-drop o xs))

  take-take : (n m : ℕ) (xs : List A) → n ≤ m → take n (take m xs) ≡ take n xs
  take-take zero m xs h = refl
  take-take (suc n) zero xs h = absurd (omega arith)
  take-take (suc n) (suc m) [] h = refl
  take-take (suc n) (suc m) (x ∷ xs) h = ap (◌∷◌ x) (take-take n m xs (omega arith))

  -- A slice below `m` is a slice of the first `m`.
  slice-take : (o n m : ℕ) (xs : List A) → o + n ≤ m → slice o n (take m xs) ≡ slice o n xs
  slice-take zero n m xs h = take-take n m xs (omega arith)
  slice-take (suc o) n zero xs h = absurd (omega arith)
  slice-take (suc o) n (suc m) [] h = refl
  slice-take (suc o) n (suc m) (x ∷ xs) h = slice-take o n m xs (omega arith)

  pub drop_past : (n : ℕ) (xs : List A) → length xs ≤ n → drop n xs ≡ []
  drop_past zero [] h = refl
  drop_past zero (x ∷ xs) h = absurd (omega arith)
  drop_past (suc n) [] h = refl
  drop_past (suc n) (x ∷ xs) h = drop_past n xs (omega arith)

-- Inside the file a write is a copy.
pub write_bytes-splice :
    (off : ℕ) (bs file : List ℕ)
    → off + length bs ≤ length file
    → write_bytes off bs file ≡ splice off bs file
unfolding write_bytes
write_bytes-splice off bs file h =
    append_assoc (take off (padded off file)) bs (drop (off + length bs) file)
    ∙ (ap (λ t. t ++ (bs ++ drop (off + length bs) file))
          (take-append_le off file (replicate (off - length file) 0) (omega arith))
        ∙ sym (splice_parts off bs file h))

-- What is written from position `off` on leaves the slices below it.
pub slice-write_bytes_below :
    (o n off : ℕ) (bs file : List ℕ)
    → o + n ≤ off
    → o + n ≤ length file
    → slice o n (write_bytes off bs file) ≡ slice o n file
unfolding write_bytes
slice-write_bytes_below o n off bs file h k =
    let head = take off (padded off file) in
    let long : o + n ≤ length head = omega (
      arith,
      length-take off (padded off file),
      length-append file (replicate (off - length file) 0),
    ) in
    ap (slice o n) (append_assoc head bs (drop (off + length bs) file))
    ∙ (slice-append_le o n head (bs ++ drop (off + length bs) file) long
        ∙ (slice-take o n off (padded off file) h
            ∙ slice-append_le o n file (replicate (off - length file) 0) k))

-- A write does not shorten the file.
pub length-write_bytes :
    (off : ℕ) (bs file : List ℕ)
    → (length file ≤ length (write_bytes off bs file))
      × (off + length bs ≤ length (write_bytes off bs file))
unfolding write_bytes
length-write_bytes off bs file =
    let head = take off (padded off file) in
    omega (
      arith,
      length-append (head ++ bs) (drop (off + length bs) file),
      length-append head bs,
      length-drop (off + length bs) file,
      length-take off (padded off file),
      length-append file (replicate (off - length file) 0),
      length-replicate {A = ℕ} (off - length file) 0,
    )

-- A write at the end of the file appends.
pub length-write_bytes_end :
    (off : ℕ) (bs file : List ℕ)
    → length file ≡ off
    → length (write_bytes off bs file) ≡ off + length bs
unfolding write_bytes
length-write_bytes_end off bs file h =
    let head = take off (padded off file) in
    omega (
      arith,
      length-append (head ++ bs) (drop (off + length bs) file),
      length-append head bs,
      length-drop (off + length bs) file,
      length-take off (padded off file),
      length-append file (replicate (off - length file) 0),
      length-replicate {A = ℕ} (off - length file) 0,
    )

-- What was written is read back.
pub slice-write_bytes_self :
    (off : ℕ) (bs file : List ℕ) → slice off (length bs) (write_bytes off bs file) ≡ bs
unfolding write_bytes
slice-write_bytes_self off bs file =
    let head = take off (padded off file) in
    let rest = drop (off + length bs) file in
    let exact : length head ≡ off = omega (
      arith,
      length-take off (padded off file),
      length-append file (replicate (off - length file) 0),
      length-replicate {A = ℕ} (off - length file) 0,
    ) in
    ap (λ k. slice k (length bs) (head ++ bs ++ rest)) (sym exact)
    ∙ (ap (slice (length head) (length bs)) (append_assoc head bs rest)
        ∙ (ap (take (length bs)) (drop-length-append head (bs ++ rest))
            ∙ take-length-append bs rest))

-- What is written leaves the slices of the file that lie above it.
pub slice-write_bytes_above :
    (o n off : ℕ) (bs file : List ℕ)
    → off + length bs ≤ o
    → o ≤ length file
    → slice o n (write_bytes off bs file) ≡ slice o n file
slice-write_bytes_above o n off bs file h k =
    ap (slice o n) (write_bytes-splice off bs file (omega arith))
    ∙ slice-splice_apart o n off bs file (inr h)
