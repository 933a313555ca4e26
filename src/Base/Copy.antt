-- ===== src/Base/Copy.antt =====
-- Go slices as lists: `b[off:off+n]`, and `copy(b[off:], vs)`, which stops at the end of either.
use Prim.Native.Nat.{ℕ, zero, suc, ◌+◌, ◌≤◌}
use mathlib.Core.Path.{◌≡◌, refl, ap, sym, ◌∙◌}
use mathlib.Core.Logic.{◌⊎◌, inl, inr}
use mathlib.Core.List.{List, [], ◌∷◌, ◌++◌}
use native.Mathlib.Omega.{arith}
use mini_db.Base.Lists.{
  length, take, drop, All, length-take, length-drop, take-append-drop, drop-drop,
}

module _ {ℓ} {A : Type ℓ} where
  unfoldable pub overwrite : List A → List A → List A
  overwrite [] bs = bs
  overwrite (v ∷ vs) [] = []
  overwrite (v ∷ vs) (b ∷ bs) = v ∷ overwrite vs bs

  unfoldable pub splice : ℕ → List A → List A → List A
  unfolding overwrite
  splice zero vs bs = overwrite vs bs
  splice (suc o) vs [] = []
  splice (suc o) vs (b ∷ bs) = b ∷ splice o vs bs

  abbrev pub slice : ℕ → ℕ → List A → List A
  slice off n bs = take n (drop off bs)

  length-overwrite : (vs bs : List A) → length (overwrite vs bs) ≡ length bs
  unfolding overwrite
  length-overwrite [] bs = refl
  length-overwrite (v ∷ vs) [] = refl
  length-overwrite (v ∷ vs) (b ∷ bs) = ap suc (length-overwrite vs bs)

  pub length-splice : (off : ℕ) (vs bs : List A) → length (splice off vs bs) ≡ length bs
  unfolding splice
  length-splice zero vs bs = length-overwrite vs bs
  length-splice (suc o) vs [] = refl
  length-splice (suc o) vs (b ∷ bs) = ap suc (length-splice o vs bs)

  take-overwrite :
      (vs bs : List A) → length vs ≤ length bs → take (length vs) (overwrite vs bs) ≡ vs
  unfolding overwrite
  take-overwrite [] bs h = refl
  take-overwrite (v ∷ vs) [] h = absurd (omega arith)
  take-overwrite (v ∷ vs) (b ∷ bs) h = ap (◌∷◌ v) (take-overwrite vs bs (omega arith))

  -- What was copied is read back.
  pub slice-splice_self :
      (off : ℕ) (vs bs : List A)
      → off + length vs ≤ length bs
      → slice off (length vs) (splice off vs bs) ≡ vs
  unfolding splice
  slice-splice_self zero vs bs h = take-overwrite vs bs (omega arith)
  slice-splice_self (suc o) [] [] h = refl
  slice-splice_self (suc o) (v ∷ vs) [] h = absurd (omega arith)
  slice-splice_self (suc o) vs (b ∷ bs) h = slice-splice_self o vs bs (omega arith)

  take-splice : (n off : ℕ) (vs bs : List A) → n ≤ off → take n (splice off vs bs) ≡ take n bs
  unfolding splice
  take-splice zero off vs bs h = refl
  take-splice (suc n) zero vs bs h = absurd (omega arith)
  take-splice (suc n) (suc o) vs [] h = refl
  take-splice (suc n) (suc o) vs (b ∷ bs) h = ap (◌∷◌ b) (take-splice n o vs bs (omega arith))

  -- A slice that ends at or below the copied range keeps its content.
  pub slice-splice_below :
      (o n off : ℕ) (vs bs : List A) → o + n ≤ off → slice o n (splice off vs bs) ≡ slice o n bs
  unfolding splice
  slice-splice_below zero n off vs bs h = take-splice n off vs bs (omega arith)
  slice-splice_below (suc o) n zero vs bs h = absurd (omega arith)
  slice-splice_below (suc o) n (suc off) vs [] h = refl
  slice-splice_below (suc o) n (suc off) vs (b ∷ bs) h =
      slice-splice_below o n off vs bs (omega arith)

  drop-overwrite : (o : ℕ) (vs bs : List A) → length vs ≤ o → drop o (overwrite vs bs) ≡ drop o bs
  unfolding overwrite
  drop-overwrite o [] bs h = refl
  drop-overwrite zero (v ∷ vs) bs h = absurd (omega arith)
  drop-overwrite (suc o) (v ∷ vs) [] h = refl
  drop-overwrite (suc o) (v ∷ vs) (b ∷ bs) h = drop-overwrite o vs bs (omega arith)

  -- What lies at or above the end of the copied range keeps its content.
  pub drop-splice :
      (o off : ℕ) (vs bs : List A) → off + length vs ≤ o → drop o (splice off vs bs) ≡ drop o bs
  unfolding splice
  drop-splice o zero vs bs h = drop-overwrite o vs bs (omega arith)
  drop-splice zero (suc off) vs bs h = absurd (omega arith)
  drop-splice (suc o) (suc off) vs [] h = refl
  drop-splice (suc o) (suc off) vs (b ∷ bs) h = drop-splice o off vs bs (omega arith)

  -- A copy of a list as long as the destination replaces it.
  pub splice_whole : (vs bs : List A) → length vs ≡ length bs → splice 0 vs bs ≡ vs
  unfolding splice overwrite
  splice_whole [] [] h = refl
  splice_whole [] (b ∷ bs) h = absurd (omega arith)
  splice_whole (v ∷ vs) [] h = absurd (omega arith)
  splice_whole (v ∷ vs) (b ∷ bs) h = ap (◌∷◌ v) (splice_whole vs bs (omega arith))

  -- A slice that shares no position with the copied range keeps its content.
  pub slice-splice_apart :
      (o n off : ℕ) (vs bs : List A)
      → (o + n ≤ off) ⊎ (off + length vs ≤ o)
      → slice o n (splice off vs bs) ≡ slice o n bs
  slice-splice_apart o n off vs bs (inl h) = slice-splice_below o n off vs bs h
  slice-splice_apart o n off vs bs (inr h) = ap (take n) (drop-splice o off vs bs h)

  pub length-slice : (o n : ℕ) (bs : List A) → o + n ≤ length bs → length (slice o n bs) ≡ n
  length-slice o n bs h = omega (arith, length-take n (drop o bs), length-drop o bs)

  -- A list is what stands before a slice, the slice, and what stands behind it.
  pub slice_parts : (o n : ℕ) (bs : List A) → take o bs ++ (slice o n bs ++ drop (o + n) bs) ≡ bs
  slice_parts o n bs = rw (← drop-drop o n bs, take-append-drop, take-append-drop)

  pub splice_parts :
      (off : ℕ) (vs bs : List A)
      → off + length vs ≤ length bs
      → splice off vs bs ≡ take off bs ++ (vs ++ drop (off + length vs) bs)
  splice_parts off vs bs h =
      sym (slice_parts off (length vs) (splice off vs bs))
      ∙ rw (
        take-splice off off vs bs (omega arith),
        slice-splice_self off vs bs h,
        drop-splice (off + length vs) off vs bs (omega arith),
      )

  pub All-splice {κ} :
      (P : A → Type κ) (off : ℕ) (vs bs : List A) → All P vs → All P bs → All P (splice off vs bs)
  unfolding splice overwrite
  All-splice P zero [] bs hv hb = hb
  All-splice P zero (v ∷ vs) [] hv hb = tt
  All-splice P zero (v ∷ vs) (b ∷ bs) hv hb = (hv.0, All-splice P zero vs bs hv.1 hb.1)
  All-splice P (suc o) vs [] hv hb = tt
  All-splice P (suc o) vs (b ∷ bs) hv hb = (hb.0, All-splice P o vs bs hv hb.1)
