-- ===== src/Access/Nbtree/Node/Overrun.antt =====
-- The capacity is the caller's to watch: what insertLeafAt does to a leaf that has no room.
use mini_db.Base.{
  ℕ, ◌+◌, ◌*◌, ◌/◌, ◌^◌, ◌<◌, ◌≡◌, refl, ap, ◌∙◌, List, [], ◌∷◌, ◌++◌, zero, suc, ◌≤◌, length, take,
  drop, drop-drop, some, arith,
}
use mini_db.Base.Endian.{IsBytes, get_uint, from_be, from_be-append, get_uint-lt}
use mini_db.Base.Copy.{slice, length-slice}
use native.Mathlib.Nat.{zero-add, suc-add}
use mini_db.Access.Heap.{Tid}
use mini_db.Access.Nbtree.Node.{key_count, set_key_count, count_down, insert_leaf_at, leaf_cap}
use mini_db.Access.Nbtree.Node.Fields.{
  IsFrame, tid_page, IsTid, set_key_at_lem, set_tid_at_lem, set_key_count_lem,
}

take-plus {ℓ} :
    {A : Type ℓ} (a b : ℕ) (xs : List A) → take (a + b) xs ≡ take a xs ++ take b (drop a xs)
take-plus zero b xs = rw zero-add refl
take-plus (suc a) zero [] = rw suc-add refl
take-plus (suc a) (suc b) [] = rw suc-add refl
take-plus (suc a) b (x ∷ xs) = rw suc-add (ap (◌∷◌ x) (take-plus a b xs))

-- The upper half of a field of eight bytes.
get_uint-upper :
    (off : ℕ) (bs : List ℕ)
    → IsBytes bs
    → off + 8 ≤ length bs
    → get_uint off 4 bs ≡ get_uint off 8 bs / 2 ^ 32
unfolding get_uint
get_uint-upper off bs h fits =
    let halves : from_be (slice off 8 bs)
        ≡ from_be (slice off 4 bs) * 256 ^ length (slice (off + 4) 4 bs)
          + from_be (slice (off + 4) 4 bs) =
      ap from_be
        (take-plus 4 4 (drop off bs) ∙ ap (λ z. slice off 4 bs ++ take 4 z) (drop-drop off 4 bs))
      ∙ from_be-append (slice off 4 bs) (slice (off + 4) 4 bs) in
    let size : length (slice (off + 4) 4 bs) ≡ 4 = length-slice (off + 4) 4 bs (omega arith) in
    let low : from_be (slice (off + 4) 4 bs) < 256 ^ 4 = get_uint-lt (off + 4) 4 bs h in
    let joined : from_be (slice off 8 bs)
        ≡ from_be (slice off 4 bs) * 256 ^ 4 + from_be (slice (off + 4) 4 bs) =
      halves ∙ ap (λ z. from_be (slice off 4 bs) * 256 ^ z + from_be (slice (off + 4) 4 bs)) size in
    omega (arith, joined, low)

-- At the end of a leaf that is full already, insertLeafAt succeeds, but the key lands on the array of tuple ids: the
-- page of the leaf's first tuple id becomes the upper half of the key.
pub insert_leaf_at_overruns :
    (n : List ℕ) (k : ℕ) (t : Tid)
    → IsFrame n
    → key_count n ≡ leaf_cap
    → k < 2 ^ 64
    → IsTid t
    → (m : List ℕ) × (insert_leaf_at leaf_cap k t n ≡ some m) × (tid_page m 0 ≡ k / 2 ^ 32)
unfolding insert_leaf_at count_down
insert_leaf_at_overruns n k t f full b c =
    let (m₁, run₁, w₁) = set_key_at_lem n f leaf_cap k (omega arith) b in
    let (m₂, run₂, w₂) = set_tid_at_lem m₁ w₁.frame leaf_cap t (omega arith) c in
    let counted = set_key_count_lem m₂ 585 w₂.frame (omega arith) in
    (
      set_key_count 585 m₂,
      rw (full, run₁, run₂) refl,
      ap (λ z. z.page) (counted.tids 0)
          ∙ (ap (λ z. z.page) (w₂.others 0 (λ e. omega arith))
              ∙ get_uint-upper 4680 m₁ w₁.frame.bytes (omega (arith, w₁.frame.size))
              ∙ ap (λ z. z / 2 ^ 32) w₁.here),
    )
