-- ===== src/Access/Nbtree/Tree/Bounds.antt =====
-- The keys that a subtree of a span holds lie in the span, so that it is a search tree.
use mathlib.Core.Path.{subst}
use native.Mathlib.Decide.{dec_lt}
use mini_db.Base.{ℕ, zero, suc, ◌≤◌, ◌<◌, ◌≡◌, List, arith}
use mini_db.Access.Heap.{Tid}
use mini_db.Access.Nbtree.Node.{key_count, ordinal}
use mini_db.Access.Nbtree.Node.Fields.{key, child}
use mini_db.Access.Nbtree.Tree.Index.{IsUnder, Holds, IsTree}
use mini_db.Access.Nbtree.Tree.Span.{
  IsRun, low, high, low-ge, high-le, high-le-low, IsSub, same_page,
}

module _ (ps : List (List ℕ)) where
  -- The keys held lie in the span.
  pub Holds-span :
      (h pid least lo hi k : ℕ) (t : Tid)
      → IsSub ps h pid least lo hi
      → Holds ps h pid k t
      → (lo ≤ ordinal k) × (ordinal k < hi)
  Holds-span zero pid least lo hi k t (n, at, p) (m, j, here, inside, is_key, is_tid) =
      let e = same_page ps pid m n here at in
      let l : j < key_count n = subst (λ z. j < key_count z) e inside in
      let at_j : key n j ≡ k = subst (λ z. key z j ≡ k) e is_key in
      (
        subst (λ z. lo ≤ ordinal z) at_j (p.run.from j l),
        subst (λ z. ordinal z < hi) at_j (p.run.to j l),
      )
  Holds-span (suc h) pid least lo hi k t (n, at, p, subs) (m, i, here, inside, held) =
      let e = same_page ps pid m n here at in
      let l : i ≤ key_count n = subst (λ z. i ≤ key_count z) e inside in
      let (a, b) =
        Holds-span h (child n i) 1 (low lo (key n) i) (high hi (key_count n) (key n) i) k t
          (subs i l) (subst (λ z. Holds ps h (child z i) k t) e held) in
      (
        omega (arith, low-ge lo hi (key_count n) (key n) p.run i l),
        omega (arith, high-le lo hi (key_count n) (key n) p.run i l),
      )

  pub span-IsUnder :
      (n : List ℕ) (i k lo hi : ℕ)
      → IsRun (suc lo) hi (key_count n) (key n)
      → i ≤ key_count n
      → low lo (key n) i ≤ ordinal k
      → ordinal k < high hi (key_count n) (key n) i
      → IsUnder n i k
  span-IsUnder n i k lo hi r h a b = (
    λ j l.
        omega
          (arith, high-le-low lo hi (key_count n) (key n) r j i l h, below_high j (omega arith)),
    λ j l u. omega (arith, above_low j l u),
  )
    where
      below_high : (j : ℕ) → j < key_count n → ordinal (key n j) ≤ high hi (key_count n) (key n) j
      below_high j l = ground arith

      above_low :
          (j : ℕ) → i ≤ j → j < key_count n → high hi (key_count n) (key n) i ≤ ordinal (key n j)
      above_low j l u = elim (dec_lt i j) [
        | yes less ↦ ground (arith, r.sorted i j less u)
        | no same ↦ let e : i ≡ j = omega arith in ground (arith, e)
      ]

  pub IsSub-IsTree : (h pid least lo hi : ℕ) → IsSub ps h pid least lo hi → IsTree ps h pid
  IsSub-IsTree zero pid least lo hi (n, at, p) =
      (n, at, p.frame, p.leaf, omega (arith, p.room), p.run.sorted)
  IsSub-IsTree (suc h) pid least lo hi (n, at, p, subs) = (
    n,
    at,
    p.frame,
    p.inner,
    omega (arith, p.room),
    p.run.sorted,
    λ i l.
        IsSub-IsTree h (child n i) 1 (low lo (key n) i) (high hi (key_count n) (key n) i)
          (subs i l),
    λ i k t l held.
        let (a, b) =
          Holds-span h (child n i) 1 (low lo (key n) i) (high hi (key_count n) (key n) i) k t
            (subs i l) held in
        span-IsUnder n i k lo hi p.run l a b,
  )
