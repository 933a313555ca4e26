-- ===== src/Access/Nbtree/Tree/Halves.antt =====
-- A leaf of a span that is split.
use mathlib.Core.Path.{subst}
use native.Mathlib.Decide.{dec_lt}
use mini_db.Base.{
  ℕ, ◌+◌, ◌-◌, ◌/◌, ◌≤◌, ◌<◌, ◌≡◌, refl, sym, ap, ◌∙◌, ◌⊎◌, inl, inr, true, List, some, length,
  take, drop, arith,
}
use mini_db.Access.Heap.{Tid}
use mini_db.Access.Nbtree.Node.{node_type, is_leaf, key_count, ordinal, split_leaf, leaf_cap}
use mini_db.Access.Nbtree.Node.Fields.{IsFrame, key}
use mini_db.Access.Nbtree.Node.Loops.{tabulate, take-tabulate, drop-tabulate}
use mini_db.Access.Nbtree.Node.Cells.{length-tabulate, tabulate_cells}
use mini_db.Access.Nbtree.Node.Leaf.{entry, entries, split_leaf_lem}
use mini_db.Access.Nbtree.Tree.Leaves.{
  key-entry, tid-entry, LeafHolds, IsLeafOf, is_leaf-node_type, is_leaf_of_type, IsLinked,
  linked-IsLeafOf, linked_forth, linked_back,
}

-- Two leaves made of one.
pub record AreHalves (n m r : List ℕ) (lo hi : ℕ) : Type 0 where
  pub left : IsLeafOf m lo (ordinal (key r 0))
  pub right : IsLeafOf r (ordinal (key r 0)) hi
  pub left_count : key_count m ≡ key_count n / 2
  pub right_count : key_count r ≡ key_count n - key_count n / 2
  pub low_sep : lo < ordinal (key r 0)
  pub sep_high : ordinal (key r 0) < hi
  pub covers : (l : ℕ) (u : Tid) → LeafHolds n l u → LeafHolds m l u ⊎ LeafHolds r l u
  pub only : (l : ℕ) (u : Tid) → LeafHolds m l u ⊎ LeafHolds r l u → LeafHolds n l u

module _ (n m r : List ℕ) (lo hi : ℕ) (x : IsLeafOf n lo hi) (frame_m : IsFrame m)
    (frame_r : IsFrame r) (leaf_m : is_leaf m ≡ true) (leaf_r : is_leaf r ≡ true)
    (some_keys : 1 < key_count n) (list_m : entries m ≡ take (key_count n / 2) (entries n))
    (list_r : entries r ≡ drop (key_count n / 2) (entries n)) where
  abbrev mid : ℕ
  mid = key_count n / 2

  first_half : tabulate (key_count m) (entry m) ≡ tabulate mid (entry n)
  first_half = list_m ∙ take-tabulate (key_count n) mid (entry n) (omega arith)

  second_half :
      tabulate (key_count r) (entry r) ≡ tabulate (key_count n - mid) (λ j. entry n (mid + j))
  second_half =
      list_r
      ∙ drop-tabulate (key_count n) mid (key_count n - mid) (entry n) (λ j. entry n (mid + j))
          (omega arith) (λ j l. refl)

  count_m : key_count m ≡ mid
  count_m =
      sym (length-tabulate (key_count m) (entry m))
      ∙ (ap length first_half ∙ length-tabulate mid (entry n))

  count_r : key_count r ≡ key_count n - mid
  count_r =
      sym (length-tabulate (key_count r) (entry r))
      ∙ (ap length second_half ∙ length-tabulate (key_count n - mid) (λ j. entry n (mid + j)))

  cell_m : (j : ℕ) → j < mid → entry m j ≡ entry n j
  cell_m j l =
      tabulate_cells mid (entry m) (entry n) j
        (ap (λ z. tabulate z (entry m)) (sym count_m) ∙ first_half) l

  cell_r : (j : ℕ) → j < key_count n - mid → entry r j ≡ entry n (mid + j)
  cell_r j l =
      tabulate_cells (key_count n - mid) (entry r) (λ i. entry n (mid + i)) j
        (ap (λ z. tabulate z (entry r)) (sym count_r) ∙ second_half) l

  sep_at : key r 0 ≡ key n mid
  sep_at =
      ap (λ x. x.0) (cell_r 0 (omega arith) ∙ ap (entry n) {x = mid + 0} {y = mid} (omega arith))

  key_m : (j : ℕ) → j < key_count m → ordinal (key m j) ≡ ordinal (key n j)
  key_m j l = ap ordinal (key-entry n m j j (cell_m j (omega (arith, count_m))))

  key_r : (j : ℕ) → j < key_count r → ordinal (key r j) ≡ ordinal (key n (mid + j))
  key_r j l = ap ordinal (key-entry n r j (mid + j) (cell_r j (omega (arith, count_r))))

  pub halves-AreHalves : AreHalves n m r lo hi
  halves-AreHalves = record {
    left = record {
      frame = frame_m;
      leaf = leaf_m;
      run = record {
        sorted = λ i j l u.
            omega (
              arith,
              key_m i (omega arith),
              key_m j u,
              x.run.sorted i j l (omega (arith, count_m)),
            );
        from = λ j l. omega (arith, key_m j l, x.run.from j (omega (arith, count_m)));
        to = λ j l. omega (
          arith,
          key_m j l,
          ap ordinal sep_at,
          x.run.sorted j mid (omega (arith, count_m)) (omega arith),
        );
      };
    };
    right = record {
      frame = frame_r;
      leaf = leaf_r;
      run = record {
        sorted = λ i j l u. omega (
          arith,
          key_r i (omega arith),
          key_r j u,
          x.run.sorted (mid + i) (mid + j) (omega arith) (omega (arith, count_r)),
        );
        from = λ j l. elim (dec_lt 0 j) [
          | yes later ↦ omega (
            arith,
            key_r j l,
            ap ordinal sep_at,
            x.run.sorted mid (mid + j) (omega arith) (omega (arith, count_r)),
          )
          | no first ↦ omega (arith, ap (λ z. ordinal (key r z)) {x = 0} {y = j} (omega arith))
        ];
        to = λ j l. omega (arith, key_r j l, x.run.to (mid + j) (omega (arith, count_r)));
      };
    };
    left_count = count_m;
    right_count = count_r;
    low_sep = omega (
      arith,
      ap ordinal sep_at,
      x.run.from 0 (omega arith),
      x.run.sorted 0 mid (omega arith) (omega arith),
    );
    sep_high = omega (arith, ap ordinal sep_at, x.run.to mid (omega arith));
    covers = λ l u (j, h, e, f). elim (dec_lt j mid) [
      | yes less ↦ inl (
        j,
        omega (arith, count_m),
        key-entry n m j j (cell_m j less) ∙ e,
        tid-entry n m j j (cell_m j less) ∙ f,
      )
      | no more ↦
          let at =
            cell_r (j - mid) (omega arith)
            ∙ ap (entry n) {x = mid + (j - mid)} {y = j} (omega arith) in
          inr (
            j - mid,
            omega (arith, count_r),
            key-entry n r (j - mid) j at ∙ e,
            tid-entry n r (j - mid) j at ∙ f,
          )
    ];
    only = λ l u z. elim z [
      | inl (j, h, e, f) ↦
          let at = sym (cell_m j (omega (arith, count_m))) in
          (j, omega (arith, count_m), key-entry m n j j at ∙ e, tid-entry m n j j at ∙ f)
      | inr (j, h, e, f) ↦
          let at = sym (cell_r j (omega (arith, count_r))) in
          (
            mid + j,
            omega (arith, count_r),
            key-entry r n (mid + j) j at ∙ e,
            tid-entry r n (mid + j) j at ∙ f,
          )
    ];
  }

-- splitLeaf of a leaf of a span.
pub leaf_halves :
    (n right : List ℕ) (lo hi : ℕ)
    → IsLeafOf n lo hi
    → 1 < key_count n
    → key_count n ≤ leaf_cap
    → IsFrame right
    → node_type right ≡ 1
    → (m r : List ℕ) × (split_leaf n right ≡ some (m, r)) × AreHalves n m r lo hi
leaf_halves n right lo hi x some_keys small g kind =
    let (m, r, run, f, f_r, list_m, list_r, kept, kept_r) =
      split_leaf_lem n right x.frame g small in
    (
      m,
      r,
      run,
      halves-AreHalves n m r lo hi x f f_r (is_leaf-node_type n m kept.0 x.leaf)
          (is_leaf_of_type r (kept_r.0 ∙ kind)) some_keys list_m list_r,
    )

-- Both halves with their siblings written.
pub linked-AreHalves :
    (n m r m' r' : List ℕ) (lo hi : ℕ)
    → AreHalves n m r lo hi
    → IsLinked m m'
    → IsLinked r r'
    → AreHalves n m' r' lo hi
linked-AreHalves n m r m' r' lo hi x f g =
    let sep : ordinal (key r' 0) ≡ ordinal (key r 0) = ap ordinal (g.keys 0) in
    record {
      left =
          subst (λ z. IsLeafOf m' lo z) (sym sep)
            (linked-IsLeafOf m m' f lo (ordinal (key r 0)) x.left);
      right =
          subst (λ z. IsLeafOf r' z hi) (sym sep)
            (linked-IsLeafOf r r' g (ordinal (key r 0)) hi x.right);
      left_count = f.count ∙ x.left_count;
      right_count = g.count ∙ x.right_count;
      low_sep = omega (arith, sep, x.low_sep);
      sep_high = omega (arith, sep, x.sep_high);
      covers = λ l u h. elim (x.covers l u h) [
        | inl a ↦ inl (linked_forth m m' f l u a)
        | inr b ↦ inr (linked_forth r r' g l u b)
      ];
      only = λ l u h. elim h [
        | inl a ↦ x.only l u (inl (linked_back m m' f l u a))
        | inr b ↦ x.only l u (inr (linked_back r r' g l u b))
      ];
    }
