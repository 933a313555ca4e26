-- ===== src/Access/Nbtree/Insert/Families.antt =====
-- A node's family of subtrees behind the insertion into one of them.
use mathlib.Core.Path.{subst}
use native.Mathlib.Decide.{dec_lt}
use mini_db.Base.{
  ℕ, suc, ◌+◌, ◌^◌, ◌≤◌, ◌<◌, ◌≡◌, refl, sym, ap, ◌∙◌, ◌⊎◌, inl, inr, List, some, get_elem?, arith,
}
use mini_db.Access.Heap.{Tid}
use mini_db.Access.Nbtree.Node.{key_count, ordinal, internal_cap}
use mini_db.Access.Nbtree.Node.Fields.{key, child, key-lt}
use mini_db.Access.Nbtree.Tree.Index.{Holds}
use mini_db.Access.Nbtree.Tree.Span.{
  low, high, IsInnerPage, IsSub, Kept, IsSub-kept, Holds-kept, Holds-kept_back, same_page,
}
use mini_db.Access.Nbtree.Tree.Fan.{IsFan, FanHolds, Adds, grown-IsFan}
use mini_db.Access.Nbtree.Tree.Divided.{
  kept-Adds, grown-Adds, left-IsFan, right-IsFan, divided_covers, divided_only,
}
use mini_db.Access.Nbtree.Tree.Inners.{HasPut, HasHalves, IsFan-cong, fan-IsSub}
use mini_db.Access.Nbtree.Insert.Apart.{Adds-map, IsBeside}

module _ (ps : List (List ℕ)) (h pid : ℕ) (n : List ℕ) (l : ℕ) (u : Tid)
    (at : get_elem? ps pid ≡ some n) where
  pub Holds-FanHolds : Holds ps (suc h) pid l u → FanHolds ps h (key_count n) (child n) l u
  Holds-FanHolds (m, i, here, inside, held) =
      subst (λ z. FanHolds ps h (key_count z) (child z) l u) (same_page ps pid m n here at)
        (i, inside, held)

  pub FanHolds-Holds : FanHolds ps h (key_count n) (child n) l u → Holds ps (suc h) pid l u
  FanHolds-Holds (i, inside, held) = (n, i, at, inside, held)

FanHolds-cong :
    (ps : List (List ℕ)) (h c d : ℕ) (χ ξ : ℕ → ℕ) (l : ℕ) (u : Tid)
    → c ≡ d
    → ((j : ℕ) → j ≤ c → ξ j ≡ χ j)
    → FanHolds ps h c χ l u
    → FanHolds ps h d ξ l u
FanHolds-cong ps h c d χ ξ l u e children (i, inside, held) =
    (i, omega arith, subst (λ z. Holds ps h z l u) (sym (children i inside)) held)

-- `now` is the file behind the insertion into child c, and `qs` the file behind the change of the node.
module _ (ps now qs : List (List ℕ)) (h pid lo hi c k : ℕ) (t : Tid) (n : List ℕ)
    (at : get_elem? ps pid ≡ some n) (x : IsInnerPage pid n lo hi)
    (subs : (i : ℕ)
      → i ≤ key_count n
      → IsSub ps h (child n i) 1 (low lo (key n) i) (high hi (key_count n) (key n) i))
    (inside : c ≤ key_count n) (beside : IsBeside ps now qs h lo hi c n) where
  abbrev low_c : ℕ
  low_c = low lo (key n) c

  abbrev high_c : ℕ
  high_c = high hi (key_count n) (key n) c

  -- The child took the entry.
  module _ (sub : IsSub now h (child n c) 1 low_c high_c)
      (adds : Adds (Holds ps h (child n c)) (Holds now h (child n c)) k t)
      (at_now : get_elem? qs pid ≡ some n) where
    pub taken_sub : IsSub qs (suc h) pid 1 lo hi
    taken_sub = (
      n,
      at_now,
      x,
      λ j l. elim (dec_lt j c) [
        | yes less ↦ beside.others j l (λ e. omega arith)
        | no not_less ↦ elim (dec_lt c j) [
          | yes more ↦ beside.others j l (λ e. omega arith)
          | no equal ↦
              let e : c ≡ j = omega arith in
              subst
                (λ z. IsSub qs h (child n z) 1 (low lo (key n) z) (high hi (key_count n) (key n) z))
                e
                (IsSub-kept now qs h (child n c) low_c high_c
                  (beside.kept low_c high_c (omega arith) (omega arith)) sub)
        ]
      ],
    )

    pub taken_adds : Adds (Holds ps (suc h) pid) (Holds qs (suc h) pid) k t
    taken_adds =
        Adds-map (FanHolds ps h (key_count n) (child n)) (FanHolds qs h (key_count n) (child n))
          (Holds ps (suc h) pid) (Holds qs (suc h) pid) k t
          (λ l u. Holds-FanHolds ps h pid n l u at) (λ l u. FanHolds-Holds ps h pid n l u at)
          (λ l u. FanHolds-Holds qs h pid n l u at_now)
          (λ l u. Holds-FanHolds qs h pid n l u at_now)
          (kept-Adds ps qs h (key_count n) c k t (child n) inside beside.same (
            Adds-map (Holds ps h (child n c)) (Holds now h (child n c)) (Holds ps h (child n c))
              (Holds qs h (child n c)) k t (λ l u z. z) (λ l u z. z)
              (λ l u.
                Holds-kept now qs h (child n c) low_c high_c l u
                  (beside.kept low_c high_c (omega arith) (omega arith)) sub)
              (λ l u.
                Holds-kept_back now qs h (child n c) low_c high_c l u
                  (beside.kept low_c high_c (omega arith) (omega arith)) sub)
              adds))

  -- The child gave way to two, and the node took the separator.
  module _ (sep right : ℕ) (m : List ℕ) (put : HasPut n c sep right m)
      (low_sep : low_c < ordinal sep) (sep_high : ordinal sep < high_c)
      (left_sub : IsSub now h (child n c) 1 low_c (ordinal sep))
      (right_sub : IsSub now h right 1 (ordinal sep) high_c)
      (adds : Adds
        (Holds ps h (child n c))
        (λ l u. Holds now h (child n c) l u ⊎ Holds now h right l u)
        k
        t) where
    fan : IsFan ps h lo hi (key_count n) (key n) (child n)
    fan = record { run = x.run; subs = subs }

    left-Kept : Kept now qs low_c (ordinal sep)
    left-Kept = beside.kept low_c (ordinal sep) (omega arith) (omega arith)

    right-Kept : Kept now qs (ordinal sep) high_c
    right-Kept = beside.kept (ordinal sep) high_c (omega arith) (omega arith)

    grown : IsFan qs h lo hi (suc (key_count n)) (key m) (child m)
    grown =
        grown-IsFan ps qs h lo hi (key_count n) c sep right (key n) (child n) (key m) (child m) fan
          inside put.keys_put put.children_put beside.others low_sep sep_high
          (IsSub-kept now qs h (child n c) low_c (ordinal sep) left-Kept left_sub)
          (IsSub-kept now qs h right (ordinal sep) high_c right-Kept right_sub)

    forth :
        (l : ℕ) (u : Tid)
        → Holds now h (child n c) l u ⊎ Holds now h right l u
        → Holds qs h (child n c) l u ⊎ Holds qs h right l u
    forth l u (inl z) =
        inl (Holds-kept now qs h (child n c) low_c (ordinal sep) l u left-Kept left_sub z)
    forth l u (inr z) =
        inr (Holds-kept now qs h right (ordinal sep) high_c l u right-Kept right_sub z)

    back :
        (l : ℕ) (u : Tid)
        → Holds qs h (child n c) l u ⊎ Holds qs h right l u
        → Holds now h (child n c) l u ⊎ Holds now h right l u
    back l u (inl z) =
        inl (Holds-kept_back now qs h (child n c) low_c (ordinal sep) l u left-Kept left_sub z)
    back l u (inr z) =
        inr (Holds-kept_back now qs h right (ordinal sep) high_c l u right-Kept right_sub z)

    grown_adds :
        Adds
          (FanHolds ps h (key_count n) (child n))
          (FanHolds qs h (suc (key_count n)) (child m))
          k
          t
    grown_adds =
        grown-Adds ps qs h (key_count n) c k t (child n) inside beside.same right (child m)
          put.children_put
          (Adds-map (Holds ps h (child n c))
            (λ l u. Holds now h (child n c) l u ⊎ Holds now h right l u) (Holds ps h (child n c))
            (λ l u. Holds qs h (child n c) l u ⊎ Holds qs h right l u) k t (λ l u z. z) (λ l u z. z)
            forth back adds)

    -- The node has room left.
    pub roomy_sub :
        key_count m < internal_cap → get_elem? qs pid ≡ some m → IsSub qs (suc h) pid 1 lo hi
    roomy_sub room at_m =
        fan-IsSub qs h pid lo hi m at_m x.nonzero put.frame put.inner (omega (arith, put.count))
          room
          (IsFan-cong qs h lo hi (suc (key_count n)) (key_count m) (key m) (child m) (key m)
            (child m) (sym put.count) (λ j l. refl) (λ j l. refl) grown)

    pub roomy_adds :
        get_elem? qs pid ≡ some m → Adds (Holds ps (suc h) pid) (Holds qs (suc h) pid) k t
    roomy_adds at_m =
        Adds-map (FanHolds ps h (key_count n) (child n))
          (FanHolds qs h (suc (key_count n)) (child m)) (Holds ps (suc h) pid)
          (Holds qs (suc h) pid) k t (λ l u. Holds-FanHolds ps h pid n l u at)
          (λ l u. FanHolds-Holds ps h pid n l u at)
          (λ l u z. FanHolds-Holds qs h pid m l u at_m (
            FanHolds-cong qs h (suc (key_count n)) (key_count m) (child m) (child m) l u
              (sym put.count) (λ j b. refl) z))
          (λ l u z.
            FanHolds-cong qs h (key_count m) (suc (key_count n)) (child m) (child m) l u put.count
              (λ j b. refl) (Holds-FanHolds qs h pid m l u at_m z))
          grown_adds

    -- The node is divided in its turn, and its right half is page `new`.
    module _ (new up : ℕ) (a r : List ℕ) (halves : HasHalves m up a r)
        (full : key_count m ≡ internal_cap) (at_a : get_elem? qs pid ≡ some a)
        (at_r : get_elem? qs new ≡ some r) where
      mid : ℕ
      mid = key_count a

      counted : suc (key_count n) ≡ key_count a + 1 + key_count r
      counted = sym put.count ∙ halves.total

      up_ordinal : ordinal (key m (key_count a)) ≡ ordinal up
      up_ordinal = ap ordinal (sym halves.up_key)

      pub left_half : IsSub qs (suc h) pid 1 lo (ordinal up)
      left_half =
          fan-IsSub qs h pid lo (ordinal up) a at_a x.nonzero halves.frame halves.inner
            (omega (arith, halves.count, full)) (omega (arith, halves.count, full))
            (subst (λ z. IsFan qs h lo z (key_count a) (key a) (child a)) up_ordinal
              (IsFan-cong qs h lo (ordinal (key m (key_count a))) (key_count a) (key_count a)
                (key m) (child m) (key a) (child a) refl halves.left_keys halves.left_children
                (left-IsFan qs h lo hi (suc (key_count n)) (key_count a) (key m) (child m) grown
                  (omega (arith, counted)))))

      pub right_half : 0 < new → IsSub qs (suc h) new 1 (ordinal up) hi
      right_half nonzero =
          fan-IsSub qs h new (ordinal up) hi r at_r nonzero halves.frame_too halves.inner_too
            (omega (arith, halves.count, halves.total, full))
            (omega (arith, halves.count, halves.total, full))
            (subst (λ z. IsFan qs h z hi (key_count r) (key r) (child r)) up_ordinal
              (right-IsFan qs h lo hi (suc (key_count n)) (key_count a) (key m) (child m) grown
                (omega (arith, counted)) (key_count r) (key r) (child r) counted halves.right_keys
                halves.right_children))

      pub up_bounds : (lo < ordinal up) × (ordinal up < hi)
      up_bounds =
          let inner : key_count a < suc (key_count n) = omega (arith, counted) in
          (
            omega (arith, up_ordinal, grown.run.from (key_count a) inner),
            omega (arith, up_ordinal, grown.run.to (key_count a) inner),
          )

      pub up_fits : up < 2 ^ 64
      up_fits = subst (λ z. z < 2 ^ 64) (sym halves.up_key) (key-lt m put.frame (key_count a))

      apart :
          (l : ℕ) (u : Tid)
          → FanHolds qs h (suc (key_count n)) (child m) l u
          → Holds qs (suc h) pid l u ⊎ Holds qs (suc h) new l u
      apart l u z =
          elim (divided_covers qs h (suc (key_count n)) (key_count a) (key_count r) (child m)
            (child r) counted halves.right_children l u z) [
              | inl b ↦ inl (
                  FanHolds-Holds qs h pid a l u at_a (
                    FanHolds-cong qs h (key_count a) (key_count a) (child m) (child a) l u refl
                      halves.left_children b))
              | inr b ↦ inr (FanHolds-Holds qs h new r l u at_r b)
            ]

      together :
          (l : ℕ) (u : Tid)
          → Holds qs (suc h) pid l u ⊎ Holds qs (suc h) new l u
          → FanHolds qs h (suc (key_count n)) (child m) l u
      together l u (inl z) =
          divided_only qs h (suc (key_count n)) (key_count a) (key_count r) (child m) (child r)
            counted halves.right_children l u
            (inl (
              FanHolds-cong qs h (key_count a) (key_count a) (child a) (child m) l u refl
                (λ j b. sym (halves.left_children j b)) (Holds-FanHolds qs h pid a l u at_a z)))
      together l u (inr z) =
          divided_only qs h (suc (key_count n)) (key_count a) (key_count r) (child m) (child r)
            counted halves.right_children l u (inr (Holds-FanHolds qs h new r l u at_r z))

      pub divided_adds :
          Adds
            (Holds ps (suc h) pid)
            (λ l u. Holds qs (suc h) pid l u ⊎ Holds qs (suc h) new l u)
            k
            t
      divided_adds =
          Adds-map (FanHolds ps h (key_count n) (child n))
            (FanHolds qs h (suc (key_count n)) (child m)) (Holds ps (suc h) pid)
            (λ l u. Holds qs (suc h) pid l u ⊎ Holds qs (suc h) new l u) k t
            (λ l u. Holds-FanHolds ps h pid n l u at) (λ l u. FanHolds-Holds ps h pid n l u at)
            apart together grown_adds
