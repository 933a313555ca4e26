-- ===== src/Access/Nbtree/Tree/Fan.antt =====
-- The children of an internal node as a family: c keys κ and c + 1 subtrees at the pages χ.
use mathlib.Core.Path.{subst}
use native.Mathlib.Decide.{dec_lt}
use mini_db.Base.{ℕ, suc, ◌-◌, ◌≤◌, ◌<◌, ◌≡◌, ◌≢◌, sym, ap, ◌∙◌, ◌⊎◌, List, arith}
use mini_db.Access.Heap.{Tid}
use mini_db.Access.Nbtree.Node.{ordinal}
use mini_db.Access.Nbtree.Node.Cells.{IsPut}
use mini_db.Access.Nbtree.Tree.Index.{Holds}
use mini_db.Access.Nbtree.Tree.Span.{IsRun, low, high, IsSub}

pub record IsFan (ps : List (List ℕ)) (h lo hi c : ℕ) (κ χ : ℕ → ℕ) : Type 0 where
  pub run : IsRun (suc lo) hi c κ
  pub subs : (i : ℕ) → i ≤ c → IsSub ps h (χ i) 1 (low lo κ i) (high hi c κ i)

abbrev pub FanHolds : List (List ℕ) → ℕ → ℕ → (ℕ → ℕ) → ℕ → Tid → Type 0
FanHolds ps h c χ l u = (i : ℕ) × (i ≤ c) × Holds ps h (χ i) l u

-- `after` has what `before` has, and the entry (k, t), and no other.
pub record Adds (before after : ℕ → Tid → Type 0) (k : ℕ) (t : Tid) : Type 0 where
  pub covers : (l : ℕ) (u : Tid) → before l u → after l u
  pub added : after k t
  pub only : (l : ℕ) (u : Tid) → after l u → before l u ⊎ ((l ≡ k) × (u ≡ t))

pub recast :
    (ps : List (List ℕ)) (h pid qid a b x y : ℕ)
    → pid ≡ qid
    → a ≡ b
    → x ≡ y
    → IsSub ps h pid 1 a x
    → IsSub ps h qid 1 b y
recast ps h pid qid a b x y e f g s =
    subst (λ z. IsSub ps h z 1 b y) e
      (subst (λ z. IsSub ps h pid 1 z y) f (subst (λ z. IsSub ps h pid 1 a z) g s))

-- A key put between its neighbours.
pub put-IsRun :
    (lo hi c i x : ℕ) (κ κ' : ℕ → ℕ)
    → IsRun lo hi c κ
    → IsPut c i x κ κ'
    → i ≤ c
    → lo ≤ ordinal x
    → ordinal x < hi
    → ((j : ℕ) → j < i → ordinal (κ j) < ordinal x)
    → ((j : ℕ) → i ≤ j → j < c → ordinal x < ordinal (κ j))
    → IsRun lo hi (suc c) κ'
put-IsRun lo hi c i x κ κ' r p b from to below above = record {
  sorted = sorted;
  from = λ j l. elim (dec_lt j i) [
    | yes less ↦ subst (λ z. lo ≤ ordinal z) (sym (p.below j less)) (r.from j (omega arith))
    | no not_less ↦ elim (dec_lt i j) [
      | yes more ↦
          subst (λ z. lo ≤ ordinal z) (sym (moved j more (omega arith)))
            (r.from (j - 1) (omega arith))
      | no same ↦ subst (λ z. lo ≤ ordinal z) (sym (at j (omega arith))) from
    ]
  ];
  to = λ j l. elim (dec_lt j i) [
    | yes less ↦ subst (λ z. ordinal z < hi) (sym (p.below j less)) (r.to j (omega arith))
    | no not_less ↦ elim (dec_lt i j) [
      | yes more ↦
          subst (λ z. ordinal z < hi) (sym (moved j more (omega arith)))
            (r.to (j - 1) (omega arith))
      | no same ↦ subst (λ z. ordinal z < hi) (sym (at j (omega arith))) to
    ]
  ];
}
  where
    moved : (j : ℕ) → i < j → j < suc c → κ' j ≡ κ (j - 1)
    moved j l u =
        ap κ' {x = j} {y = suc (j - 1)} (omega arith) ∙ p.above (j - 1) (omega arith) (omega arith)

    at : (j : ℕ) → i ≡ j → κ' j ≡ x
    at j e = ap κ' (sym e) ∙ p.here

    sorted : (j m : ℕ) → j < m → m < suc c → ordinal (κ' j) < ordinal (κ' m)
    sorted j m l u = elim (dec_lt m i) [
      | yes both ↦ omega (
        arith,
        ap ordinal (p.below j (omega arith)),
        ap ordinal (p.below m both),
        r.sorted j m l (omega arith),
      )
      | no not_both ↦ elim (dec_lt i m) [
        | no at_m ↦ omega (
          arith,
          ap ordinal (p.below j (omega arith)),
          ap ordinal (at m (omega arith)),
          below j (omega arith),
        )
        | yes over ↦ elim (dec_lt j i) [
          | yes under ↦ omega (
            arith,
            ap ordinal (p.below j under),
            ap ordinal (moved m over u),
            below j under,
            above (m - 1) (omega arith) (omega arith),
          )
          | no not_under ↦ elim (dec_lt i j) [
            | yes past ↦ omega (
              arith,
              ap ordinal (moved j past (omega arith)),
              ap ordinal (moved m over u),
              r.sorted (j - 1) (m - 1) (omega arith) (omega arith),
            )
            | no at_j ↦ omega (
              arith,
              ap ordinal (at j (omega arith)),
              ap ordinal (moved m over u),
              above (m - 1) (omega arith) (omega arith),
            )
          ]
        ]
      ]
    ]

-- The subtree at place i of a family gives way to two, left and right of a separator.
module _ (ps qs : List (List ℕ)) (h lo hi c i sep right : ℕ) (κ χ κ' χ' : ℕ → ℕ)
    (fan : IsFan ps h lo hi c κ χ) (inside : i ≤ c) (keys : IsPut c i sep κ κ')
    (children : IsPut (suc c) (suc i) right χ χ')
    (others : (j : ℕ) → j ≤ c → j ≢ i → IsSub qs h (χ j) 1 (low lo κ j) (high hi c κ j)) where
  module _ (from : low lo κ i < ordinal sep) (to : ordinal sep < high hi c κ i)
      (left_sub : IsSub qs h (χ i) 1 (low lo κ i) (ordinal sep))
      (right_sub : IsSub qs h right 1 (ordinal sep) (high hi c κ i)) where
    pub grown-IsFan : IsFan qs h lo hi (suc c) κ' χ'
    grown-IsFan = record {
      run =
          put-IsRun (suc lo) hi c i sep κ κ' fan.run keys inside (over_low i inside from)
            (under_high i inside to) below above;
      subs = λ j l. elim (dec_lt j i) [
        | yes less ↦
            recast qs h (χ j) (χ' j) (low lo κ j) (low lo κ' j) (high hi c κ j)
              (high hi (suc c) κ' j) (sym (children.below j (omega arith)))
              (ground (arith, keys.below (j - 1))) (ground (arith, keys.below j less))
              (others j (omega arith) (λ e. omega arith))
        | no not_less ↦ elim (dec_lt i j) [
          | no same ↦
              let e : i ≡ j = omega arith in
              recast qs h (χ i) (χ' j) (low lo κ i) (low lo κ' j) (ordinal sep)
                (high hi (suc c) κ' j) (sym (ap χ' (sym e) ∙ children.below i (omega arith)))
                (ground (arith, e, keys.below (i - 1))) (ground (arith, ap κ' (sym e) ∙ keys.here))
                left_sub
          | yes more ↦ elim (dec_lt (suc i) j) [
            | no next ↦
                let e : suc i ≡ j = omega arith in
                recast qs h right (χ' j) (ordinal sep) (low lo κ' j) (high hi c κ i)
                  (high hi (suc c) κ' j) (sym (ap χ' (sym e) ∙ children.here))
                  (ground (arith, ap κ' {x = j - 1} {y = i} (omega arith) ∙ keys.here))
                  (ground (arith, moved_key i, ap κ' e)) right_sub
            | yes past ↦
                recast qs h (χ (j - 1)) (χ' j) (low lo κ (j - 1)) (low lo κ' j)
                  (high hi c κ (j - 1)) (high hi (suc c) κ' j)
                  (sym (
                    ap χ' {x = j} {y = suc (j - 1)} (omega arith)
                    ∙ children.above (j - 1) (omega arith) (omega arith)))
                  (ground (
                    arith,
                    keys.above (j - 2) (omega arith) (omega arith),
                    ap κ' {x = suc (j - 2)} {y = j - 1} (omega arith),
                    ap κ {x = j - 2} {y = j - 1 - 1} (omega arith),
                  ))
                  (ground (arith, moved_key (j - 1), ap κ' {x = suc (j - 1)} {y = j} (omega arith)))
                  (others (j - 1) (omega arith) (λ e. omega arith))
          ]
        ]
      ];
    }
      where
        moved_key : (j : ℕ) → i ≤ j → j < c → κ' (suc j) ≡ κ j
        moved_key j l u = keys.above j l u

        over_low : (j : ℕ) → j ≤ c → low lo κ j < ordinal sep → suc lo ≤ ordinal sep
        over_low j l u = ground (arith, fan.run.from (j - 1))

        under_high : (j : ℕ) → j ≤ c → ordinal sep < high hi c κ j → ordinal sep < hi
        under_high j l u = ground (arith, fan.run.to j)

        below : (j : ℕ) → j < i → ordinal (κ j) < ordinal sep
        below j l = elim (dec_lt j (i - 1)) [
          | yes less ↦ ground (arith, from, fan.run.sorted j (i - 1) less)
          | no same ↦ let e : j ≡ i - 1 = omega arith in ground (arith, from, e)
        ]

        above : (j : ℕ) → i ≤ j → j < c → ordinal sep < ordinal (κ j)
        above j l u = elim (dec_lt i j) [
          | yes less ↦ ground (arith, to, fan.run.sorted i j less u)
          | no same ↦ let e : i ≡ j = omega arith in ground (arith, to, e)
        ]
