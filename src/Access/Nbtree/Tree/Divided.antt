-- ===== src/Access/Nbtree/Tree/Divided.antt =====
-- What a family of subtrees holds when a subtree gives way to two, and when the family is divided at a key.
use mathlib.Core.Path.{subst}
use native.Mathlib.Decide.{dec_lt}
use mini_db.Base.{
  ℕ, suc, ◌+◌, ◌-◌, ◌≤◌, ◌<◌, ◌≡◌, ◌≢◌, refl, sym, ap, ◌∙◌, ◌⊎◌, inl, inr, List, arith,
}
use mini_db.Access.Heap.{Tid}
use mini_db.Access.Nbtree.Node.{ordinal}
use mini_db.Access.Nbtree.Node.Cells.{IsPut}
use mini_db.Access.Nbtree.Tree.Index.{Holds}
use mini_db.Access.Nbtree.Tree.Span.{low, high}
use mini_db.Access.Nbtree.Tree.Fan.{IsFan, FanHolds, Adds, recast}

-- Every other subtree holds what it held.
pub record SameOthers (ps qs : List (List ℕ)) (h c i : ℕ) (χ : ℕ → ℕ) : Type 0 where
  pub forth : (j l : ℕ) (u : Tid) → j ≤ c → j ≢ i → Holds ps h (χ j) l u → Holds qs h (χ j) l u
  pub back : (j l : ℕ) (u : Tid) → j ≤ c → j ≢ i → Holds qs h (χ j) l u → Holds ps h (χ j) l u

module _ (ps qs : List (List ℕ)) (h c i k : ℕ) (t : Tid) (χ : ℕ → ℕ) (inside : i ≤ c)
    (same : SameOthers ps qs h c i χ) where
  -- The subtree took the entry itself.
  pub kept-Adds :
      Adds (Holds ps h (χ i)) (Holds qs h (χ i)) k t
      → Adds (FanHolds ps h c χ) (FanHolds qs h c χ) k t
  kept-Adds a = record {
    covers = λ l u (j, b, held). elim (dec_lt j i) [
      | yes less ↦ (j, b, same.forth j l u b (λ e. omega arith) held)
      | no not_less ↦ elim (dec_lt i j) [
        | yes more ↦ (j, b, same.forth j l u b (λ e. omega arith) held)
        | no equal ↦
            let e : j ≡ i = omega arith in
            (i, inside, a.covers l u (subst (λ z. Holds ps h (χ z) l u) e held))
      ]
    ];
    added = (i, inside, a.added);
    only = λ l u (j, b, held). elim (dec_lt j i) [
      | yes less ↦ inl (j, b, same.back j l u b (λ e. omega arith) held)
      | no not_less ↦ elim (dec_lt i j) [
        | yes more ↦ inl (j, b, same.back j l u b (λ e. omega arith) held)
        | no equal ↦
            let e : j ≡ i = omega arith in
            elim (a.only l u (subst (λ z. Holds qs h (χ z) l u) e held)) [
              | inl old ↦ inl (i, inside, old)
              | inr new ↦ inr new
            ]
      ]
    ];
  }

  -- The subtree gave way to two.
  module _ (right : ℕ) (χ' : ℕ → ℕ) (children : IsPut (suc c) (suc i) right χ χ') where
    left_of : (j l : ℕ) (u : Tid) → j ≤ i → Holds qs h (χ j) l u → FanHolds qs h (suc c) χ' l u
    left_of j l u b held =
        (j, omega arith, subst (λ z. Holds qs h z l u) (sym (children.below j (omega arith))) held)

    right_of :
        (j l : ℕ) (u : Tid) → i < j → j ≤ c → Holds qs h (χ j) l u → FanHolds qs h (suc c) χ' l u
    right_of j l u a b held = (
      suc j,
      omega arith,
      subst (λ z. Holds qs h z l u) (sym (children.above j (omega arith) (omega arith))) held,
    )

    grown_covers :
        ((l : ℕ) (u : Tid) → Holds ps h (χ i) l u → Holds qs h (χ i) l u ⊎ Holds qs h right l u)
        → (l : ℕ) (u : Tid) → FanHolds ps h c χ l u
        → FanHolds qs h (suc c) χ' l u
    grown_covers a l u (j, b, held) = elim (dec_lt j i) [
      | yes less ↦ left_of j l u (omega arith) (same.forth j l u b (λ e. omega arith) held)
      | no not_less ↦ elim (dec_lt i j) [
        | yes more ↦ right_of j l u more b (same.forth j l u b (λ e. omega arith) held)
        | no equal ↦
            let e : j ≡ i = omega arith in
            grown_child l u (a l u (subst (λ z. Holds ps h (χ z) l u) e held))
      ]
    ]
      where
        grown_child :
            (l : ℕ) (u : Tid)
            → Holds qs h (χ i) l u ⊎ Holds qs h right l u
            → FanHolds qs h (suc c) χ' l u
        grown_child l u (inl held) = left_of i l u (omega arith) held
        grown_child l u (inr held) =
            (suc i, omega arith, subst (λ z. Holds qs h z l u) (sym children.here) held)

    grown_only :
        ((l : ℕ) (u : Tid)
          → Holds qs h (χ i) l u ⊎ Holds qs h right l u
          → Holds ps h (χ i) l u ⊎ ((l ≡ k) × (u ≡ t)))
        → (l : ℕ) (u : Tid) → FanHolds qs h (suc c) χ' l u
        → FanHolds ps h c χ l u ⊎ ((l ≡ k) × (u ≡ t))
    grown_only a l u (j, b, held) = elim (dec_lt j i) [
      | yes less ↦ inl (
        j,
        omega arith,
        same.back j l u (omega arith) (λ e. omega arith)
            (subst (λ z. Holds qs h z l u) (children.below j (omega arith)) held),
      )
      | no not_less ↦ elim (dec_lt i j) [
        | no equal ↦
            let e : j ≡ i = omega arith in
            from_child l u (
              a l u (
                inl
                  (subst (λ z. Holds qs h z l u) (ap χ' e ∙ children.below i (omega arith)) held)))
        | yes more ↦ elim (dec_lt (suc i) j) [
          | no next ↦
              let e : j ≡ suc i = omega arith in
              from_child l u
                (a l u (inr (subst (λ z. Holds qs h z l u) (ap χ' e ∙ children.here) held)))
          | yes past ↦ inl (
            j - 1,
            omega arith,
            same.back (j - 1) l u (omega arith) (λ e. omega arith)
                (subst (λ z. Holds qs h z l u)
                  (ap χ' {x = j} {y = suc (j - 1)} (omega arith)
                    ∙ children.above (j - 1) (omega arith) (omega arith))
                  held),
          )
        ]
      ]
    ]
      where
        from_child :
            (l : ℕ) (u : Tid)
            → Holds ps h (χ i) l u ⊎ ((l ≡ k) × (u ≡ t))
            → FanHolds ps h c χ l u ⊎ ((l ≡ k) × (u ≡ t))
        from_child l u (inl held) = inl (i, inside, held)
        from_child l u (inr new) = inr new

    pub grown-Adds :
        Adds (Holds ps h (χ i)) (λ l u. Holds qs h (χ i) l u ⊎ Holds qs h right l u) k t
        → Adds (FanHolds ps h c χ) (FanHolds qs h (suc c) χ') k t
    grown-Adds a = record {
      covers = grown_covers a.covers;
      added = elim a.added [
        | inl held ↦ left_of i k t (omega arith) held
        | inr held ↦ (suc i, omega arith, subst (λ z. Holds qs h z k t) (sym children.here) held)
      ];
      only = grown_only a.only;
    }

-- A family divided at its key `mid`, which goes to neither half.
module _ (ps : List (List ℕ)) (h lo hi c mid : ℕ) (κ χ : ℕ → ℕ) (fan : IsFan ps h lo hi c κ χ)
    (inside : mid < c) where
  pub left-IsFan : IsFan ps h lo (ordinal (κ mid)) mid κ χ
  left-IsFan = record {
    run = record {
      sorted = λ j m l u. fan.run.sorted j m l (omega arith);
      from = λ j l. fan.run.from j (omega arith);
      to = λ j l. fan.run.sorted j mid l inside;
    };
    subs = λ j l.
        recast ps h (χ j) (χ j) (low lo κ j) (low lo κ j) (high hi c κ j)
          (high (ordinal (κ mid)) mid κ j) refl refl (upper j l) (fan.subs j (omega arith));
  }
    where
      upper : (j : ℕ) → j ≤ mid → high hi c κ j ≡ high (ordinal (κ mid)) mid κ j
      upper j l = elim (dec_lt j mid) [
        | yes less ↦ ground arith
        | no same ↦ let e : j ≡ mid = omega arith in ground (arith, e)
      ]

  pub right-IsFan :
      (d : ℕ) (μ ξ : ℕ → ℕ)
      → c ≡ mid + 1 + d
      → ((j : ℕ) → j < d → μ j ≡ κ (mid + 1 + j))
      → ((j : ℕ) → j ≤ d → ξ j ≡ χ (mid + 1 + j))
      → IsFan ps h (ordinal (κ mid)) hi d μ ξ
  right-IsFan d μ ξ e keys children = record {
    run = record {
      sorted = λ j m l u. omega (
        arith,
        ap ordinal (keys j (omega arith)),
        ap ordinal (keys m u),
        fan.run.sorted (mid + 1 + j) (mid + 1 + m) (omega arith) (omega arith),
      );
      from = λ j l. omega (
        arith,
        ap ordinal (keys j l),
        fan.run.sorted mid (mid + 1 + j) (omega arith) (omega arith),
      );
      to = λ j l. omega (arith, ap ordinal (keys j l), fan.run.to (mid + 1 + j) (omega arith));
    };
    subs = λ j l.
        recast ps h (χ (mid + 1 + j)) (ξ j) (low lo κ (mid + 1 + j)) (low (ordinal (κ mid)) μ j)
          (high hi c κ (mid + 1 + j)) (high hi d μ j) (sym (children j l)) (lower j l) (upper j l)
          (fan.subs (mid + 1 + j) (omega arith));
  }
    where
      lower : (j : ℕ) → j ≤ d → low lo κ (mid + 1 + j) ≡ low (ordinal (κ mid)) μ j
      lower j l = elim (dec_lt 0 j) [
        | yes later ↦ ground (
          arith,
          keys (j - 1) (omega arith),
          ap κ {x = mid + 1 + j - 1} {y = mid + 1 + (j - 1)} (omega arith),
        )
        | no first ↦ ground (arith, ap κ {x = mid + 1 + j - 1} {y = mid} (omega arith))
      ]

      upper : (j : ℕ) → j ≤ d → high hi c κ (mid + 1 + j) ≡ high hi d μ j
      upper j l = elim (dec_lt j d) [
        | yes less ↦ ground (arith, keys j less)
        | no last ↦ ground arith
      ]

-- The halves hold what the family held.
module _ (ps : List (List ℕ)) (h c mid d : ℕ) (χ ξ : ℕ → ℕ) (e : c ≡ mid + 1 + d)
    (children : (j : ℕ) → j ≤ d → ξ j ≡ χ (mid + 1 + j)) (l : ℕ) (u : Tid) where
  pub divided_covers : FanHolds ps h c χ l u → FanHolds ps h mid χ l u ⊎ FanHolds ps h d ξ l u
  divided_covers (j, b, held) = elim (dec_lt mid j) [
    | no left ↦ inl (j, omega arith, held)
    | yes right ↦ inr (
      j - (mid + 1),
      omega arith,
      subst (λ z. Holds ps h z l u)
          (ap χ {x = j} {y = mid + 1 + (j - (mid + 1))} (omega arith)
            ∙ sym (children (j - (mid + 1)) (omega arith)))
          held,
    )
  ]

  pub divided_only : FanHolds ps h mid χ l u ⊎ FanHolds ps h d ξ l u → FanHolds ps h c χ l u
  divided_only (inl (j, b, held)) = (j, omega arith, held)
  divided_only (inr (j, b, held)) =
      (mid + 1 + j, omega arith, subst (λ z. Holds ps h z l u) (children j b) held)
