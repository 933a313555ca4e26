-- ===== src/Access/Nbtree/Insert/Apart.antt =====
-- What an insertion below an internal node leaves of the node and of its other children.
use mathlib.Core.Path.{subst}
use native.Mathlib.Decide.{dec_lt}
use mini_db.Base.{
  some-length, ℕ, suc, ◌-◌, ◌≤◌, ◌<◌, ◌≡◌, ◌≢◌, sym, ap, ◌∙◌, inl, inr, List, length, some,
  get_elem?, arith,
}
use mini_db.Access.Heap.{Tid}
use mini_db.Access.Pager.{Pager, PagerLaws}
use mini_db.Access.Nbtree.Node.{key_count, ordinal}
use mini_db.Access.Nbtree.Node.Fields.{key, child}
use mini_db.Access.Nbtree.Tree.Index.{IsUnder}
use mini_db.Access.Nbtree.Tree.Span.{
  IsRun, low, high, high-le-low, low-ge, high-le, IsInnerPage, IsSub, Within, Within-widen,
  IsSub-Within, Kept, IsSub-kept, Holds-kept, Holds-kept_back, same_page,
}
use mini_db.Access.Nbtree.Tree.Fan.{Adds}
use mini_db.Access.Nbtree.Tree.Divided.{SameOthers}
use mini_db.Access.Places.{set-same}
use mini_db.Access.Nbtree.Insert.Solo.{IsSolo}
use mini_db.Access.Nbtree.Insert.Outcomes.{Spared, Moves}
use mini_db.Access.Nbtree.Insert.Steps.{Spared-ne, solo-IsQuiet}

-- A node is no page of its children's spans.
pub parent_out :
    (pid lo hi j : ℕ) (n : List ℕ)
    → IsInnerPage pid n lo hi
    → j ≤ key_count n
    → ¬ Within (low lo (key n) j) (high hi (key_count n) (key n) j) n
parent_out pid lo hi j n x h w = elim (dec_lt 0 j) [
  | no first ↦ ground (arith, w.to, x.filled, ap (key n) {x = j} {y = 0} (omega arith))
  | yes later ↦ elim (dec_lt 1 j) [
    | no second ↦ ground (arith, w.above x.inner, ap (key n) {x = j - 1} {y = 0} (omega arith))
    | yes past ↦ ground (arith, w.above x.inner, x.run.sorted 0 (j - 1) (omega arith) (omega arith))
  ]
]

-- A page is in the span of one child only.
pub spans_apart :
    (lo hi c i j : ℕ) (κ : ℕ → ℕ) (m : List ℕ)
    → IsRun (suc lo) hi c κ
    → i ≤ c
    → j ≤ c
    → i ≢ j
    → Within (low lo κ i) (high hi c κ i) m
    → ¬ Within (low lo κ j) (high hi c κ j) m
spans_apart lo hi c i j κ m r hi_i hi_j ne w v = elim (dec_lt i j) [
  | yes less ↦ omega (arith, high-le-low lo hi c κ r i j less hi_j, w.to, v.from)
  | no not_less ↦ elim (dec_lt j i) [
    | yes more ↦ omega (arith, high-le-low lo hi c κ r j i more hi_i, v.to, w.from)
    | no same ↦ ne (omega arith)
  ]
]

-- A key under a child lies in its span.
pub IsUnder-span :
    (n : List ℕ) (c k lo hi : ℕ)
    → c ≤ key_count n
    → IsUnder n c k
    → lo ≤ ordinal k
    → ordinal k < hi
    → (low lo (key n) c ≤ ordinal k) × (ordinal k < high hi (key_count n) (key n) c)
IsUnder-span n c k lo hi inside under from to =
    (ground (arith, under.0 (c - 1)), ground (arith, under.1 c (omega arith)))

pub Adds-map :
    (before after before' after' : ℕ → Tid → Type 0) (k : ℕ) (t : Tid)
    → ((l : ℕ) (u : Tid) → before' l u → before l u)
    → ((l : ℕ) (u : Tid) → before l u → before' l u)
    → ((l : ℕ) (u : Tid) → after l u → after' l u)
    → ((l : ℕ) (u : Tid) → after' l u → after l u)
    → Adds before after k t
    → Adds before' after' k t
Adds-map before after before' after' k t f g f' g' a = record {
  covers = λ l u h. f' l u (a.covers l u (f l u h));
  added = f' k t a.added;
  only = λ l u h. elim (a.only l u (g' l u h)) [ inl old ↦ inl (g l u old) | inr new ↦ inr new ];
}

-- `qs` is the file behind the insertion into child c of the node n, `now`, but for the node's own page.
pub record IsBeside (ps now qs : List (List ℕ)) (h lo hi c : ℕ) (n : List ℕ) : Type 0 where
  pub kept :
      (a b : ℕ) → low lo (key n) c ≤ a → b ≤ high hi (key_count n) (key n) c → Kept now qs a b
  pub others :
      (j : ℕ)
      → j ≤ key_count n
      → j ≢ c
      → IsSub qs h (child n j) 1 (low lo (key n) j) (high hi (key_count n) (key n) j)
  pub same : SameOthers ps qs h (key_count n) c (child n)

module _ {S P E : Type 0} {pager : Pager S P E} (laws : PagerLaws pager) (s₀ s₁ u : S)
    (pid c h lo hi : ℕ) (p : P) (n : List ℕ)
    (solo : IsSolo laws s₀ (length (laws.pages s₀)) s₁ (laws.pages s₀) p pid n)
    (at : get_elem? (laws.pages s₀) pid ≡ some n) (x : IsInnerPage pid n lo hi)
    (subs : (i : ℕ)
      → i ≤ key_count n
      → IsSub (laws.pages s₀) h (child n i) 1 (low lo (key n) i) (high hi (key_count n) (key n) i))
    (inside : c ≤ key_count n)
    (moved : Moves laws (low lo (key n) c) (high hi (key_count n) (key n) c) (child n c) s₁ u) where
  abbrev ps : List (List ℕ)
  ps = laws.pages s₀

  abbrev low_at : ℕ → ℕ
  low_at j = low lo (key n) j

  abbrev high_at : ℕ → ℕ
  high_at j = high hi (key_count n) (key n) j

  same : laws.pages s₁ ≡ ps
  same = (solo-IsQuiet laws s₀ (length ps) s₁ ps p pid n solo at).1

  in_s₁ : (q : ℕ) (m : List ℕ) → get_elem? ps q ≡ some m → get_elem? (laws.pages s₁) q ≡ some m
  in_s₁ q m e = ap (λ z. get_elem? z q) same ∙ e

  -- The node's page is no page of the child.
  parent-Spared : Spared (low_at c) (high_at c) (child n c) pid n
  parent-Spared =
      let (m, here, w) = IsSub-Within ps h (child n c) (low_at c) (high_at c) (subs c inside) in
      inr (
        λ e. parent_out pid lo hi c n x inside (
            subst (λ z. Within (low_at c) (high_at c) z)
              (same_page ps pid m n (subst (λ z. get_elem? ps z ≡ some m) (sym e) here) at) w),
        parent_out pid lo hi c n x inside,
      )

  child-Spared :
      (q : ℕ) (m : List ℕ)
      → get_elem? ps q ≡ some m
      → Spared lo hi pid q m
      → Spared (low_at c) (high_at c) (child n c) q m
  child-Spared q m here (inl z) = inl z
  child-Spared q m here (inr (ne, out)) =
      let widen = λ (w : Within (low_at c) (high_at c) m).
        Within-widen lo hi (low_at c) (high_at c) m
          (low-ge lo hi (key_count n) (key n) x.run c inside)
          (high-le lo hi (key_count n) (key n) x.run c inside) w in
      let (m', there, w) = IsSub-Within ps h (child n c) (low_at c) (high_at c) (subs c inside) in
      inr (
        λ e. out (
            widen (
              subst (λ z. Within (low_at c) (high_at c) z)
                (same_page ps q m' m (subst (λ z. get_elem? ps z ≡ some m') (sym e) there) here)
                w)),
        λ w. out (widen w),
      )

  -- The whole way from the arrival at the node to the return of the child.
  pub descends : Moves laws lo hi pid s₀ u
  descends = record {
    quiet = moved.quiet;
    longer = omega (arith, ap length same, moved.longer);
    spares = λ q m here out. moved.spares q m (in_s₁ q m here) (child-Spared q m here out);
    keeps = λ y q m held here out.
        moved.keeps y q m
          (solo.keeps y q held (some-length ps q m here) (Spared-ne lo hi pid q m x.nonzero out))
          (in_s₁ q m here) (child-Spared q m here out);
  }

  pub still-IsHeld : laws.Held p pid u
  still-IsHeld = moved.keeps p pid n solo.held (in_s₁ pid n at) parent-Spared

  pub still_there : get_elem? (laws.pages u) pid ≡ some n
  still_there = moved.spares pid n (in_s₁ pid n at) parent-Spared

  pub still-IsSolo : IsSolo laws u (length (laws.pages u)) u (laws.pages u) p pid n
  still-IsSolo = record {
    valid = moved.quiet.valid;
    held = still-IsHeld;
    inside = some-length (laws.pages u) pid n still_there;
    old = some-length (laws.pages u) pid n still_there;
    within = omega arith;
    pages = sym (set-same (laws.pages u) pid n still_there);
    declared = sym moved.quiet.settled;
    keeps = λ y q held l e. held;
  }

  -- The other children's pages stay.
  sibling-Kept : (j : ℕ) → j ≤ key_count n → j ≢ c → Kept ps (laws.pages u) (low_at j) (high_at j)
  sibling-Kept j l ne = λ q m z here w.
      let out = spans_apart lo hi (key_count n) j c (key n) m x.run l inside ne w in
      let (m', there, v) = IsSub-Within ps h (child n c) (low_at c) (high_at c) (subs c inside) in
      moved.spares q m (in_s₁ q m here) (
        inr (
          λ e. out (
              subst (λ z. Within (low_at c) (high_at c) z)
                (same_page ps q m' m (subst (λ z. get_elem? ps z ≡ some m') (sym e) there) here) v),
          out,
        ))

  -- A file that differs from it on the node's page only.
  module _ (qs : List (List ℕ))
      (agrees : (q : ℕ) (m : List ℕ)
        → get_elem? (laws.pages u) q ≡ some m
        → q ≢ pid
        → get_elem? qs q ≡ some m) where
    span-Kept :
        (j a b : ℕ) → j ≤ key_count n → low_at j ≤ a → b ≤ high_at j → Kept (laws.pages u) qs a b
    span-Kept j a b l f g = λ q m z here w. agrees q m here λ e. parent_out pid lo hi j n x l (
        Within-widen (low_at j) (high_at j) a b n f g (
          subst (λ z. Within a b z)
            (same_page (laws.pages u) pid m n
              (subst (λ z. get_elem? (laws.pages u) z ≡ some m) e here) still_there)
            w))

    sibling :
        (j : ℕ)
        → j ≤ key_count n
        → j ≢ c
        → IsSub (laws.pages u) h (child n j) 1 (low_at j) (high_at j)
    sibling j l ne =
        IsSub-kept ps (laws.pages u) h (child n j) (low_at j) (high_at j) (sibling-Kept j l ne)
          (subs j l)

    others_kept :
        (j : ℕ) → j ≤ key_count n → j ≢ c → IsSub qs h (child n j) 1 (low_at j) (high_at j)
    others_kept j l ne =
        IsSub-kept (laws.pages u) qs h (child n j) (low_at j) (high_at j)
          (span-Kept j (low_at j) (high_at j) l (omega arith) (omega arith)) (sibling j l ne)

    others-SameOthers : SameOthers ps qs h (key_count n) c (child n)
    others-SameOthers = record {
      forth = λ j l v b ne held.
          Holds-kept (laws.pages u) qs h (child n j) (low_at j) (high_at j) l v
            (span-Kept j (low_at j) (high_at j) b (omega arith) (omega arith)) (sibling j b ne)
            (Holds-kept ps (laws.pages u) h (child n j) (low_at j) (high_at j) l v
              (sibling-Kept j b ne) (subs j b) held);
      back = λ j l v b ne held.
          Holds-kept_back ps (laws.pages u) h (child n j) (low_at j) (high_at j) l v
            (sibling-Kept j b ne) (subs j b)
            (Holds-kept_back (laws.pages u) qs h (child n j) (low_at j) (high_at j) l v
              (span-Kept j (low_at j) (high_at j) b (omega arith) (omega arith)) (sibling j b ne)
              held);
    }

    pub beside : IsBeside ps (laws.pages u) qs h lo hi c n
    beside = record {
      kept = λ a b. span-Kept c a b inside;
      others = others_kept;
      same = others-SameOthers;
    }
