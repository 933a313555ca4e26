-- ===== src/Access/Nbtree/Tree/Span.antt =====
-- A subtree whose keys lie in a span: every node has room for one more key, every node below the top has a key,
-- and every child lies between the separators beside it. No page can stand at two places of such a tree.
use mathlib.Core.Path.{subst}
use mathlib.Core.Option.{some-injective}
use native.Mathlib.Decide.{dec_lt}
use mini_db.Base.{
  ℕ, zero, suc, ◌-◌, ◌≤◌, ◌<◌, ◌≡◌, sym, ◌∙◌, true, false, List, some, get_elem?, ltb, ◌==◌,
  if◌then◌else◌, arith,
}
use mini_db.Access.Heap.{Tid}
use mini_db.Access.Nbtree.Node.{is_leaf, key_count, ordinal, leaf_cap, internal_cap}
use mini_db.Access.Nbtree.Node.Fields.{IsFrame, key, child}
use mini_db.Access.Nbtree.Tree.Index.{Holds}

-- The keys κ 0 to κ (c - 1) increase and lie from lo up to below hi.
pub record IsRun (lo hi c : ℕ) (κ : ℕ → ℕ) : Type 0 where
  pub sorted : (i j : ℕ) → i < j → j < c → ordinal (κ i) < ordinal (κ j)
  pub from : (j : ℕ) → j < c → lo ≤ ordinal (κ j)
  pub to : (j : ℕ) → j < c → ordinal (κ j) < hi

-- The span of child i.
abbrev pub low : ℕ → (ℕ → ℕ) → ℕ → ℕ
low lo κ i = if i == 0 then lo else ordinal (κ (i - 1))

abbrev pub high : ℕ → ℕ → (ℕ → ℕ) → ℕ → ℕ
high hi c κ i = if ltb i c then ordinal (κ i) else hi

pub record IsLeafPage (pid : ℕ) (n : List ℕ) (least lo hi : ℕ) : Type 0 where
  pub nonzero : 0 < pid
  pub frame : IsFrame n
  pub leaf : is_leaf n ≡ true
  pub filled : least ≤ key_count n
  pub room : key_count n < leaf_cap
  pub run : IsRun lo hi (key_count n) (key n)

pub record IsInnerPage (pid : ℕ) (n : List ℕ) (lo hi : ℕ) : Type 0 where
  pub nonzero : 0 < pid
  pub frame : IsFrame n
  pub inner : is_leaf n ≡ false
  pub filled : 0 < key_count n
  pub room : key_count n < internal_cap
  pub run : IsRun (suc lo) hi (key_count n) (key n)

abbrev pub IsSub : List (List ℕ) → ℕ → ℕ → ℕ → ℕ → ℕ → Type 0
IsSub ps zero pid least lo hi =
    (n : List ℕ) × (get_elem? ps pid ≡ some n) × IsLeafPage pid n least lo hi
IsSub ps (suc h) pid least lo hi =
    (n : List ℕ) × (get_elem? ps pid ≡ some n)
    × IsInnerPage pid n lo hi
    × ((i : ℕ)
        → i ≤ key_count n
        → IsSub ps h (child n i) 1 (low lo (key n) i) (high hi (key_count n) (key n) i))

pub same_page :
    (ps : List (List ℕ)) (pid : ℕ) (n m : List ℕ)
    → get_elem? ps pid ≡ some n
    → get_elem? ps pid ≡ some m
    → n ≡ m
same_page ps pid n m a b = some-injective n m (sym a ∙ b)

-- The first key of the node lies in the span, and a separator above its lower end.
pub record Within (lo hi : ℕ) (n : List ℕ) : Type 0 where
  pub from : lo ≤ ordinal (key n 0)
  pub to : ordinal (key n 0) < hi
  pub above : is_leaf n ≡ false → lo < ordinal (key n 0)

-- Pages of a span, behind the meta page, that two files agree on.
abbrev pub Kept : List (List ℕ) → List (List ℕ) → ℕ → ℕ → Type 0
Kept ps qs lo hi =
    (q : ℕ) (n : List ℕ)
    → 0 < q
    → get_elem? ps q ≡ some n
    → Within lo hi n
    → get_elem? qs q ≡ some n

module _ (lo hi c : ℕ) (κ : ℕ → ℕ) (r : IsRun (suc lo) hi c κ) where
  pub low-ge : (i : ℕ) → i ≤ c → lo ≤ low lo κ i
  low-ge i h = ground (arith, r.from (i - 1))

  pub high-le : (i : ℕ) → i ≤ c → high hi c κ i ≤ hi
  high-le i h = ground (arith, r.to i)

  -- A child's span ends before a later child's begins.
  pub high-le-low : (i j : ℕ) → i < j → j ≤ c → high hi c κ i ≤ low lo κ j
  high-le-low i j h b = elim (dec_lt i (j - 1)) [
    | yes less ↦ ground (arith, r.sorted i (j - 1) less)
    | no not_less ↦ let e : i ≡ j - 1 = omega arith in ground (arith, e)
  ]

pub Within-widen : (lo hi a b : ℕ) (n : List ℕ) → lo ≤ a → b ≤ hi → Within a b n → Within lo hi n
Within-widen lo hi a b n h l w = record {
  from = omega (arith, w.from);
  to = omega (arith, w.to);
  above = λ e. omega (arith, w.above e);
}

pub leaf-Within : (pid : ℕ) (n : List ℕ) (lo hi : ℕ) → IsLeafPage pid n 1 lo hi → Within lo hi n
leaf-Within pid n lo hi p = record {
  from = p.run.from 0 (omega (arith, p.filled));
  to = p.run.to 0 (omega (arith, p.filled));
  above = λ e. cc (p.leaf);
}

pub inner-Within : (pid : ℕ) (n : List ℕ) (lo hi : ℕ) → IsInnerPage pid n lo hi → Within lo hi n
inner-Within pid n lo hi p = record {
  from = omega (arith, p.run.from 0 p.filled);
  to = p.run.to 0 p.filled;
  above = λ e. omega (arith, p.run.from 0 p.filled);
}

pub IsSub-Within :
    (ps : List (List ℕ)) (h pid lo hi : ℕ)
    → IsSub ps h pid 1 lo hi
    → (n : List ℕ) × (get_elem? ps pid ≡ some n) × Within lo hi n
IsSub-Within ps zero pid lo hi (n, at, p) = (n, at, leaf-Within pid n lo hi p)
IsSub-Within ps (suc h) pid lo hi (n, at, p, subs) = (n, at, inner-Within pid n lo hi p)

module _ (ps qs : List (List ℕ)) where
  Kept-child :
      (lo hi c : ℕ) (κ : ℕ → ℕ) (i : ℕ)
      → IsRun (suc lo) hi c κ
      → i ≤ c
      → Kept ps qs lo hi
      → Kept ps qs (low lo κ i) (high hi c κ i)
  Kept-child lo hi c κ i r h kept = λ q n z at w. kept q n z at (
      Within-widen lo hi (low lo κ i) (high hi c κ i) n (low-ge lo hi c κ r i h)
        (high-le lo hi c κ r i h) w)

  -- A subtree stays where the pages of its span stay.
  pub IsSub-kept :
      (h pid lo hi : ℕ) → Kept ps qs lo hi → IsSub ps h pid 1 lo hi → IsSub qs h pid 1 lo hi
  IsSub-kept zero pid lo hi kept (n, at, p) =
      (n, kept pid n p.nonzero at (leaf-Within pid n lo hi p), p)
  IsSub-kept (suc h) pid lo hi kept (n, at, p, subs) = (
    n,
    kept pid n p.nonzero at (inner-Within pid n lo hi p),
    p,
    λ i l.
        IsSub-kept h (child n i) (low lo (key n) i) (high hi (key_count n) (key n) i)
          (Kept-child lo hi (key_count n) (key n) i p.run l kept) (subs i l),
  )

  pub Holds-kept :
      (h pid lo hi k : ℕ) (t : Tid)
      → Kept ps qs lo hi
      → IsSub ps h pid 1 lo hi
      → Holds ps h pid k t
      → Holds qs h pid k t
  Holds-kept zero pid lo hi k t kept (n, at, p) (m, j, here, inside, is_key, is_tid) =
      let e = same_page ps pid n m at here in
      (
        m,
        j,
        subst (λ z. get_elem? qs pid ≡ some z) e
            (kept pid n p.nonzero at (leaf-Within pid n lo hi p)),
        inside,
        is_key,
        is_tid,
      )
  Holds-kept (suc h) pid lo hi k t kept (n, at, p, subs) (m, i, here, inside, held) =
      let e = same_page ps pid m n here at in
      let l : i ≤ key_count n = subst (λ z. i ≤ key_count z) e inside in
      (
        n,
        i,
        kept pid n p.nonzero at (inner-Within pid n lo hi p),
        l,
        Holds-kept h (child n i) (low lo (key n) i) (high hi (key_count n) (key n) i) k t
            (Kept-child lo hi (key_count n) (key n) i p.run l kept) (subs i l)
            (subst (λ z. Holds ps h (child z i) k t) e held),
      )

  pub Holds-kept_back :
      (h pid lo hi k : ℕ) (t : Tid)
      → Kept ps qs lo hi
      → IsSub ps h pid 1 lo hi
      → Holds qs h pid k t
      → Holds ps h pid k t
  Holds-kept_back zero pid lo hi k t kept (n, at, p) (m, j, here, inside, is_key, is_tid) =
      let e = same_page qs pid n m (kept pid n p.nonzero at (leaf-Within pid n lo hi p)) here in
      (m, j, subst (λ z. get_elem? ps pid ≡ some z) e at, inside, is_key, is_tid)
  Holds-kept_back (suc h) pid lo hi k t kept (n, at, p, subs) (m, i, here, inside, held) =
      let e = same_page qs pid m n here (kept pid n p.nonzero at (inner-Within pid n lo hi p)) in
      let l : i ≤ key_count n = subst (λ z. i ≤ key_count z) e inside in
      (
        n,
        i,
        at,
        l,
        Holds-kept_back h (child n i) (low lo (key n) i) (high hi (key_count n) (key n) i) k t
            (Kept-child lo hi (key_count n) (key n) i p.run l kept) (subs i l)
            (subst (λ z. Holds qs h (child z i) k t) e held),
      )
