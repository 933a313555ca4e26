-- ===== src/Access/Nbtree/Tree/Inners.antt =====
-- An internal node that takes a separator, and an internal node that is split.
use native.Mathlib.Decide.{dec_lt}
use mini_db.Base.{
  ℕ, suc, ◌+◌, ◌-◌, ◌/◌, ◌^◌, ◌≤◌, ◌<◌, ◌≡◌, sym, ap, ◌∙◌, false, List, some, get_elem?, ◌==◌,
  arith,
}
use mini_db.Access.Nbtree.Node.{
  node_type, is_leaf, key_count, ordinal, insert_internal_at, split_internal, internal_cap,
}
use mini_db.Access.Nbtree.Node.Fields.{IsFrame, key, child}
use mini_db.Access.Nbtree.Node.Loops.{tabulate}
use mini_db.Access.Nbtree.Node.Cells.{IsPut, cells-IsPut, cells-IsHalved, around-IsHalved}
use mini_db.Access.Nbtree.Node.Internal.{keys, children, insert_internal_at_lem}
use mini_db.Access.Nbtree.Node.Divide.{split_internal_lem}
use mini_db.Access.Nbtree.Tree.Span.{low, high, IsSub}
use mini_db.Access.Nbtree.Tree.Fan.{IsFan, recast}

is_inner-node_type :
    (n m : List ℕ) → node_type m ≡ node_type n → is_leaf n ≡ false → is_leaf m ≡ false
unfolding is_leaf
is_inner-node_type n m e h = ap (λ z. z == 1) e ∙ h

pub is_inner_of_type : (m : List ℕ) → node_type m ≡ 0 → is_leaf m ≡ false
unfolding is_leaf
is_inner_of_type m e = ap (λ z. z == 1) e

-- A node with a separator and the child behind it put in.
pub record HasPut (n : List ℕ) (i sep right : ℕ) (m : List ℕ) : Type 0 where
  pub frame : IsFrame m
  pub inner : is_leaf m ≡ false
  pub count : key_count m ≡ suc (key_count n)
  pub keys_put : IsPut (key_count n) i sep (key n) (key m)
  pub children_put : IsPut (suc (key_count n)) (suc i) right (child n) (child m)

pub inner_put :
    (n : List ℕ) (i sep right : ℕ)
    → IsFrame n
    → is_leaf n ≡ false
    → key_count n < internal_cap
    → i ≤ key_count n
    → sep < 2 ^ 64
    → right < 2 ^ 32
    → (m : List ℕ) × (insert_internal_at i sep right n ≡ some m) × HasPut n i sep right m
inner_put n i sep right f inner room inside fits fits_too =
    let (m, run, frame, list, list_too, count, kind) =
      insert_internal_at_lem n i sep right f room inside fits fits_too in
    let counted : key_count m ≡ suc (key_count n) = omega (arith, count) in
    (
      m,
      run,
      record {
        frame = frame;
        inner = is_inner-node_type n m kind inner;
        count = counted;
        keys_put =
            cells-IsPut (key_count n) i sep (key n) (key m) inside
              (ap (λ z. tabulate z (key m)) (sym counted) ∙ list);
        children_put =
            cells-IsPut (suc (key_count n)) (suc i) right (child n) (child m) (omega arith)
              (ap (λ z. tabulate (suc z) (child m)) (sym counted) ∙ list_too);
      },
    )

-- Two nodes made of one; its key at the place `mid` goes up.
pub record HasHalves (n : List ℕ) (up : ℕ) (m r : List ℕ) : Type 0 where
  pub frame : IsFrame m
  pub frame_too : IsFrame r
  pub inner : is_leaf m ≡ false
  pub inner_too : is_leaf r ≡ false
  pub count : key_count m ≡ key_count n / 2
  pub total : key_count n ≡ key_count m + 1 + key_count r
  pub up_key : up ≡ key n (key_count m)
  pub left_keys : (j : ℕ) → j < key_count m → key m j ≡ key n j
  pub left_children : (j : ℕ) → j ≤ key_count m → child m j ≡ child n j
  pub right_keys : (j : ℕ) → j < key_count r → key r j ≡ key n (key_count m + 1 + j)
  pub right_children : (j : ℕ) → j ≤ key_count r → child r j ≡ child n (key_count m + 1 + j)

pub inner_halves :
    (n right : List ℕ)
    → IsFrame n
    → IsFrame right
    → is_leaf n ≡ false
    → node_type right ≡ 0
    → 0 < key_count n
    → key_count n ≤ internal_cap
    → (up : ℕ) × (m r : List ℕ) × (split_internal n right ≡ some (up, m, r)) × HasHalves n up m r
inner_halves n right f g inner kind some_key small =
    let (up, m, r, run, frame, frame_too, list, list_too, count, kind_m, kind_r) =
      split_internal_lem n right f g some_key small in
    let by_key =
      around-IsHalved (key_count n) (key_count m) (key_count r) (key n) (key m) (key r) up list in
    let by_child =
      cells-IsHalved (suc (key_count n)) (suc (key_count m)) (suc (key_count r)) (child n) (child m)
        (child r) list_too in
    (
      up,
      m,
      r,
      run,
      record {
        frame = frame;
        frame_too = frame_too;
        inner = is_inner-node_type n m kind_m inner;
        inner_too = is_inner_of_type r (kind_r ∙ kind);
        count = count;
        total = omega (arith, by_key.total);
        up_key =
            by_key.right 0 (omega arith)
            ∙ ap (key n) {x = key_count m + 0} {y = key_count m} (omega arith);
        left_keys = λ j l. by_key.left j l;
        left_children = λ j l. by_child.left j (omega arith);
        right_keys = λ j l.
            by_key.right (suc j) (omega arith)
            ∙ ap (key n) {x = key_count m + suc j} {y = key_count m + 1 + j} (omega arith);
        right_children = λ j l.
            by_child.right j (omega arith)
            ∙ ap (child n) {x = suc (key_count m) + j} {y = key_count m + 1 + j} (omega arith);
      },
    )

-- A family read through other cells.
pub IsFan-cong :
    (ps : List (List ℕ)) (h lo hi c d : ℕ) (κ χ μ ξ : ℕ → ℕ)
    → c ≡ d
    → ((j : ℕ) → j < c → μ j ≡ κ j)
    → ((j : ℕ) → j ≤ c → ξ j ≡ χ j)
    → IsFan ps h lo hi c κ χ
    → IsFan ps h lo hi d μ ξ
IsFan-cong ps h lo hi c d κ χ μ ξ e keys children fan = record {
  run = record {
    sorted = λ i j l u. omega (
      arith,
      ap ordinal (keys i (omega arith)),
      ap ordinal (keys j (omega arith)),
      fan.run.sorted i j l (omega arith),
    );
    from = λ j l. omega (arith, ap ordinal (keys j (omega arith)), fan.run.from j (omega arith));
    to = λ j l. omega (arith, ap ordinal (keys j (omega arith)), fan.run.to j (omega arith));
  };
  subs = λ j l.
      recast ps h (χ j) (ξ j) (low lo κ j) (low lo μ j) (high hi c κ j) (high hi d μ j)
        (sym (children j (omega arith))) (lower j l) (upper j l) (fan.subs j (omega arith));
}
  where
    lower : (j : ℕ) → j ≤ d → low lo κ j ≡ low lo μ j
    lower j l = elim (dec_lt 0 j) [
      | yes later ↦ ground (arith, keys (j - 1) (omega arith))
      | no first ↦ ground arith
    ]

    upper : (j : ℕ) → j ≤ d → high hi c κ j ≡ high hi d μ j
    upper j l = elim (dec_lt j d) [
      | yes less ↦ ground (arith, keys j (omega arith))
      | no last ↦ ground arith
    ]

-- A page with a family under it.
pub fan-IsSub :
    (ps : List (List ℕ)) (h pid lo hi : ℕ) (n : List ℕ)
    → get_elem? ps pid ≡ some n
    → 0 < pid
    → IsFrame n
    → is_leaf n ≡ false
    → 0 < key_count n
    → key_count n < internal_cap
    → IsFan ps h lo hi (key_count n) (key n) (child n)
    → IsSub ps (suc h) pid 1 lo hi
fan-IsSub ps h pid lo hi n at nonzero frame inner filled room fan = (
  n,
  at,
  record {
    nonzero = nonzero;
    frame = frame;
    inner = inner;
    filled = filled;
    room = room;
    run = fan.run;
  },
  fan.subs,
)
