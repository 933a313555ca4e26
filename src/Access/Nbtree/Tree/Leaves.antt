-- ===== src/Access/Nbtree/Tree/Leaves.antt =====
-- A leaf of a span that takes an entry, and a leaf whose right sibling is written.
use mathlib.Core.Path.{subst}
use native.Mathlib.Decide.{dec_lt}
use mini_db.Base.{
  ℕ, suc, ◌+◌, ◌-◌, ◌^◌, ◌≤◌, ◌<◌, ◌≡◌, ◌≢◌, sym, ap, ap₂, ◌∙◌, inl, inr, true, List, some,
  get_elem?, ◌*◌, ◌==◌, arith,
}
use mini_db.Base.Endian.{get_uint-put_uint_apart}
use mini_db.Access.Heap.{Tid}
use mini_db.Access.Nbtree.Node.{
  node_type, is_leaf, key_count, set_next_leaf, ordinal, insert_leaf_at, leaf_cap,
}
use mini_db.Access.Nbtree.Node.Fields.{IsFrame, IsTid, key, tid, key-lt, put_uint-IsFrame}
use mini_db.Access.Nbtree.Node.Loops.{tabulate}
use mini_db.Access.Nbtree.Node.Search.{IsLowerBound, ordinal_injective}
use mini_db.Access.Nbtree.Node.Cells.{IsPut, cells-IsPut}
use mini_db.Access.Nbtree.Node.Leaf.{entry, insert_leaf_at_lem}
use mini_db.Access.Nbtree.Tree.Index.{Holds}
use mini_db.Access.Nbtree.Tree.Span.{IsRun, same_page}
use mini_db.Access.Nbtree.Tree.Fan.{Adds, put-IsRun}

pub key-entry : (n m : List ℕ) (i j : ℕ) → entry m i ≡ entry n j → key m i ≡ key n j
key-entry n m i j e = ap (λ x. x.0) e

pub tid-entry : (n m : List ℕ) (i j : ℕ) → entry m i ≡ entry n j → tid m i ≡ tid n j
tid-entry n m i j e = ap (λ x. x.1) e

-- The entry (l, u) is in the leaf.
abbrev pub LeafHolds : List ℕ → ℕ → Tid → Type 0
LeafHolds n l u = (j : ℕ) × (j < key_count n) × (key n j ≡ l) × (tid n j ≡ u)

pub LeafHolds-Holds :
    (ps : List (List ℕ)) (pid : ℕ) (n : List ℕ) (l : ℕ) (u : Tid)
    → get_elem? ps pid ≡ some n
    → LeafHolds n l u
    → Holds ps 0 pid l u
LeafHolds-Holds ps pid n l u at (j, h, e, f) = (n, j, at, h, e, f)

pub Holds-LeafHolds :
    (ps : List (List ℕ)) (pid : ℕ) (n : List ℕ) (l : ℕ) (u : Tid)
    → get_elem? ps pid ≡ some n
    → Holds ps 0 pid l u
    → LeafHolds n l u
Holds-LeafHolds ps pid n l u at (m, j, here, h, e, f) =
    subst (λ z. LeafHolds z l u) (same_page ps pid m n here at) (j, h, e, f)

-- A leaf that holds keys of a span, with or without room for another.
pub record IsLeafOf (n : List ℕ) (lo hi : ℕ) : Type 0 where
  pub frame : IsFrame n
  pub leaf : is_leaf n ≡ true
  pub run : IsRun lo hi (key_count n) (key n)

pub is_leaf-node_type :
    (n m : List ℕ) → node_type m ≡ node_type n → is_leaf n ≡ true → is_leaf m ≡ true
unfolding is_leaf
is_leaf-node_type n m e h = ap (λ z. z == 1) e ∙ h

pub is_leaf_of_type : (m : List ℕ) → node_type m ≡ 1 → is_leaf m ≡ true
unfolding is_leaf
is_leaf_of_type m e = ap (λ z. z == 1) e

put-IsLeafRun :
    (n m : List ℕ) (lo hi p k : ℕ) (t : Tid)
    → IsFrame n
    → IsRun lo hi (key_count n) (key n)
    → IsPut (key_count n) p (k, t) (entry n) (entry m)
    → IsLowerBound n k p
    → k < 2 ^ 64
    → ((j : ℕ) → j < key_count n → key n j ≢ k)
    → lo ≤ ordinal k
    → ordinal k < hi
    → IsRun lo hi (suc (key_count n)) (key m)
put-IsLeafRun n m lo hi p k t f r put b fits absent from to =
    put-IsRun lo hi (key_count n) p k (key n) (key m) r
      (record {
        below = λ j l. ap (λ x. x.0) (put.below j l);
        here = ap (λ x. x.0) put.here;
        above = λ j l u. ap (λ x. x.0) (put.above j l u);
      })
      b.inside from to b.below
      (λ j l u. elim (dec_lt (ordinal k) (ordinal (key n j))) [
        | yes more ↦ more
        | no equal ↦ absurd (
            absent j u
              (ordinal_injective (key n j) k (key-lt n f j) fits (omega (arith, b.above j l u))))
      ])

put-Adds :
    (n m : List ℕ) (p k : ℕ) (t : Tid)
    → p ≤ key_count n
    → key_count m ≡ key_count n + 1
    → IsPut (key_count n) p (k, t) (entry n) (entry m)
    → Adds (LeafHolds n) (LeafHolds m) k t
put-Adds n m p k t inside count put = record {
  covers = λ l u (j, h, e, f). elim (dec_lt j p) [
    | yes less ↦ (
      j,
      omega (arith, count),
      key-entry n m j j (put.below j less) ∙ e,
      tid-entry n m j j (put.below j less) ∙ f,
    )
    | no not_less ↦
        let moved = put.above j (omega arith) h in
        (
          suc j,
          omega (arith, count),
          key-entry n m (suc j) j moved ∙ e,
          tid-entry n m (suc j) j moved ∙ f,
        )
  ];
  added = (p, omega (arith, count), ap (λ x. x.0) put.here, ap (λ x. x.1) put.here);
  only = λ l u (j, h, e, f). elim (dec_lt j p) [
    | yes less ↦ inl (
      j,
      omega arith,
      sym (key-entry n m j j (put.below j less)) ∙ e,
      sym (tid-entry n m j j (put.below j less)) ∙ f,
    )
    | no not_less ↦ elim (dec_lt p j) [
      | yes more ↦
          let moved =
            ap (entry m) {x = j} {y = suc (j - 1)} (omega arith)
            ∙ put.above (j - 1) (omega arith) (omega (arith, count)) in
          inl (
            j - 1,
            omega (arith, count),
            sym (key-entry n m j (j - 1) moved) ∙ e,
            sym (tid-entry n m j (j - 1) moved) ∙ f,
          )
      | no same ↦
          let at = ap (entry m) {x = j} {y = p} (omega arith) ∙ put.here in
          inr (sym e ∙ ap (λ x. x.0) at, sym f ∙ ap (λ x. x.1) at)
    ]
  ];
}

-- insertLeafAt of an absent key, at its lower bound.
pub leaf_put :
    (n : List ℕ) (lo hi p k : ℕ) (t : Tid)
    → IsLeafOf n lo hi
    → key_count n < leaf_cap
    → IsTid t
    → k < 2 ^ 64
    → IsLowerBound n k p
    → ((j : ℕ) → j < key_count n → key n j ≢ k)
    → lo ≤ ordinal k
    → ordinal k < hi
    → (m : List ℕ) × (insert_leaf_at p k t n ≡ some m)
      × IsLeafOf m lo hi
      × (key_count m ≡ key_count n + 1)
      × Adds (LeafHolds n) (LeafHolds m) k t
leaf_put n lo hi p k t x room is_tid fits b absent from to =
    let (m, run, frame, list, count, kind, next) =
      insert_leaf_at_lem n p k t x.frame room b.inside fits is_tid in
    let put =
      cells-IsPut (key_count n) p (k, t) (entry n) (entry m) b.inside
        (ap (λ z. tabulate z (entry m)) {x = suc (key_count n)} {y = key_count m}
            (omega (arith, count))
          ∙ list) in
    (
      m,
      run,
      record {
        frame = frame;
        leaf = is_leaf-node_type n m kind x.leaf;
        run =
            subst (λ c. IsRun lo hi c (key m)) {x = suc (key_count n)} {y = key_count m}
              (omega (arith, count))
              (put-IsLeafRun n m lo hi p k t x.frame x.run put b fits absent from to);
      },
      count,
      put-Adds n m p k t b.inside count put,
    )

-- A node with its right sibling written.
pub record IsLinked (n m : List ℕ) : Type 0 where
  pub frame : IsFrame m
  pub same_leaf : is_leaf m ≡ is_leaf n
  pub count : key_count m ≡ key_count n
  pub keys : (j : ℕ) → key m j ≡ key n j
  pub tids : (j : ℕ) → tid m j ≡ tid n j

pub set_next_leaf_lem : (n : List ℕ) (pid : ℕ) → IsFrame n → IsLinked n (set_next_leaf pid n)
unfolding set_next_leaf node_type key_count is_leaf
set_next_leaf_lem n pid f = record {
  frame = put_uint-IsFrame n f 4 4 pid;
  same_leaf = ap (λ z. z == 1) (get_uint-put_uint_apart 0 1 4 4 pid n (inl (omega arith)));
  count = get_uint-put_uint_apart 2 2 4 4 pid n (inl (omega arith));
  keys = λ j. get_uint-put_uint_apart (8 + j * 8) 8 4 4 pid n (inr (omega arith));
  tids = λ j.
      ap₂ (λ p s. record { page = p; slot = s })
        (get_uint-put_uint_apart (4680 + j * 6) 4 4 4 pid n (inr (omega arith)))
        (get_uint-put_uint_apart (4680 + j * 6 + 4) 2 4 4 pid n (inr (omega arith)));
}

module _ (n m : List ℕ) (same : IsLinked n m) where
  pub linked-IsLeafOf : (lo hi : ℕ) → IsLeafOf n lo hi → IsLeafOf m lo hi
  linked-IsLeafOf lo hi x = record {
    frame = same.frame;
    leaf = same.same_leaf ∙ x.leaf;
    run = record {
      sorted = λ i j l u. omega (
        arith,
        ap ordinal (same.keys i),
        ap ordinal (same.keys j),
        x.run.sorted i j l (omega (arith, same.count)),
      );
      from =
          λ j l. omega (arith, ap ordinal (same.keys j), x.run.from j (omega (arith, same.count)));
      to = λ j l. omega (arith, ap ordinal (same.keys j), x.run.to j (omega (arith, same.count)));
    };
  }

  pub linked_forth : (l : ℕ) (u : Tid) → LeafHolds n l u → LeafHolds m l u
  linked_forth l u (j, h, e, f) = (j, omega (arith, same.count), same.keys j ∙ e, same.tids j ∙ f)

  pub linked_back : (l : ℕ) (u : Tid) → LeafHolds m l u → LeafHolds n l u
  linked_back l u (j, h, e, f) =
      (j, omega (arith, same.count), sym (same.keys j) ∙ e, sym (same.tids j) ∙ f)
