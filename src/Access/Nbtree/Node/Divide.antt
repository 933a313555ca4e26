-- ===== src/Access/Nbtree/Node/Divide.antt =====
-- splitInternal divides the keys and the children of a node, and pushes the key between them up.
use mini_db.Base.{
  ℕ, zero, suc, ◌+◌, ◌-◌, ◌/◌, ◌≤◌, ◌<◌, ◌≡◌, refl, sym, ap, ap₂, ◌∙◌, List, ◌∷◌, ◌++◌, some, take,
  drop, arith, take-append-drop,
}
use mini_db.Base.Words.{sub16}
use mini_db.Access.Nbtree.Node.{
  node_type, key_count, set_key_count, count_up, copy_key, copy_child, split_internal, internal_cap,
}
use mini_db.Access.Nbtree.Node.Fields.{
  IsFrame, key, child, key_at_lem, child_at_lem, key-lt, child-lt, set_key_count_lem,
}
use mini_db.Access.Nbtree.Node.Loops.{
  tabulate, tabulate-cong, take-tabulate, drop-tabulate, count_up_lem,
}
use mini_db.Access.Nbtree.Node.Internal.{
  keys, children, SameChildren, SameKeys, children_kept, children_join, keys_kept, keys_join,
  KeyWrote, ChildWrote, put_key, put_child,
}

module _ (n : List ℕ) (f : IsFrame n) (base i : ℕ) (r : List ℕ) (g : IsFrame r) where
  copy_key_lem :
      base + i < 1023
      → i < internal_cap
      → (to : ℕ) → to ≡ i
      → (m : List ℕ) × (copy_key n (base + i) to r ≡ some m) × KeyWrote r i (key n (base + i)) m
  unfolding copy_key
  copy_key_lem h b to e =
      let (m, run, w) = put_key r i (key n (base + i)) g b (key-lt n f (base + i)) in
      (m, ap (λ z. copy_key n (base + i) z r) e ∙ rw (key_at_lem n f (base + i) h) run, w)

  copy_child_lem :
      base + i < 684
      → (to : ℕ) → to ≡ i
      → (m : List ℕ) × (copy_child n (base + i) to r ≡ some m)
        × ChildWrote r i (child n (base + i)) m
  unfolding copy_child
  copy_child_lem h to e =
      let (m, run, w) =
        put_child r i (child n (base + i)) g (omega arith) (child-lt n f (base + i)) in
      (m, ap (λ z. copy_child n (base + i) z r) e ∙ rw (child_at_lem n f (base + i) h) run, w)

-- The tabulated list around slot i.
tabulate-at :
    {A : Type 0} (k i : ℕ) (f : ℕ → A)
    → i < k
    → tabulate k f ≡ take i (tabulate k f) ++ f i ∷ drop (suc i) (tabulate k f)
unfolding tabulate
tabulate-at zero i f h = absurd (omega arith)
tabulate-at (suc k) zero f h = refl
tabulate-at (suc k) (suc i) f h = ap (◌∷◌ (f 0)) (tabulate-at k i (λ j. f (suc j)) (omega arith))

module _ (n : List ℕ) (f : IsFrame n) (small : key_count n ≤ internal_cap) where
  abbrev mid : ℕ
  mid = key_count n / 2

  abbrev base : ℕ
  base = mid + 1

  -- The half that stays.
  left-keys : keys (set_key_count mid n) ≡ take mid (keys n)
  left-keys =
      let left = set_key_count_lem n mid f (omega arith) in
      ap (λ z. tabulate z (key (set_key_count mid n))) left.count
      ∙ (tabulate-cong mid (key (set_key_count mid n)) (key n) (λ j l. left.keys j)
          ∙ sym (take-tabulate (key_count n) mid (key n) (omega arith)))

  left-children : children (set_key_count mid n) ≡ take (suc mid) (children n)
  left-children =
      let left = set_key_count_lem n mid f (omega arith) in
      ap (λ z. tabulate (suc z) (child (set_key_count mid n))) left.count
      ∙ (tabulate-cong (suc mid) (child (set_key_count mid n)) (child n) (λ j l. left.children j)
          ∙ sym (take-tabulate (suc (key_count n)) (suc mid) (child n) (omega arith)))

  -- The right node after both loops.
  record IsCopied (right r : List ℕ) : Type 0 where
    frame : IsFrame r
    same_type : node_type r ≡ node_type right
    copied_keys : (j : ℕ) → j < key_count n - base → key r j ≡ key n (base + j)
    copied_children : (j : ℕ) → j < key_count n - mid → child r j ≡ child n (base + j)

  copied :
      (right : List ℕ)
      → IsFrame right
      → (r₁ r₂ : List ℕ) × (count_up
            (key_count n - base)
            base
            (λ j. copy_key n j (j - mid - 1))
            right
          ≡ some r₁)
        × (count_up (key_count n - mid) base (λ j. copy_child n j (j - mid - 1)) r₁ ≡ some r₂)
        × IsCopied right r₂
  copied right g =
      let (r₁, run₁, s₁) =
        count_up_lem key internal_cap SameChildren children_kept children_join
          (λ j. copy_key n j (j - mid - 1)) (λ i. key n (base + i)) base (key_count n - base)
          (omega arith)
          (λ i x e l.
            copy_key_lem n f base i x e (omega arith) (omega arith) (base + i - mid - 1)
              (omega arith))
          (key_count n - base) 0 right g (omega arith) in
      let (r₂, run₂, s₂) =
        count_up_lem child 684 SameKeys keys_kept keys_join (λ j. copy_child n j (j - mid - 1))
          (λ i. child n (base + i)) base (key_count n - mid) (omega arith)
          (λ i x e l.
            copy_child_lem n f base i x e (omega arith) (base + i - mid - 1) (omega arith))
          (key_count n - mid) 0 r₁ s₁.frame (omega arith) in
      let start : base ≡ base + 0 = omega arith in
      (
        r₁,
        r₂,
        ap (λ z. count_up (key_count n - base) z (λ j. copy_key n j (j - mid - 1)) right) start
            ∙ run₁,
        ap (λ z. count_up (key_count n - mid) z (λ j. copy_child n j (j - mid - 1)) r₁) start
            ∙ run₂,
        record {
          frame = s₂.frame;
          same_type = s₂.kept.header.same_type ∙ s₁.kept.header.same_type;
          copied_keys =
              λ j l. s₂.kept.same j (omega arith) ∙ s₁.written j (omega arith) (omega arith);
          copied_children = λ j l. s₂.written j (omega arith) (omega arith);
        },
      )

  module _ (right r : List ℕ) (c : IsCopied right r) (some_key : 0 < key_count n) where
    abbrev half : List ℕ
    half = set_key_count (sub16 (key_count n - mid) 1) r

    half-count : key_count half ≡ key_count n - base
    half-count =
        omega
          (arith, (set_key_count_lem r (sub16 (key_count n - mid) 1) c.frame (omega arith)).count)

    half-keys : keys half ≡ drop (suc mid) (keys n)
    half-keys =
        let counted = set_key_count_lem r (sub16 (key_count n - mid) 1) c.frame (omega arith) in
        ap (λ z. tabulate z (key half)) half-count
        ∙ sym (
            drop-tabulate (key_count n) (suc mid) (key_count n - base) (key n) (key half)
              (omega arith)
              (λ j l.
                counted.keys j
                ∙ (c.copied_keys j l ∙ ap (key n) {x = base + j} {y = suc mid + j} (omega arith))))

    half-children : children half ≡ drop (suc mid) (children n)
    half-children =
        let counted = set_key_count_lem r (sub16 (key_count n - mid) 1) c.frame (omega arith) in
        ap (λ z. tabulate z (child half)) {x = suc (key_count half)} {y = key_count n - mid}
          (omega (arith, half-count))
        ∙ sym (
            drop-tabulate (suc (key_count n)) (suc mid) (key_count n - mid) (child n) (child half)
              (omega arith)
              (λ j l.
                counted.children j
                ∙ (c.copied_children j l
                    ∙ ap (child n) {x = base + j} {y = suc mid + j} (omega arith))))

-- splitInternal of an internal node within its capacity, with at least one key, returns a key such that the
-- node's keys were those left in it, that key, and those of the right node; the children are divided
-- behind the key's left child; neither node changes its kind.
pub split_internal_lem :
    (n right : List ℕ)
    → IsFrame n
    → IsFrame right
    → 0 < key_count n
    → key_count n ≤ internal_cap
    → (up : ℕ) × (m r : List ℕ) × (split_internal n right ≡ some (up, m, r))
      × IsFrame m
      × IsFrame r
      × (keys n ≡ keys m ++ up ∷ keys r)
      × (children n ≡ children m ++ children r)
      × (key_count m ≡ key_count n / 2)
      × (node_type m ≡ node_type n)
      × (node_type r ≡ node_type right)
unfolding split_internal
split_internal_lem n right f g some_key small =
    let cut = key_count n / 2 in
    let (r₁, r₂, run_keys, run_children, c) = copied n f small right g in
    let left = set_key_count_lem n cut f (omega arith) in
    let counted = set_key_count_lem r₂ (sub16 (key_count n - cut) 1) c.frame (omega arith) in
    (
      key n cut,
      set_key_count cut n,
      set_key_count (sub16 (key_count n - cut) 1) r₂,
      rw (key_at_lem n f cut (omega arith), run_keys, run_children) refl,
      left.frame,
      counted.frame,
      tabulate-at (key_count n) cut (key n) (omega arith)
          ∙ ap₂ (λ x y. x ++ key n cut ∷ y) (sym (left-keys n f small))
              (sym (half-keys n f small right r₂ c some_key)),
      sym (take-append-drop (suc cut) (children n))
          ∙ ap₂ (λ x y. x ++ y) (sym (left-children n f small))
              (sym (half-children n f small right r₂ c some_key)),
      left.count,
      left.same_type,
      counted.same_type ∙ c.same_type,
    )
