-- ===== src/Access/Nbtree/Node/Leaf.antt =====
-- A leaf as the list of its entries: what insertLeafAt and splitLeaf make of it.
use mini_db.Base.{
  ℕ, suc, ◌+◌, ◌-◌, ◌/◌, ◌^◌, ◌≤◌, ◌<◌, ◌≡◌, sym, ap, ap₂, ◌∙◌, List, ◌∷◌, ◌++◌, some, take, drop,
  arith,
}
use mini_db.Base.Words.{u16}
use mini_db.Access.Heap.{Tid}
use mini_db.Access.Nbtree.Node.{
  node_type, key_count, next_leaf, set_key_count, set_key_at, set_tid_at, shift_key, shift_entry,
  count_up, insert_leaf_at, copy_key, copy_entry, split_leaf, leaf_cap, ◌>>=◌,
}
use mini_db.Access.Nbtree.Node.Fields.{
  IsFrame, key, tid, SameHeader, SameHeader-refl, SameHeader-trans, IsTid, key_at_lem, tid_at_lem,
  key-lt, tid-IsTid, set_key_at_lem, set_tid_at_lem, set_key_count_lem,
}
use mini_db.Access.Nbtree.Node.Loops.{
  tabulate, tabulate-cong, tabulate-insert, take-tabulate, drop-tabulate, Wrote, count_down_lem,
  count_up_lem,
}

abbrev pub entry : List ℕ → ℕ → ℕ × Tid
entry n i = (key n i, tid n i)

-- The abstract leaf: its entries in slot order.
abbrev pub entries : List ℕ → List (ℕ × Tid)
entries n = tabulate (key_count n) (entry n)

trans : (n m l : List ℕ) → SameHeader n m → SameHeader m l → SameHeader n l
trans n m l h k = SameHeader-trans h k

abbrev EntryWrote : List ℕ → ℕ → ℕ × Tid → List ℕ → Type 0
EntryWrote = Wrote entry leaf_cap SameHeader SameHeader-refl trans

-- Both halves of an entry written.
put_entry :
    (n : List ℕ) (i k : ℕ) (t : Tid)
    → IsFrame n
    → i < leaf_cap
    → k < 2 ^ 64
    → IsTid t
    → (m₁ m₂ : List ℕ) × (set_key_at i k n ≡ some m₁)
      × (set_tid_at i t m₁ ≡ some m₂)
      × ((j : ℕ) → tid m₁ j ≡ tid n j)
      × IsFrame m₁
      × EntryWrote n i (k, t) m₂
put_entry n i k t f h b c =
    let (m₁, run₁, w₁) = set_key_at_lem n f i k (omega arith) b in
    let (m₂, run₂, w₂) = set_tid_at_lem m₁ w₁.frame i t (omega arith) c in
    (
      m₁,
      m₂,
      run₁,
      run₂,
      w₁.tids h,
      w₁.frame,
      record {
        frame = w₂.frame;
        kept = SameHeader-trans w₁.header w₂.header;
        here = ap₂ (λ x y. (x, y)) (w₂.keys i h ∙ w₁.here) w₂.here;
        others = λ j e l.
            ap₂ (λ x y. (x, y)) (w₂.keys j l ∙ w₁.others j e) (w₂.others j e ∙ w₁.tids h j);
      },
    )

shift_entry_lem :
    (j : ℕ) (n : List ℕ)
    → IsFrame n
    → 0 < j
    → j < leaf_cap
    → (m : List ℕ) × (shift_entry j n ≡ some m) × EntryWrote n j (entry n (j - 1)) m
unfolding shift_entry shift_key
shift_entry_lem j n f h b =
    let (m₁, m₂, run₁, run₂, tids, f₁, w) =
      put_entry n j (key n (j - 1)) (tid n (j - 1)) f b (key-lt n f (j - 1))
        (tid-IsTid n f (j - 1)) in
    (
      m₂,
      ground (
        arith,
        key_at_lem n f (j - 1) (omega arith),
        run₁,
        tid_at_lem m₁ f₁ (j - 1) (omega arith),
        tids (j - 1),
        run₂,
      ),
      w,
    )

-- On a leaf with room for it, insertLeafAt puts the entry at place i of the list of entries, and leaves the
-- node's kind and its right sibling alone.
pub insert_leaf_at_lem :
    (n : List ℕ) (i k : ℕ) (t : Tid)
    → IsFrame n
    → key_count n < leaf_cap
    → i ≤ key_count n
    → k < 2 ^ 64
    → IsTid t
    → (m : List ℕ) × (insert_leaf_at i k t n ≡ some m)
      × IsFrame m
      × (entries m ≡ take i (entries n) ++ (k, t) ∷ drop i (entries n))
      × (key_count m ≡ key_count n + 1)
      × (node_type m ≡ node_type n)
      × (next_leaf m ≡ next_leaf n)
unfolding insert_leaf_at
insert_leaf_at_lem n i k t f room h b c =
    let cnt = key_count n in
    let (m, run, s) =
      count_down_lem entry leaf_cap SameHeader SameHeader-refl trans shift_entry shift_entry_lem
        (cnt - i) cnt n f (omega arith) room in
    let (m₁, m₂, run₁, run₂, tids, f₁, w) = put_entry m i k t s.frame (omega arith) b c in
    let counted = set_key_count_lem m₂ (cnt + 1) w.frame (omega arith) in
    let wrap : u16 (cnt + 1) ≡ cnt + 1 = omega arith in
    let kept = SameHeader-trans s.kept w.kept in
    let same : (j : ℕ) → entry (set_key_count (cnt + 1) m₂) j ≡ entry m₂ j =
      λ j. ap₂ (λ x y. (x, y)) (counted.keys j) (counted.tids j) in
    (
      set_key_count (cnt + 1) m₂,
      ground (arith, run, run₁, run₂, wrap),
      counted.frame,
      ap (λ z. tabulate z (entry (set_key_count (cnt + 1) m₂)))
            {x = key_count (set_key_count (cnt + 1) m₂)} {y = suc cnt}
            (omega (arith, counted.count))
          ∙ tabulate-insert cnt i (entry n) (entry (set_key_count (cnt + 1) m₂)) (k, t) h
              (λ j l. same j ∙ (w.others j (ground arith) (omega arith) ∙ s.below j (omega arith)))
              (same i ∙ w.here)
              (λ j l u.
                same (suc j)
                ∙ (w.others (suc j) (ground arith) (omega arith) ∙ s.moved j (omega arith) u)),
      counted.count,
      counted.same_type ∙ kept.same_type,
      counted.same_next ∙ kept.same_next,
    )

copy_entry_lem :
    (n : List ℕ) (mid i : ℕ) (r : List ℕ)
    → IsFrame n
    → IsFrame r
    → mid + i < 585
    → i < leaf_cap
    → (m : List ℕ) × (copy_entry n (mid + i) (mid + i - mid) r ≡ some m)
      × EntryWrote r i (entry n (mid + i)) m
unfolding copy_entry copy_key
copy_entry_lem n mid i r f g h b =
    let (m₁, m₂, run₁, run₂, tids, f₁, w) =
      put_entry r i (key n (mid + i)) (tid n (mid + i)) g b (key-lt n f (mid + i))
        (tid-IsTid n f (mid + i)) in
    let slot : mid + i - mid ≡ i = omega arith in
    (
      m₂,
      rw (slot, key_at_lem n f (mid + i) (omega arith), run₁, tid_at_lem n f (mid + i) h) run₂,
      w,
    )

-- splitLeaf of a leaf within its capacity leaves the first half of the entries in it and puts the others, in
-- order, into the right leaf, and changes neither node's kind nor its right sibling.
pub split_leaf_lem :
    (n right : List ℕ)
    → IsFrame n
    → IsFrame right
    → key_count n ≤ leaf_cap
    → (m r : List ℕ) × (split_leaf n right ≡ some (m, r))
      × IsFrame m
      × IsFrame r
      × (entries m ≡ take (key_count n / 2) (entries n))
      × (entries r ≡ drop (key_count n / 2) (entries n))
      × ((node_type m ≡ node_type n) × (next_leaf m ≡ next_leaf n))
      × ((node_type r ≡ node_type right) × (next_leaf r ≡ next_leaf right))
unfolding split_leaf
split_leaf_lem n right f g small =
    let cnt = key_count n in
    let mid = cnt / 2 in
    let (r, run, s) =
      count_up_lem entry leaf_cap SameHeader SameHeader-refl trans (λ j. copy_entry n j (j - mid))
        (λ i. entry n (mid + i)) mid (cnt - mid) (omega arith)
        (λ i x e l. copy_entry_lem n mid i x f e (omega arith) (omega arith)) (cnt - mid) 0 right g
        (omega arith) in
    let left = set_key_count_lem n mid f (omega arith) in
    let counted = set_key_count_lem r (cnt - mid) s.frame (omega arith) in
    (
      set_key_count mid n,
      set_key_count (cnt - mid) r,
      ap (λ o. o >>= λ x. some (set_key_count mid n, set_key_count (cnt - mid) x))
          (ap (λ z. count_up (cnt - mid) z (λ j. copy_entry n j (j - mid)) right) {x = mid}
              {y = mid + 0} (omega arith)
            ∙ run),
      left.frame,
      counted.frame,
      ap (λ z. tabulate z (entry (set_key_count mid n))) left.count
          ∙ (tabulate-cong mid (entry (set_key_count mid n)) (entry n)
                (λ j l. ap₂ (λ x y. (x, y)) (left.keys j) (left.tids j))
              ∙ sym (take-tabulate cnt mid (entry n) (omega arith))),
      ap (λ z. tabulate z (entry (set_key_count (cnt - mid) r))) counted.count
          ∙ sym (
              drop-tabulate cnt mid (cnt - mid) (entry n) (entry (set_key_count (cnt - mid) r))
                (omega arith)
                (λ j l.
                  ap₂ (λ x y. (x, y)) (counted.keys j) (counted.tids j)
                  ∙ s.written j (omega arith) (omega arith))),
      (left.same_type, left.same_next),
      (counted.same_type ∙ s.kept.same_type, counted.same_next ∙ s.kept.same_next),
    )
