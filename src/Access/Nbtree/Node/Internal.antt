-- ===== src/Access/Nbtree/Node/Internal.antt =====
-- An internal node as its keys and its children: what insertInternalAt and splitInternal make of it.
use mini_db.Base.{
  ℕ, suc, ◌+◌, ◌-◌, ◌^◌, ◌≤◌, ◌<◌, ◌≡◌, refl, ap, ◌∙◌, List, ◌∷◌, ◌++◌, some, take, drop, arith,
}
use mini_db.Base.Words.{u16}
use mini_db.Access.Nbtree.Node.{
  node_type, key_count, set_key_count, set_key_at, set_child_at, shift_key, shift_child,
  insert_internal_at, internal_cap,
}
use mini_db.Access.Nbtree.Node.Fields.{
  IsFrame, key, child, SameHeader, SameHeader-refl, SameHeader-trans, key_at_lem, child_at_lem,
  key-lt, child-lt, set_key_at_lem, set_child_at_lem, set_key_count_lem,
}
use mini_db.Access.Nbtree.Node.Loops.{tabulate, tabulate-insert, Wrote, count_down_lem}

abbrev pub keys : List ℕ → List ℕ
keys n = tabulate (key_count n) (key n)

abbrev pub children : List ℕ → List ℕ
children n = tabulate (suc (key_count n)) (child n)

-- A key is written, and no child; a child is written, and no key.
pub record SameChildren (n m : List ℕ) : Type 0 where
  pub header : SameHeader n m
  pub same : (j : ℕ) → child m j ≡ child n j

pub record SameKeys (n m : List ℕ) : Type 0 where
  pub header : SameHeader n m
  pub same : (j : ℕ) → j < internal_cap → key m j ≡ key n j

pub children_kept : (n : List ℕ) → SameChildren n n
children_kept n = record { header = SameHeader-refl n; same = λ j. refl }

pub children_join : (n m l : List ℕ) → SameChildren n m → SameChildren m l → SameChildren n l
children_join n m l h k = record {
  header = SameHeader-trans h.header k.header;
  same = λ j. k.same j ∙ h.same j;
}

pub keys_kept : (n : List ℕ) → SameKeys n n
keys_kept n = record { header = SameHeader-refl n; same = λ j l. refl }

pub keys_join : (n m l : List ℕ) → SameKeys n m → SameKeys m l → SameKeys n l
keys_join n m l h k = record {
  header = SameHeader-trans h.header k.header;
  same = λ j b. k.same j b ∙ h.same j b;
}

abbrev pub KeyWrote : List ℕ → ℕ → ℕ → List ℕ → Type 0
KeyWrote = Wrote key internal_cap SameChildren children_kept children_join

abbrev pub ChildWrote : List ℕ → ℕ → ℕ → List ℕ → Type 0
ChildWrote = Wrote child 684 SameKeys keys_kept keys_join

pub put_key :
    (n : List ℕ) (i k : ℕ)
    → IsFrame n
    → i < internal_cap
    → k < 2 ^ 64
    → (m : List ℕ) × (set_key_at i k n ≡ some m) × KeyWrote n i k m
put_key n i k f h b =
    let (m, run, w) = set_key_at_lem n f i k (omega arith) b in
    (
      m,
      run,
      record {
        frame = w.frame;
        kept = record { header = w.header; same = w.children h };
        here = w.here;
        others = λ j e l. w.others j e;
      },
    )

pub put_child :
    (n : List ℕ) (i c : ℕ)
    → IsFrame n
    → i < 684
    → c < 2 ^ 32
    → (m : List ℕ) × (set_child_at i c n ≡ some m) × ChildWrote n i c m
put_child n i c f h b =
    let (m, run, w) = set_child_at_lem n f i c h b in
    (
      m,
      run,
      record {
        frame = w.frame;
        kept = record { header = w.header; same = w.keys };
        here = w.here;
        others = λ j e l. w.others j e;
      },
    )

shift_key_lem :
    (j : ℕ) (n : List ℕ)
    → IsFrame n
    → 0 < j
    → j < internal_cap
    → (m : List ℕ) × (shift_key j n ≡ some m) × KeyWrote n j (key n (j - 1)) m
unfolding shift_key
shift_key_lem j n f h b =
    let (m, run, w) = put_key n j (key n (j - 1)) f b (key-lt n f (j - 1)) in
    (m, ground (arith, key_at_lem n f (j - 1) (omega arith), run), w)

shift_child_lem :
    (j : ℕ) (n : List ℕ)
    → IsFrame n
    → 0 < j
    → j < 684
    → (m : List ℕ) × (shift_child j n ≡ some m) × ChildWrote n j (child n (j - 1)) m
unfolding shift_child
shift_child_lem j n f h b =
    let (m, run, w) = put_child n j (child n (j - 1)) f b (child-lt n f (j - 1)) in
    (m, ground (arith, child_at_lem n f (j - 1) (omega arith), run), w)

-- On an internal node with room for it, insertInternalAt puts the separator at place i of the keys and the
-- child at place i + 1 of the children, and leaves the node's kind alone.
pub insert_internal_at_lem :
    (n : List ℕ) (i k c : ℕ)
    → IsFrame n
    → key_count n < internal_cap
    → i ≤ key_count n
    → k < 2 ^ 64
    → c < 2 ^ 32
    → (m : List ℕ) × (insert_internal_at i k c n ≡ some m)
      × IsFrame m
      × (keys m ≡ take i (keys n) ++ k ∷ drop i (keys n))
      × (children m ≡ take (suc i) (children n) ++ c ∷ drop (suc i) (children n))
      × (key_count m ≡ key_count n + 1)
      × (node_type m ≡ node_type n)
unfolding insert_internal_at
insert_internal_at_lem n i k c f room h b d =
    let cnt = key_count n in
    let (m₁, run₁, s₁) =
      count_down_lem key internal_cap SameChildren children_kept children_join shift_key
        shift_key_lem (cnt - i) cnt n f (omega arith) room in
    let (m₂, run₂, w₂) = put_key m₁ i k s₁.frame (omega arith) b in
    let (m₃, run₃, s₃) =
      count_down_lem child 684 SameKeys keys_kept keys_join shift_child shift_child_lem
        (suc cnt - suc i) (suc cnt) m₂ w₂.frame (omega arith) (omega arith) in
    let (m₄, run₄, w₄) = put_child m₃ (suc i) c s₃.frame (omega arith) d in
    let counted = set_key_count_lem m₄ (suc cnt) w₄.frame (omega arith) in
    let result = set_key_count (suc cnt) m₄ in
    let kept = children_join n m₁ m₂ s₁.kept w₂.kept in
    let held = keys_join m₂ m₃ m₄ s₃.kept w₄.kept in
    let up : u16 (cnt + 1) ≡ suc cnt = omega arith in
    let next : u16 (i + 1) ≡ suc i = omega arith in
    (
      result,
      rw (up, next, run₁, run₂, run₃, run₄) refl,
      counted.frame,
      ap (λ z. tabulate z (key result)) counted.count
          ∙ tabulate-insert cnt i (key n) (key result) k h
              (λ j l.
                counted.keys j
                ∙ (held.same j (omega arith)
                    ∙ (w₂.others j (ground arith) (omega arith) ∙ s₁.below j (omega arith))))
              (counted.keys i ∙ (held.same i (omega arith) ∙ w₂.here))
              (λ j l u.
                counted.keys (suc j)
                ∙ (held.same (suc j) (omega arith)
                    ∙ (w₂.others (suc j) (ground arith) (omega arith)
                        ∙ s₁.moved j (omega arith) u))),
      ap (λ z. tabulate (suc z) (child result)) counted.count
          ∙ tabulate-insert (suc cnt) (suc i) (child n) (child result) c (omega arith)
              (λ j l.
                counted.children j
                ∙ (w₄.others j (ground arith) (omega arith)
                    ∙ (s₃.below j (omega arith) ∙ kept.same j)))
              (counted.children (suc i) ∙ w₄.here)
              (λ j l u.
                counted.children (suc j)
                ∙ (w₄.others (suc j) (ground arith) (omega arith)
                    ∙ (s₃.moved j (omega arith) u ∙ kept.same j))),
      counted.count ∙ omega arith,
      counted.same_type ∙ (held.header.same_type ∙ kept.header.same_type),
    )
