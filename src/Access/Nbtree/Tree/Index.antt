-- ===== src/Access/Nbtree/Tree/Index.antt =====
-- The tree that the pages of an index stand for, and the entries it holds.
use native.Mathlib.Decide.{dec_lt}
use mini_db.Base.{ℕ, zero, suc, ◌≤◌, ◌<◌, ◌≡◌, true, false, List, length, some, get_elem?, arith}
use mini_db.Access.Heap.{Tid}
use mini_db.Access.Pager.{Pager, PagerLaws}
use mini_db.Access.Nbtree.Node.{is_leaf, key_count, ordinal, leaf_cap, internal_cap}
use mini_db.Access.Nbtree.Node.Fields.{IsFrame, key, child, tid}
use mini_db.Access.Nbtree.Node.Search.{IsSorted}
use mini_db.Access.Nbtree.Tree.{magic, meta_magic, meta_root}

-- Key k belongs under child i: between the separators beside it.
abbrev pub IsUnder : List ℕ → ℕ → ℕ → Type 0
IsUnder n i k =
    ((j : ℕ) → j < i → ordinal (key n j) ≤ ordinal k)
    × ((j : ℕ) → i ≤ j → j < key_count n → ordinal k < ordinal (key n j))

-- The entry (k, t) is in the subtree of height h at page pid.
abbrev pub Holds : List (List ℕ) → ℕ → ℕ → ℕ → Tid → Type 0
Holds ps zero pid k t =
    (n : List ℕ) × (j : ℕ) × (get_elem? ps pid ≡ some n)
    × (j < key_count n)
    × (key n j ≡ k)
    × (tid n j ≡ t)
Holds ps (suc h) pid k t =
    (n : List ℕ) × (i : ℕ) × (get_elem? ps pid ≡ some n)
    × (i ≤ key_count n)
    × Holds ps h (child n i) k t

-- Leaves at the same depth, keys in order in every node, and the entries of each child between the
-- separators beside it.
abbrev pub IsTree : List (List ℕ) → ℕ → ℕ → Type 0
IsTree ps zero pid =
    (n : List ℕ) × (get_elem? ps pid ≡ some n)
    × IsFrame n
    × (is_leaf n ≡ true)
    × (key_count n ≤ leaf_cap)
    × IsSorted n
IsTree ps (suc h) pid =
    (n : List ℕ) × (get_elem? ps pid ≡ some n)
    × IsFrame n
    × (is_leaf n ≡ false)
    × (key_count n ≤ internal_cap)
    × IsSorted n
    × ((i : ℕ) → i ≤ key_count n → IsTree ps h (child n i))
    × ((i k : ℕ) (t : Tid) → i ≤ key_count n → Holds ps h (child n i) k t → IsUnder n i k)

-- The pages of an index: the meta page and the tree at the root, less high than there are pages.
pub record IsIndexed (ps : List (List ℕ)) (height root : ℕ) : Type 0 where
  pub meta : List ℕ
  pub meta_page : get_elem? ps 0 ≡ some meta
  pub marked : magic meta ≡ meta_magic
  pub rooted : meta_root meta ≡ root
  pub tree : IsTree ps height root
  pub shallow : height < length ps

module _ {S P E : Type 0} {pager : Pager S P E} (laws : PagerLaws pager) where
  -- An index between two calls: its changes were all declared.
  pub record IsIndex (s : S) (height root : ℕ) : Type 0 where
    pub valid : laws.Valid s
    pub settled : laws.pages s ≡ laws.declared s
    pub indexed : IsIndexed (laws.pages s) height root

-- A key is under one child only.
pub IsUnder-unique :
    (n : List ℕ) (i j k : ℕ)
    → i ≤ key_count n
    → j ≤ key_count n
    → IsUnder n i k
    → IsUnder n j k
    → i ≡ j
IsUnder-unique n i j k hi hj a b = elim (dec_lt i j) [
  | yes less ↦ omega (arith, a.1 i (omega arith) (omega arith), b.0 i less)
  | no not_less ↦ elim (dec_lt j i) [
    | yes more ↦ omega (arith, b.1 j (omega arith) (omega arith), a.0 j more)
    | no not_more ↦ omega arith
  ]
]
