-- ===== src/Access/Nbtree/Tree/Answer.antt =====
-- What a leaf and an internal node tell of a key.
use mathlib.Core.Path.{subst}
use mathlib.Core.Option.{some-injective}
use mini_db.Base.{
  ℕ, suc, ◌^◌, ◌≤◌, ◌<◌, ◌≡◌, ◌≢◌, sym, ◌∙◌, ◌⊎◌, inl, inr, List, Option, none, some, get_elem?,
  arith,
}
use mini_db.Access.Heap.{Tid}
use mini_db.Access.Nbtree.Node.{key_count, leaf_cap, internal_cap}
use mini_db.Access.Nbtree.Node.Fields.{IsFrame, key, child, tid, tid_at_lem, child_at_lem}
use mini_db.Access.Nbtree.Node.Search.{IsSorted, search_cases, child_index_cases}
use mini_db.Access.Nbtree.Tree.{leaf_lookup, child_for}
use mini_db.Access.Nbtree.Tree.Index.{IsUnder, IsUnder-unique, Holds}

-- What a lookup of k may say of a subtree.
abbrev pub IsAnswer : List (List ℕ) → ℕ → ℕ → ℕ → Option Tid → Type 0
IsAnswer ps h pid k none = (t : Tid) → ¬ Holds ps h pid k t
IsAnswer ps h pid k (some t) = Holds ps h pid k t

pub leaf_lookup_cases :
    (n : List ℕ) (k : ℕ)
    → IsFrame n
    → key_count n ≤ leaf_cap
    → IsSorted n
    → ((j : ℕ) × (leaf_lookup k n ≡ some (some (tid n j))) × (j < key_count n) × (key n j ≡ k))
      ⊎ ((leaf_lookup k n ≡ some none) × ((j : ℕ) → j < key_count n → key n j ≢ k))
unfolding leaf_lookup
leaf_lookup_cases n k f small sorted =
    let (p, found, run, bound, r) = search_cases n k f (omega arith) sorted in
    elim r [
      | inl (hit, here, e) ↦
          inl (p, ground (arith, run, hit, tid_at_lem n f p (omega arith)), here, e)
      | inr (miss, absent) ↦ inr (ground (arith, run, miss), absent)
    ]

pub child_for_cases :
    (n : List ℕ) (k : ℕ)
    → IsFrame n
    → key_count n ≤ internal_cap
    → IsSorted n
    → k < 2 ^ 64
    → (c : ℕ) × (child_for k n ≡ some (child n c)) × (c ≤ key_count n) × IsUnder n c k
unfolding child_for
child_for_cases n k f small sorted fits =
    let (c, run, inside, below, above) = child_index_cases n k f small sorted fits in
    (c, ground (arith, run, child_at_lem n f c (omega arith)), inside, (below, above))

-- The answer of a leaf, and of the child that a descent takes.
pub leaf-IsAnswer :
    (ps : List (List ℕ)) (pid k : ℕ) (n : List ℕ)
    → get_elem? ps pid ≡ some n
    → ((j : ℕ) → j < key_count n → key n j ≢ k)
    → IsAnswer ps 0 pid k none
leaf-IsAnswer ps pid k n at absent t (m, j, here, inside, is_key, is_tid) =
    let same : m ≡ n = some-injective m n (sym here ∙ at) in
    absent j (subst (λ z. j < key_count z) same inside) (subst (λ z. key z j ≡ k) same is_key)

pub child-IsAnswer :
    (ps : List (List ℕ)) (h pid k c : ℕ) (n : List ℕ) (r : Option Tid)
    → get_elem? ps pid ≡ some n
    → c ≤ key_count n
    → IsUnder n c k
    → ((i l : ℕ) (t : Tid) → i ≤ key_count n → Holds ps h (child n i) l t → IsUnder n i l)
    → IsAnswer ps h (child n c) k r
    → IsAnswer ps (suc h) pid k r
child-IsAnswer ps h pid k c n (some t) at inside under apart held = (n, c, at, inside, held)
child-IsAnswer ps h pid k c n none at inside under apart nothing = λ t x.
    let (m, i, here, within, held) = x in
    let same : m ≡ n = some-injective m n (sym here ∙ at) in
    let within_n : i ≤ key_count n = subst (λ z. i ≤ key_count z) same within in
    let held_n : Holds ps h (child n i) k t = subst (λ z. Holds ps h (child z i) k t) same held in
    let taken : i ≡ c =
      IsUnder-unique n i c k within_n inside (apart i k t within_n held_n) under in
    nothing t (subst (λ z. Holds ps h (child n z) k t) taken held_n)
