-- ===== src/Access/Nbtree/Insert/LeafRuns.antt =====
-- The runs of insertInto at a leaf, branch by branch.
use mini_db.Base.{ℕ, ◌<◌, ◌≡◌, ap, ◌∙◌, true, false, List, none, some, arith}
use mini_db.Base.Outcome.{ok, err}
use mini_db.Access.Heap.{Tid}
use mini_db.Access.Pager.{Pager}
use mini_db.Access.Nbtree.Node.{is_leaf, key_count, full, search, insert_leaf_at, leaf_cap}
use mini_db.Access.Nbtree.Tree.{
  Split, pager_error, duplicate_key, insert_into_leaf, split_leaf_node,
}

pub full-false : (n : List ℕ) → is_leaf n ≡ true → key_count n < leaf_cap → full n ≡ false
unfolding full
full-false n leaf h = ground (arith, leaf)

pub full-true : (n : List ℕ) → is_leaf n ≡ true → key_count n ≡ leaf_cap → full n ≡ true
unfolding full
full-true n leaf h = ground (arith, leaf, h)

-- The run of each branch.
module _ {S P E : Type 0} (pager : Pager S P E) (pid : ℕ) (p : P) (k : ℕ) (t : Tid) (s : S)
    (n : List ℕ) (i : ℕ) (here : pager.load p s ≡ n) where
  pub taken_run :
      (u : S)
      → search k n ≡ some (i, true)
      → pager.unpin_page pid false s ≡ (u, ok tt)
      → insert_into_leaf pager pid p k t s ≡ (u, err duplicate_key)
  unfolding insert_into_leaf
  taken_run u found run = ground (arith, ap (search k) here ∙ found, run)

  module _ (m : List ℕ) (missed : search k n ≡ some (i, false))
      (put : insert_leaf_at i k t n ≡ some m) (now : pager.load p (pager.store p m s) ≡ m) where
    pub roomy_run :
        (u : S)
        → full m ≡ false
        → pager.unpin_page pid true (pager.store p m s) ≡ (u, ok tt)
        → insert_into_leaf pager pid p k t s ≡ (u, ok none)
    unfolding insert_into_leaf
    roomy_run u f run = ground (
      arith,
      ap (search k) here ∙ missed,
      ap (insert_leaf_at i k t) here ∙ put,
      ap full now ∙ f,
      run,
    )

    pub split_run :
        (v u : S) (sp : Split)
        → full m ≡ true
        → split_leaf_node pager p (pager.store p m s) ≡ (v, ok sp)
        → pager.unpin_page pid true v ≡ (u, ok tt)
        → insert_into_leaf pager pid p k t s ≡ (u, ok (some sp))
    unfolding insert_into_leaf
    split_run v u sp f split run = ground (
      arith,
      ap (search k) here ∙ missed,
      ap (insert_leaf_at i k t) here ∙ put,
      ap full now ∙ f,
      split,
      run,
    )

    pub failed_run :
        (v u : S) (e : E)
        → full m ≡ true
        → split_leaf_node pager p (pager.store p m s) ≡ (v, err (pager_error e))
        → pager.unpin_page pid true v ≡ (u, ok tt)
        → insert_into_leaf pager pid p k t s ≡ (u, err (pager_error e))
    unfolding insert_into_leaf
    failed_run v u e f split run = ground (
      arith,
      ap (search k) here ∙ missed,
      ap (insert_leaf_at i k t) here ∙ put,
      ap full now ∙ f,
      split,
      run,
    )
