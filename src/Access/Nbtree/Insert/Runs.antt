-- ===== src/Access/Nbtree/Insert/Runs.antt =====
-- The runs of insertInto, branch by branch.
use mini_db.Base.{ℕ, suc, ◌<◌, ◌≡◌, refl, ap, ◌∙◌, true, false, List, Option, none, some, arith}
use mini_db.Base.Outcome.{ok, err}
use mini_db.Access.Heap.{Tid}
use mini_db.Access.Pager.{Pager}
use mini_db.Access.Nbtree.Node.{
  is_leaf, internal_cap, key_count, child_index, child_at, full, insert_internal_at,
}
use mini_db.Access.Nbtree.Tree.{
  Split, TreeError, pager_error, absorb, insert_into, insert_into_leaf, split_internal_node,
}

pub full-false : (n : List ℕ) → is_leaf n ≡ false → key_count n < internal_cap → full n ≡ false
unfolding full
full-false n inner h = ground (arith, inner)

pub full-true : (n : List ℕ) → is_leaf n ≡ false → key_count n ≡ internal_cap → full n ≡ true
unfolding full
full-true n inner h = ground (arith, inner, h)

module _ {S P E : Type 0} (pager : Pager S P E) where
  module _ (fuel pid k : ℕ) (t : Tid) (s₀ : S) where
    pub fetch_run :
        (u : S) (e : E)
        → pager.fetch_page pid s₀ ≡ (u, err e)
        → insert_into pager (suc fuel) pid k t s₀ ≡ (u, err (pager_error e))
    unfolding insert_into
    fetch_run u e failed = ground (arith, failed)

    module _ (s₁ : S) (p : P) (n : List ℕ) (got : pager.fetch_page pid s₀ ≡ (s₁, ok p))
        (here : pager.load p s₁ ≡ n) where
      pub leaf_run :
          is_leaf n ≡ true
          → insert_into pager (suc fuel) pid k t s₀ ≡ insert_into_leaf pager pid p k t s₁
      unfolding insert_into
      leaf_run leaf = ground (arith, got, ap is_leaf here ∙ leaf)

      module _ (c q : ℕ) (inner : is_leaf n ≡ false) (taken : child_index k n ≡ some c)
          (child : child_at c n ≡ some q) where
        pub below_run :
            (u : S) (r : Option Split)
            → insert_into pager fuel q k t s₁ ≡ (u, ok r)
            → insert_into pager (suc fuel) pid k t s₀ ≡ absorb pager pid p c r u
        unfolding insert_into
        below_run u r run =
            rw
              (
                got,
                ap is_leaf here ∙ inner,
                ap (child_index k) here ∙ taken,
                ap (child_at c) here ∙ child,
                run,
              )
              refl

        pub refused_run :
            (u v : S) (e : TreeError E)
            → insert_into pager fuel q k t s₁ ≡ (u, err e)
            → pager.unpin_page pid false u ≡ (v, ok tt)
            → insert_into pager (suc fuel) pid k t s₀ ≡ (v, err e)
        unfolding insert_into
        refused_run u v e run gone =
            rw
              (
                got,
                ap is_leaf here ∙ inner,
                ap (child_index k) here ∙ taken,
                ap (child_at c) here ∙ child,
                run,
                gone,
              )
              refl

  module _ (pid : ℕ) (p : P) (c : ℕ) (u v : S) where
    pub quiet_run :
        pager.unpin_page pid false u ≡ (v, ok tt) → absorb pager pid p c none u ≡ (v, ok none)
    quiet_run gone = ground (arith, gone)

    module _ (sp : Split) (n m : List ℕ) (here : pager.load p u ≡ n)
        (put : insert_internal_at c sp.sep_key sp.right n ≡ some m)
        (now : pager.load p (pager.store p m u) ≡ m) where
      pub roomy_run :
          full m ≡ false
          → pager.unpin_page pid true (pager.store p m u) ≡ (v, ok tt)
          → absorb pager pid p c (some sp) u ≡ (v, ok none)
      roomy_run f gone =
          ground
            (arith, ap (insert_internal_at c sp.sep_key sp.right) here ∙ put, ap full now ∙ f, gone)

      pub divided_run :
          (w : S) (up : Split)
          → full m ≡ true
          → split_internal_node pager p (pager.store p m u) ≡ (w, ok up)
          → pager.unpin_page pid true w ≡ (v, ok tt)
          → absorb pager pid p c (some sp) u ≡ (v, ok (some up))
      divided_run w up f split gone = ground (
        arith,
        ap (insert_internal_at c sp.sep_key sp.right) here ∙ put,
        ap full now ∙ f,
        split,
        gone,
      )

      pub undivided_run :
          (w : S) (e : E)
          → full m ≡ true
          → split_internal_node pager p (pager.store p m u) ≡ (w, err (pager_error e))
          → pager.unpin_page pid true w ≡ (v, ok tt)
          → absorb pager pid p c (some sp) u ≡ (v, err (pager_error e))
      undivided_run w e f split gone = ground (
        arith,
        ap (insert_internal_at c sp.sep_key sp.right) here ∙ put,
        ap full now ∙ f,
        split,
        gone,
      )
