-- ===== src/Access/Nbtree/Insert/Split.antt =====
-- splitLeafNode: the right leaf is a new page at the end of the file.
use mini_db.Base.{ℕ, ◌+◌, ◌<◌, ◌≡◌, refl, ◌⊎◌, inl, inr, true, List, [], ◌∷◌, ◌++◌, length, arith}
use mini_db.Base.Outcome.{Outcome, ok, err}
use mini_db.Page.{new_page as zero_frame}
use mini_db.Access.Heap.Grow.{length-zero_frame}
use mini_db.Access.Pager.{Pager, PagerLaws}
use mini_db.Access.Nbtree.Node.{
  key_count, next_leaf, set_next_leaf, init_leaf, init_type, split_leaf, leaf_cap, key_at,
}
use mini_db.Access.Nbtree.Node.Fields.{key, key_at_lem}
use mini_db.Access.Nbtree.Node.Init.{init_type_lem}
use mini_db.Access.Nbtree.Tree.{Split, TreeError, pager_error, edit_both, peek, split_leaf_node}
use mini_db.Access.Nbtree.Insert.Solo.{edit_both_run, peek_run, IsSolo}
use mini_db.Access.Nbtree.Insert.Pair.{
  IsPair, new-IsPair, pair_left, pair_right, store_left, store_right, pair_release,
}
use mini_db.Access.Nbtree.Tree.Leaves.{IsLeafOf, set_next_leaf_lem}
use mini_db.Access.Nbtree.Tree.Halves.{AreHalves, leaf_halves, linked-AreHalves}

module _ {S P E : Type 0} {pager : Pager S P E} (laws : PagerLaws pager) where
  -- What splitLeafNode leaves: two halves, the right one on the new page, or an error of the pool and no change.
  abbrev pub LeafSplit :
      S → ℕ → List (List ℕ) → P → ℕ → List ℕ → ℕ → ℕ → S × Outcome (TreeError E) Split → Type 0
  LeafSplit s₀ limit base p pid n lo hi result =
      ((t : S) × (m r : List ℕ) × (result
          ≡ (t, ok (record { sep_key = key r 0; right = length base })))
        × IsSolo laws s₀ limit t (base ++ r ∷ []) p pid m
        × AreHalves n m r lo hi)
      ⊎ ((e : E) × (t : S) × (result ≡ (t, err (pager_error e)))
          × IsSolo laws s₀ limit t base p pid n)

  -- The run, step by step.
  module _ (base : List (List ℕ)) (p : P) (n : List ℕ) (s s₁ t : S) (q : P) (m r : List ℕ) where
    abbrev linked : S
    linked = pager.store q r (pager.store p m (pager.store q (init_leaf zero_frame) s₁))

    abbrev chained : S
    chained = pager.store q (set_next_leaf (next_leaf m) r) linked

    abbrev last : S
    last = pager.store p (set_next_leaf (length base) m) chained

    split_runs :
        pager.new_page s ≡ (s₁, ok (q, length base))
        → pager.load q s₁ ≡ zero_frame
        → edit_both pager p q split_leaf (pager.store q (init_leaf zero_frame) s₁) ≡ (linked, ok tt)
        → pager.load p linked ≡ m
        → pager.load q linked ≡ r
        → pager.load p chained ≡ m
        → peek pager q (key_at 0) last ≡ (last, ok (key (set_next_leaf (next_leaf m) r) 0))
        → pager.unpin_page (length base) true last ≡ (t, ok tt)
        → split_leaf_node pager p s ≡ (
          t,
          ok (record { sep_key = key (set_next_leaf (next_leaf m) r) 0; right = length base }),
        )
    unfolding split_leaf_node
    split_runs made blank split_both left right left_again sep released =
        rw (made, blank, split_both, left, right, left_again, sep, released) refl

  module _ (s₀ : S) (limit : ℕ) (base : List (List ℕ)) (p : P) (pid : ℕ) (n : List ℕ) (lo hi : ℕ)
      (x : IsLeafOf n lo hi) (some_keys : 1 < key_count n)
      (small : key_count n < leaf_cap + 1) where
    split_made :
        (s s₁ : S) (q : P)
        → pager.new_page s ≡ (s₁, ok (q, length base))
        → IsPair laws s₀ limit s₁ base p pid n q zero_frame
        → LeafSplit s₀ limit base p pid n lo hi (split_leaf_node pager p s)
    unfolding init_leaf
    split_made s s₁ q made pair =
        let empty = init_type_lem 1 zero_frame length-zero_frame (omega arith) in
        let r₀ = init_type 1 zero_frame in
        let (m, r, run, halves) =
          leaf_halves n r₀ lo hi x some_keys (omega arith) empty.frame empty.is_kind in
        let r' = set_next_leaf (next_leaf m) r in
        let m' = set_next_leaf (length base) m in
        let linked_r = set_next_leaf_lem r (next_leaf m) halves.right.frame in
        let linked_m = set_next_leaf_lem m (length base) halves.left.frame in
        let s₂ = pager.store q r₀ s₁ in
        let s₃ = pager.store p m s₂ in
        let s₄ = pager.store q r s₃ in
        let s₅ = pager.store q r' s₄ in
        let s₆ = pager.store p m' s₅ in
        let at₂ = store_right laws s₀ limit s₁ base p pid n q zero_frame pair r₀ empty.frame.size in
        let at₃ = store_left laws s₀ limit s₂ base p pid n q r₀ at₂ m halves.left.frame.size in
        let at₄ = store_right laws s₀ limit s₃ base p pid m q r₀ at₃ r halves.right.frame.size in
        let at₅ = store_right laws s₀ limit s₄ base p pid m q r at₄ r' linked_r.frame.size in
        let at₆ = store_left laws s₀ limit s₅ base p pid m q r' at₅ m' linked_m.frame.size in
        let (t, released, solo) = pair_release laws s₀ limit s₆ base p pid m' q r' at₆ in
        inl (
          t,
          m',
          r',
          split_runs base p n s s₁ t q m r made
              (pair_right laws s₀ limit s₁ base p pid n q zero_frame pair)
              (edit_both_run laws s₂ p n (pair_left laws s₀ limit s₂ base p pid n q r₀ at₂) q r₀
                split_leaf m r (pair_right laws s₀ limit s₂ base p pid n q r₀ at₂) run)
              (pair_left laws s₀ limit s₄ base p pid m q r at₄)
              (pair_right laws s₀ limit s₄ base p pid m q r at₄)
              (pair_left laws s₀ limit s₅ base p pid m q r' at₅)
              (peek_run laws s₆ q r' (pair_right laws s₀ limit s₆ base p pid m' q r' at₆) (key_at 0)
                (key r' 0) (key_at_lem r' linked_r.frame 0 (omega arith)))
              released,
          solo,
          linked-AreHalves n m r m' r' lo hi halves linked_m linked_r,
        )

    split_refused :
        (s t : S) (e : E)
        → pager.new_page s ≡ (t, err e)
        → split_leaf_node pager p s ≡ (t, err (pager_error e))
    unfolding split_leaf_node
    split_refused s t e failed = ground (arith, failed)

    pub split_leaf_node_cases :
        (s : S)
        → IsSolo laws s₀ limit s base p pid n
        → LeafSplit s₀ limit base p pid n lo hi (split_leaf_node pager p s)
    split_leaf_node_cases s solo = elim (new-IsPair laws s₀ limit s base p pid n solo) [
      | inl (q, s₁, made, pair) ↦ split_made s s₁ q made pair
      | inr (e, t, failed, same) ↦ inr (e, t, split_refused s t e failed, same)
    ]
