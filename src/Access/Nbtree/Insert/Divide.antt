-- ===== src/Access/Nbtree/Insert/Divide.antt =====
-- splitInternalNode: the right node is a new page at the end of the file.
use mini_db.Base.{
  ℕ, ◌+◌, ◌<◌, ◌≡◌, refl, ap₂, ◌∙◌, ◌⊎◌, inl, inr, true, false, List, [], ◌∷◌, ◌++◌, length, some,
  arith,
}
use mini_db.Base.Outcome.{Outcome, ok, err}
use mini_db.Page.{new_page as zero_frame}
use mini_db.Access.Heap.Grow.{length-zero_frame}
use mini_db.Access.Pager.{Pager, PagerLaws}
use mini_db.Access.Nbtree.Node.{
  is_leaf, key_count, init_internal, init_type, split_internal, internal_cap,
}
use mini_db.Access.Nbtree.Node.Fields.{IsFrame}
use mini_db.Access.Nbtree.Node.Init.{init_type_lem}
use mini_db.Access.Nbtree.Tree.{Split, TreeError, pager_error, split_internal_node}
use mini_db.Access.Nbtree.Insert.Solo.{IsSolo}
use mini_db.Access.Nbtree.Insert.Pair.{
  IsPair, new-IsPair, pair_left, pair_right, store_left, store_right, pair_release,
}
use mini_db.Access.Nbtree.Tree.Inners.{HasHalves, inner_halves}

module _ {S P E : Type 0} {pager : Pager S P E} (laws : PagerLaws pager) where
  abbrev pub InnerSplit :
      S → ℕ → List (List ℕ) → P → ℕ → List ℕ → S × Outcome (TreeError E) Split → Type 0
  InnerSplit s₀ limit base p pid n result =
      ((t : S) × (up : ℕ) × (m r : List ℕ) × (result
          ≡ (t, ok (record { sep_key = up; right = length base })))
        × IsSolo laws s₀ limit t (base ++ r ∷ []) p pid m
        × HasHalves n up m r)
      ⊎ ((e : E) × (t : S) × (result ≡ (t, err (pager_error e)))
          × IsSolo laws s₀ limit t base p pid n)

  module _ (base : List (List ℕ)) (p : P) (n : List ℕ) (s s₁ t : S) (q : P) (up : ℕ)
      (m r : List ℕ) where
    abbrev fresh : S
    fresh = pager.store q (init_internal zero_frame) s₁

    divide_runs :
        pager.new_page s ≡ (s₁, ok (q, length base))
        → pager.load q s₁ ≡ zero_frame
        → split_internal (pager.load p fresh) (pager.load q fresh) ≡ some (up, m, r)
        → pager.unpin_page (length base) true (pager.store q r (pager.store p m fresh)) ≡ (t, ok tt)
        → split_internal_node pager p s ≡ (t, ok (record { sep_key = up; right = length base }))
    unfolding split_internal_node
    divide_runs made blank halves released = rw (made, blank, halves, released) refl

  module _ (s₀ : S) (limit : ℕ) (base : List (List ℕ)) (p : P) (pid : ℕ) (n : List ℕ)
      (f : IsFrame n) (inner : is_leaf n ≡ false) (some_key : 0 < key_count n)
      (small : key_count n < internal_cap + 1) where
    divide_made :
        (s s₁ : S) (q : P)
        → pager.new_page s ≡ (s₁, ok (q, length base))
        → IsPair laws s₀ limit s₁ base p pid n q zero_frame
        → InnerSplit s₀ limit base p pid n (split_internal_node pager p s)
    unfolding init_internal
    divide_made s s₁ q made pair =
        let empty = init_type_lem 0 zero_frame length-zero_frame (omega arith) in
        let r₀ = init_type 0 zero_frame in
        let (up, m, r, run, halves) =
          inner_halves n r₀ f empty.frame inner empty.is_kind some_key (omega arith) in
        let s₂ = pager.store q r₀ s₁ in
        let s₃ = pager.store p m s₂ in
        let at₂ = store_right laws s₀ limit s₁ base p pid n q zero_frame pair r₀ empty.frame.size in
        let at₃ = store_left laws s₀ limit s₂ base p pid n q r₀ at₂ m halves.frame.size in
        let at₄ = store_right laws s₀ limit s₃ base p pid m q r₀ at₃ r halves.frame_too.size in
        let (t, released, solo) =
          pair_release laws s₀ limit (pager.store q r s₃) base p pid m q r at₄ in
        inl (
          t,
          up,
          m,
          r,
          divide_runs base p n s s₁ t q up m r made
              (pair_right laws s₀ limit s₁ base p pid n q zero_frame pair)
              (ap₂ split_internal (pair_left laws s₀ limit s₂ base p pid n q r₀ at₂)
                  (pair_right laws s₀ limit s₂ base p pid n q r₀ at₂)
                ∙ run)
              released,
          solo,
          halves,
        )

    divide_refused :
        (s t : S) (e : E)
        → pager.new_page s ≡ (t, err e)
        → split_internal_node pager p s ≡ (t, err (pager_error e))
    unfolding split_internal_node
    divide_refused s t e failed = ground (arith, failed)

    pub split_internal_node_cases :
        (s : S)
        → IsSolo laws s₀ limit s base p pid n
        → InnerSplit s₀ limit base p pid n (split_internal_node pager p s)
    split_internal_node_cases s solo = elim (new-IsPair laws s₀ limit s base p pid n solo) [
      | inl (q, s₁, made, pair) ↦ divide_made s s₁ q made pair
      | inr (e, t, failed, same) ↦ inr (e, t, divide_refused s t e failed, same)
    ]
