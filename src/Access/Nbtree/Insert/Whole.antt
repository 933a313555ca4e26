-- ===== src/Access/Nbtree/Insert/Whole.antt =====
-- Insert on an index.
use mathlib.Core.Path.{subst}
use mini_db.Base.{
  some-length, ℕ, suc, ◌^◌, ◌<◌, ◌≡◌, refl, sym, ap, ◌∙◌, ◌⊎◌, inl, inr, length, none, some,
  get_elem?, arith,
}
use mini_db.Base.Outcome.{Outcome, ok, err}
use mini_db.Access.Heap.{Tid}
use mini_db.Access.Pager.{Pager, PagerLaws}
use mini_db.Access.Nbtree.Node.{ordinal}
use mini_db.Access.Nbtree.Node.Fields.{IsTid}
use mini_db.Access.Nbtree.Tree.{
  Split, TreeError, pager_error, duplicate_key, root, insert_into, grow_root, insert_tree,
}
use mini_db.Access.Nbtree.Tree.Index.{Holds}
use mini_db.Access.Nbtree.Tree.Lookup.{IsQuiet, root_cases, IsStep}
use mini_db.Access.Nbtree.Tree.Span.{IsSub, IsSub-Within}
use mini_db.Access.Nbtree.Tree.Fan.{Adds}
use mini_db.Access.Nbtree.Insert.Outcomes.{Moves, Takes, Splits, Inserted}
use mini_db.Access.Nbtree.Insert.Into.{nonzero_of, insert_into_cases}
use mini_db.Access.Nbtree.Insert.Grow.{grow_root_cases}
use mini_db.Access.Nbtree.Tree.Roomy.{IsRoomy, IsSub-loosen, IsRoomyIndex, IsRoomyIndex-IsIndex}
use mini_db.Access.Nbtree.Insert.Over.{taller, taller_adds}

module _ {S P E : Type 0} {pager : Pager S P E} (laws : PagerLaws pager) where
  failed_root :
      (k : ℕ) (t : Tid) (s u : S) (e : TreeError E)
      → root pager s ≡ (u, err e)
      → insert_tree pager k t s ≡ (u, err e)
  unfolding insert_tree
  failed_root k t s u e h = ground (arith, h)

  module _ (k : ℕ) (t : Tid) (s s₁ u : S) (top : ℕ) (found : root pager s ≡ (s₁, ok top)) where
    failed_run :
        (e : TreeError E)
        → insert_into pager (suc (pager.num_pages s₁)) top k t s₁ ≡ (u, err e)
        → insert_tree pager k t s ≡ (u, err e)
    unfolding insert_tree
    failed_run e run = rw (found, run) refl

    quiet_run :
        insert_into pager (suc (pager.num_pages s₁)) top k t s₁ ≡ (u, ok none)
        → insert_tree pager k t s ≡ (u, ok tt)
    unfolding insert_tree
    quiet_run run = rw (found, run) refl

    grow_run :
        (sp : Split)
        → insert_into pager (suc (pager.num_pages s₁)) top k t s₁ ≡ (u, ok (some sp))
        → insert_tree pager k t s ≡ grow_root pager top sp u
    unfolding insert_tree
    grow_run sp run = rw (found, run) refl

  -- What Insert comes to.
  abbrev Insertion : S → ℕ → ℕ → ℕ → Tid → S × Outcome (TreeError E) (Unit {0}) → Type 0
  Insertion s height top k t result =
      (u : S) × (((height' : ℕ) × (top' : ℕ) × (result ≡ (u, ok tt))
          × IsRoomyIndex laws u height' top'
          × ((v : Tid) → ¬ Holds (laws.pages s) height top k v)
          × Adds (Holds (laws.pages s) height top) (Holds (laws.pages u) height' top') k t)
        ⊎ (((result ≡ (u, err duplicate_key))
              × IsRoomyIndex laws u height top
              × (laws.pages u ≡ laws.pages s)
              × ((v : Tid) × Holds (laws.pages s) height top k v))
            ⊎ ((e : E) × (result ≡ (u, err (pager_error e))) × IsQuiet laws u)))

  -- The insertion below the root that was found.
  module _ (k : ℕ) (t : Tid) (fits : k < 2 ^ 64) (is_tid : IsTid t) (s s₁ : S) (height top : ℕ)
      (x : IsRoomyIndex laws s height top) (found : root pager s ≡ (s₁, ok top))
      (step : IsStep laws s s₁) where
    same : laws.pages s₁ ≡ laws.pages s
    same = step.same_pages

    below :
        Inserted laws s₁ height top 0
          (2 ^ 64)
          k
          t
          (insert_into pager (suc (pager.num_pages s₁)) top k t s₁)
    below =
        insert_into_cases laws k t fits is_tid (suc (pager.num_pages s₁)) height top 0 0 (2 ^ 64) s₁
          (omega (arith, laws.num_pages_lem s₁ step.quiet.valid, ap length same, x.roomy.shallow))
          (nonzero_of (laws.pages s) height top 0 0 (2 ^ 64) x.roomy.tree) step.quiet
          (subst (λ z. IsSub z height top 0 0 (2 ^ 64)) (sym same) x.roomy.tree) (omega arith)
          (omega arith)

    module _ (u : S) (moves : Moves laws 0 (2 ^ 64) top s₁ u) where
      at_meta : get_elem? (laws.pages u) 0 ≡ some x.roomy.meta
      at_meta =
          moves.spares 0 x.roomy.meta (ap (λ z. get_elem? z 0) same ∙ x.roomy.meta_page) (inl refl)

      still_shallow : height < length (laws.pages u)
      still_shallow = omega (arith, x.roomy.shallow, moves.longer, ap length same)

      lacked :
          ((v : Tid) → ¬ Holds (laws.pages s₁) height top k v)
          → (v : Tid) → ¬ Holds (laws.pages s) height top k v
      lacked absent v held = absent v (subst (λ z. Holds z height top k v) (sym same) held)

      quiet_case :
          insert_into pager (suc (pager.num_pages s₁)) top k t s₁ ≡ (u, ok none)
          → ((v : Tid) → ¬ Holds (laws.pages s₁) height top k v)
          → Takes laws s₁ u height top 0 (2 ^ 64) k t
          → Insertion s height top k t (insert_tree pager k t s)
      quiet_case run absent takes = (
        u,
        inl (
          height,
          top,
          quiet_run k t s s₁ u top found run,
          record {
            quiet = moves.quiet;
            roomy = record {
              meta = x.roomy.meta;
              meta_page = at_meta;
              meta_size = x.roomy.meta_size;
              marked = x.roomy.marked;
              rooted = x.roomy.rooted;
              tree = IsSub-loosen (laws.pages u) height top 0 (2 ^ 64) takes.sub;
              shallow = still_shallow;
            };
          },
          lacked absent,
          subst (λ z. Adds (Holds z height top) (Holds (laws.pages u) height top) k t) same
              takes.adds,
        ),
      )

      split_case :
          (sp : Split)
          → insert_into pager (suc (pager.num_pages s₁)) top k t s₁ ≡ (u, ok (some sp))
          → ((v : Tid) → ¬ Holds (laws.pages s₁) height top k v)
          → Splits laws s₁ u height top 0 (2 ^ 64) k t sp
          → Insertion s height top k t (insert_tree pager k t s)
      split_case sp run absent splits =
          let few = laws.few_pages u moves.quiet.valid in
          let (m, at_top, w) =
            IsSub-Within (laws.pages u) height top 0 (ordinal sp.sep_key) splits.left in
          let (m', at_right, w') =
            IsSub-Within (laws.pages u) height sp.right (ordinal sp.sep_key) (2 ^ 64)
              splits.right in
          elim (grow_root_cases laws u top sp x.roomy.meta moves.quiet at_meta x.roomy.meta_size
            splits.fits (omega (arith, few, some-length (laws.pages u) top m at_top))
            (omega (arith, few, some-length (laws.pages u) sp.right m' at_right))) [
              | inr (e, v, failed, quiet, others) ↦
                  (v, inr (inr (e, grow_run k t s s₁ u top found sp run ∙ failed, quiet)))
              | inl (v, n, done, quiet, made, pages) ↦ (
                v,
                inl (
                  suc height,
                  length (laws.pages u),
                  grow_run k t s s₁ u top found sp run ∙ done,
                  record {
                    quiet = quiet;
                    roomy =
                        taller laws s₁ u v height top k t sp n x.roomy.meta splits made at_meta
                          x.roomy.meta_size x.roomy.marked still_shallow few pages;
                  },
                  lacked absent,
                  subst
                      (λ z.
                        Adds (Holds z height top)
                          (Holds (laws.pages v) (suc height) (length (laws.pages u))) k t)
                      same
                      (taller_adds laws s₁ u v height top k t sp n x.roomy.meta splits made at_meta
                        x.roomy.meta_size x.roomy.marked still_shallow few pages),
                ),
              )
            ]

    rooted_cases : Insertion s height top k t (insert_tree pager k t s)
    rooted_cases =
        let (u, moves, r) = below in
        elim r [
          | inl (none, run, absent, takes) ↦ quiet_case u moves run absent takes
          | inl (some sp, run, absent, splits) ↦ split_case u moves sp run absent splits
          | inr (inl (run, unchanged, (v, held))) ↦ (
            u,
            inr (
                inl (
                  failed_run k t s s₁ u top found duplicate_key run,
                  record {
                    quiet = moves.quiet;
                    roomy = subst (λ z. IsRoomy z height top) (sym (unchanged ∙ same)) x.roomy;
                  },
                  unchanged ∙ same,
                  (v, subst (λ z. Holds z height top k v) same held),
                )),
          )
          | inr (inr (e, run)) ↦
              (u, inr (inr (e, failed_run k t s s₁ u top found (pager_error e) run, moves.quiet)))
        ]

  -- On an index whose nodes have room, over a pool that keeps its promises, Insert of a key and a tuple id always
  -- returns. It adds exactly that entry to those the tree holds, under a key that it did not hold, and leaves an
  -- index whose nodes have room; or it reports a duplicate key, which the tree does hold, and leaves the same
  -- pages; or it returns an error of the pool, and then every change of a page was declared to the pool.
  pub insert_tree_cases :
      (height top k : ℕ) (t : Tid) (s : S)
      → IsRoomyIndex laws s height top
      → k < 2 ^ 64
      → IsTid t
      → (u : S) × (((height' : ℕ) × (top' : ℕ) × (insert_tree pager k t s ≡ (u, ok tt))
            × IsRoomyIndex laws u height' top'
            × ((v : Tid) → ¬ Holds (laws.pages s) height top k v)
            × Adds (Holds (laws.pages s) height top) (Holds (laws.pages u) height' top') k t)
          ⊎ (((insert_tree pager k t s ≡ (u, err duplicate_key))
                × IsRoomyIndex laws u height top
                × (laws.pages u ≡ laws.pages s)
                × ((v : Tid) × Holds (laws.pages s) height top k v))
              ⊎ ((e : E) × (insert_tree pager k t s ≡ (u, err (pager_error e))) × IsQuiet laws u)))
  insert_tree_cases height top k t s x fits is_tid =
      elim (root_cases laws height top s (IsRoomyIndex-IsIndex laws s height top x)) [
        | inl (s₁, found, step) ↦ rooted_cases k t fits is_tid s s₁ height top x found step
        | inr (e, u, failed, step) ↦
            (u, inr (inr (e, failed_root k t s u (pager_error e) failed, step.quiet)))
      ]
