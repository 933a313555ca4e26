-- ===== src/Access/Nbtree/Insert/Found.antt =====
-- Search behind Insert.
use mathlib.Core.Path.{subst}
use mini_db.Base.{ℕ, ◌^◌, ◌<◌, ◌≡◌, ◌≢◌, refl, sym, ◌⊎◌, inl, inr, Option, none, some}
use mini_db.Base.Exec.{Exec, ◌>>◌}
use mini_db.Base.Outcome.{Outcome, ok, err}
use mini_db.Access.Heap.{Tid}
use mini_db.Access.Pager.{Pager, PagerLaws}
use mini_db.Access.Nbtree.Node.Fields.{IsTid}
use mini_db.Access.Nbtree.Tree.{TreeError, pager_error, duplicate_key, insert_tree, search_tree}
use mini_db.Access.Nbtree.Tree.Index.{Holds}
use mini_db.Access.Nbtree.Tree.Lookup.{search_tree_stays}
use mini_db.Access.Nbtree.Tree.Fan.{Adds}
use mini_db.Access.Nbtree.Tree.Roomy.{IsRoomyIndex, IsRoomyIndex-IsIndex}
use mini_db.Access.Nbtree.Insert.Whole.{insert_tree_cases}

module _ {S P E : Type 0} {pager : Pager S P E} (laws : PagerLaws pager) where
  -- Insert of (k, t), and Search of l if it returned.
  abbrev insert_then_search : ℕ → Tid → ℕ → Exec S (TreeError E) (Option Tid)
  insert_then_search k t l = insert_tree pager k t >> search_tree pager l

  -- What the search tells of the entries that the tree held before the insertion.
  abbrev pub Tells : S → ℕ → ℕ → ℕ → Tid → ℕ → Option Tid → Type 0
  Tells s height top k t l none = (l ≢ k) × ((v : Tid) → ¬ Holds (laws.pages s) height top l v)
  Tells s height top k t l (some v) =
      ((l ≡ k) × (v ≡ t)) ⊎ ((l ≢ k) × Holds (laws.pages s) height top l v)

  searched :
      (s u v : S) (k : ℕ) (t : Tid) (l : ℕ) (r : Outcome (TreeError E) (Option Tid))
      → insert_tree pager k t s ≡ (u, ok tt)
      → search_tree pager l u ≡ (v, r)
      → (insert_tree pager k t >> search_tree pager l) s ≡ (v, r)
  searched s u v k t l r inserted found = rw (inserted, found) refl

  refused :
      (s u : S) (k : ℕ) (t : Tid) (l : ℕ) (e : TreeError E)
      → insert_tree pager k t s ≡ (u, err e)
      → (insert_tree pager k t >> search_tree pager l) s ≡ (u, err e)
  refused s u k t l e failed = rw failed refl

  module _ (s : S) (height top k : ℕ) (t : Tid) (after : ℕ → Tid → Type 0)
      (absent : (v : Tid) → ¬ Holds (laws.pages s) height top k v)
      (adds : Adds (Holds (laws.pages s) height top) after k t) where
    hit : (l : ℕ) (v : Tid) → after l v → Tells s height top k t l (some v)
    hit l v held = elim (adds.only l v held) [
      | inr new ↦ inl new
      | inl old ↦ inr (λ e. absent v (subst (λ z. Holds (laws.pages s) height top z v) e old), old)
    ]

    miss : (l : ℕ) → ((v : Tid) → ¬ after l v) → Tells s height top k t l none
    miss l nothing = (
      λ e. nothing t (subst (λ z. after z t) (sym e) adds.added),
      λ v held. nothing v (adds.covers l v held),
    )

  -- On an index whose nodes have room, over a pool that keeps its promises, Insert of (k, t) and then Search of any
  -- key l always return: the key was a duplicate, which the tree holds; or the pool failed; or the search
  -- finds t under k, and under any other key what the tree held there before the insertion, or nothing if it
  -- held nothing there.
  pub search_tree-insert_tree :
      (height top k : ℕ) (t : Tid) (l : ℕ) (s : S)
      → IsRoomyIndex laws s height top
      → k < 2 ^ 64
      → IsTid t
      → l < 2 ^ 64
      → (u : S) × (((r : Option Tid) × ((insert_tree pager k t >> search_tree pager l) s
              ≡ (u, ok r))
            × Tells s height top k t l r)
          ⊎ ((((insert_tree pager k t >> search_tree pager l) s ≡ (u, err duplicate_key))
                × ((v : Tid) × Holds (laws.pages s) height top k v))
              ⊎ ((e : E) × ((insert_tree pager k t >> search_tree pager l) s
                    ≡ (u, err (pager_error e))))))
  search_tree-insert_tree height top k t l s x fits is_tid fits_too =
      let (u, r) = insert_tree_cases laws height top k t s x fits is_tid in
      elim r [
        | inr (inl (run, still, same, held)) ↦
            (u, inr (inl (refused s u k t l duplicate_key run, held)))
        | inr (inr (e, run, quiet)) ↦ (u, inr (inr (e, refused s u k t l (pager_error e) run)))
        | inl (height', top', run, roomy, absent, adds) ↦
            let (v, index, pages, z) =
              search_tree_stays laws height' top' l u
                (IsRoomyIndex-IsIndex laws u height' top' roomy) fits_too in
            let after = Holds (laws.pages u) height' top' in
            elim z [
              | inl (w, found, held) ↦ (
                v,
                inl (
                  some w,
                  searched s u v k t l (ok (some w)) run found,
                  hit s height top k t after absent adds l w held,
                ),
              )
              | inr (inl (found, nothing)) ↦ (
                v,
                inl (
                  none,
                  searched s u v k t l (ok none) run found,
                  miss s height top k t after absent adds l nothing,
                ),
              )
              | inr (inr (e, failed)) ↦
                  (v, inr (inr (e, searched s u v k t l (err (pager_error e)) run failed)))
            ]
      ]
