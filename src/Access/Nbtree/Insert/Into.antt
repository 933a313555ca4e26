-- ===== src/Access/Nbtree/Insert/Into.antt =====
-- insertInto on a subtree.
use mathlib.Core.Path.{subst}
use mini_db.Base.{
  ℕ, zero, suc, ◌^◌, ◌≤◌, ◌<◌, ◌≡◌, sym, ◌∙◌, inl, inr, List, length, none, some, get_elem?, arith,
}
use mini_db.Base.Outcome.{ok}
use mini_db.Access.Heap.{Tid}
use mini_db.Access.Pager.{Pager, PagerLaws}
use mini_db.Access.Nbtree.Node.{key_count, ordinal, child_index}
use mini_db.Access.Nbtree.Node.Fields.{IsTid, key, child, child_at_lem}
use mini_db.Access.Nbtree.Node.Search.{child_index_cases}
use mini_db.Access.Nbtree.Tree.{pager_error, duplicate_key, insert_into, insert_into_leaf}
use mini_db.Access.Nbtree.Tree.Index.{IsUnder, Holds}
use mini_db.Access.Nbtree.Tree.Answer.{child-IsAnswer}
use mini_db.Access.Nbtree.Tree.Lookup.{IsQuiet}
use mini_db.Access.Nbtree.Tree.Span.{low, high, IsInnerPage, IsSub}
use mini_db.Access.Nbtree.Tree.Bounds.{Holds-span, span-IsUnder}
use mini_db.Access.Nbtree.Insert.Solo.{IsSolo, solo_load}
use mini_db.Access.Nbtree.Insert.Outcomes.{Inserted, Inserted-same}
use mini_db.Access.Nbtree.Insert.Steps.{arrives, stays, solo-IsQuiet}
use mini_db.Access.Nbtree.Insert.Leaf.{leaf_cases}
use mini_db.Access.Nbtree.Insert.Apart.{IsUnder-span}
use mini_db.Access.Nbtree.Insert.Inner.{let_go_clean, absorb_cases}
use mini_db.Access.Nbtree.Insert.Runs.{fetch_run, leaf_run, below_run, refused_run}

pub nonzero_of : (ps : List (List ℕ)) (h pid least lo hi : ℕ) → IsSub ps h pid least lo hi → 0 < pid
nonzero_of ps zero pid least lo hi (n, at, x) = x.nonzero
nonzero_of ps (suc h) pid least lo hi (n, at, x, subs) = x.nonzero

-- A child's answer for its parent.
module _ (ps : List (List ℕ)) (h pid lo hi c k : ℕ) (n : List ℕ) (at : get_elem? ps pid ≡ some n)
    (x : IsInnerPage pid n lo hi)
    (subs : (i : ℕ)
      → i ≤ key_count n
      → IsSub ps h (child n i) 1 (low lo (key n) i) (high hi (key_count n) (key n) i))
    (inside : c ≤ key_count n) (under : IsUnder n c k) where
  lacks : ((v : Tid) → ¬ Holds ps h (child n c) k v) → (v : Tid) → ¬ Holds ps (suc h) pid k v
  lacks absent =
      child-IsAnswer ps h pid k c n none at inside under
        (λ i l v b held.
          let (from, to) =
            Holds-span ps h (child n i) 1 (low lo (key n) i) (high hi (key_count n) (key n) i) l v
              (subs i b) held in
          span-IsUnder ps n i l lo hi x.run b from to)
        absent

module _ {S P E : Type 0} {pager : Pager S P E} (laws : PagerLaws pager) (k : ℕ) (t : Tid)
    (fits : k < 2 ^ 64) (is_tid : IsTid t) where
  -- The call for the child and what comes behind it.
  module _ (fuel h pid c lo hi : ℕ) (s₀ s₁ : S) (p : P) (n : List ℕ)
      (got : pager.fetch_page pid s₀ ≡ (s₁, ok p))
      (solo : IsSolo laws s₀ (length (laws.pages s₀)) s₁ (laws.pages s₀) p pid n)
      (at : get_elem? (laws.pages s₀) pid ≡ some n) (x : IsInnerPage pid n lo hi)
      (subs : (i : ℕ)
        → i ≤ key_count n
        → IsSub
            (laws.pages s₀)
            h
            (child n i)
            1
            (low lo (key n) i)
            (high hi (key_count n) (key n) i))
      (inside : c ≤ key_count n) (under : IsUnder n c k) (taken : child_index k n ≡ some c) where
    inner_cases :
        Inserted laws s₁ h
          (child n c)
          (low lo (key n) c)
          (high hi (key_count n) (key n) c)
          k
          t
          (insert_into pager fuel (child n c) k t s₁)
        → Inserted laws s₀ (suc h) pid lo hi k t (insert_into pager (suc fuel) pid k t s₀)
    inner_cases (u, moved, r) =
        let ps = laws.pages s₀ in
        let same = (solo-IsQuiet laws s₀ (length ps) s₁ ps p pid n solo at).1 in
        let here = solo_load laws s₀ (length ps) s₁ ps p pid n solo in
        let child_here = child_at_lem n x.frame c (omega (arith, x.room)) in
        let (v, gone, moves, pages) =
          let_go_clean laws s₀ s₁ u pid c h lo hi k t p n solo at x subs inside moved same in
        elim r [
          | inr (inr (e, run)) ↦ (
            v,
            moves,
            inr (
                inr (
                  e,
                  refused_run pager fuel pid k t s₀ s₁ p n got here c (child n c) x.inner taken
                      child_here u v (pager_error e) run gone,
                )),
          )
          | inr (inl (run, unchanged, (w, held))) ↦ (
            v,
            moves,
            inr (
                inl (
                  refused_run pager fuel pid k t s₀ s₁ p n got here c (child n c) x.inner taken
                      child_here u v duplicate_key run gone,
                  pages ∙ (unchanged ∙ same),
                  (w, (n, c, at, inside, subst (λ z. Holds z h (child n c) k w) same held)),
                )),
          )
          | inl (o, run, absent, grows) ↦
              let (y, moves_y, z) =
                absorb_cases laws s₀ s₁ u pid c h lo hi k t p n solo at x subs inside moved same o
                  grows in
              let below =
                below_run pager fuel pid k t s₀ s₁ p n got here c (child n c) x.inner taken
                  child_here u o run in
              (
                y,
                moves_y,
                elim z [
                  | inl (a, done, grown) ↦ inl (
                    a,
                    below ∙ done,
                    lacks ps h pid lo hi c k n at x subs inside under (λ w held.
                        absent w (subst (λ q. Holds q h (child n c) k w) (sym same) held)),
                    grown,
                  )
                  | inr (e, failed) ↦ inr (inr (e, below ∙ failed))
                ],
              )
        ]

  -- insertInto on a subtree, with fuel for its height.
  pub insert_into_cases :
      (fuel h pid least lo hi : ℕ) (s : S)
      → h < fuel
      → 0 < pid
      → IsQuiet laws s
      → IsSub (laws.pages s) h pid least lo hi
      → lo ≤ ordinal k
      → ordinal k < hi
      → Inserted laws s h pid lo hi k t (insert_into pager fuel pid k t s)
  insert_into_cases zero h pid least lo hi s b nonzero q sub from to = absurd (omega arith)
  insert_into_cases (suc fuel) zero pid least lo hi s b nonzero q (n, at, x) from to =
      elim (arrives laws s pid n q at) [
        | inr (e, u, failed, quiet, same, keeps) ↦ (
          u,
          stays laws lo hi pid s u nonzero quiet same keeps,
          inr (inr (e, fetch_run pager fuel pid k t s u e failed)),
        )
        | inl (p, s₁, got, solo) ↦
            Inserted-same laws s zero pid lo hi k t (insert_into pager (suc fuel) pid k t s)
              (insert_into_leaf pager pid p k t s₁)
              (leaf_run pager fuel pid k t s s₁ p n got
                (solo_load laws s (length (laws.pages s)) s₁ (laws.pages s) p pid n solo) x.leaf)
              (leaf_cases laws s s₁ pid least lo hi k t p n solo at x fits is_tid from to)
      ]
  insert_into_cases (suc fuel) (suc h) pid least lo hi s b nonzero q (n, at, x, subs) from to =
      elim (arrives laws s pid n q at) [
        | inr (e, u, failed, quiet, same, keeps) ↦ (
          u,
          stays laws lo hi pid s u nonzero quiet same keeps,
          inr (inr (e, fetch_run pager fuel pid k t s u e failed)),
        )
        | inl (p, s₁, got, solo) ↦
            let ps = laws.pages s in
            let (quiet, same) = solo-IsQuiet laws s (length ps) s₁ ps p pid n solo at in
            let (c, taken, inside, below, above) =
              child_index_cases n k x.frame (omega (arith, x.room)) x.run.sorted fits in
            let under : IsUnder n c k = (below, above) in
            let (from_c, to_c) = IsUnder-span n c k lo hi inside under from to in
            let sub_c = subs c inside in
            inner_cases fuel h pid c lo hi s s₁ p n got solo at x subs inside under taken (
              insert_into_cases fuel h (child n c) 1 (low lo (key n) c)
                (high hi (key_count n) (key n) c) s₁ (omega arith)
                (nonzero_of ps h (child n c) 1 (low lo (key n) c) (high hi (key_count n) (key n) c)
                  sub_c)
                quiet
                (subst
                  (λ z.
                    IsSub z h (child n c) 1 (low lo (key n) c) (high hi (key_count n) (key n) c))
                  (sym same) sub_c)
                from_c to_c)
      ]
