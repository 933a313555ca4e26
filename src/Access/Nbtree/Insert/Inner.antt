-- ===== src/Access/Nbtree/Insert/Inner.antt =====
-- insertInto at an internal node, behind the return of its own call for the child.
use native.Mathlib.Decide.{dec_lt}
use mathlib.Core.Path.{subst}
use mini_db.Base.{
  some-length, get_elem?-set_ne, get_elem?-set_self, ℕ, suc, ◌≤◌, ◌<◌, ◌≡◌, ◌≢◌, refl, sym, ap, ◌∙◌,
  ◌⊎◌, inl, inr, false, List, [], ◌∷◌, ◌++◌, length, set, Option, none, some, get_elem?,
  length-append, arith,
}
use mini_db.Base.Outcome.{Outcome, ok, err}
use mini_db.Page.Slotted.Reads.{get_elem?-append_left, get_elem?-snoc}
use mini_db.Access.Heap.{Tid}
use mini_db.Access.Pager.{Pager, PagerLaws}
use mini_db.Access.Nbtree.Node.{key_count, full, ordinal, internal_cap, insert_internal_at}
use mini_db.Access.Nbtree.Node.Fields.{key, child}
use mini_db.Access.Nbtree.Tree.{Split, TreeError, pager_error, absorb}
use mini_db.Access.Nbtree.Tree.Index.{Holds}
use mini_db.Access.Nbtree.Tree.Span.{low, high, IsInnerPage, IsSub, IsSub-Within}
use mini_db.Access.Nbtree.Tree.Fan.{Adds}
use mini_db.Access.Nbtree.Insert.Solo.{IsSolo, solo_load, store-IsSolo, solo_release}
use mini_db.Access.Nbtree.Tree.Inners.{HasPut, HasHalves, inner_put}
use mini_db.Access.Nbtree.Insert.Outcomes.{Moves, Takes, Splits, Grows}
use mini_db.Access.Nbtree.Insert.Steps.{Moves-trans, stays, changes, leaves}
use mini_db.Access.Nbtree.Insert.Divide.{split_internal_node_cases}
use mini_db.Access.Nbtree.Insert.Apart.{
  descends, still-IsHeld, still_there, still-IsSolo, IsBeside, beside,
}
use mini_db.Access.Nbtree.Insert.Runs.{
  full-false, full-true, quiet_run, roomy_run, divided_run, undivided_run,
}
use mini_db.Access.Nbtree.Insert.Families.{
  taken_sub, taken_adds, roomy_sub, roomy_adds, left_half, right_half, up_bounds, up_fits,
  divided_adds,
}

module _ {S P E : Type 0} {pager : Pager S P E} (laws : PagerLaws pager) where
  module _ (s₀ s₁ u : S) (pid c h lo hi k : ℕ) (t : Tid) (p : P) (n : List ℕ)
      (solo : IsSolo laws s₀ (length (laws.pages s₀)) s₁ (laws.pages s₀) p pid n)
      (at : get_elem? (laws.pages s₀) pid ≡ some n) (x : IsInnerPage pid n lo hi)
      (subs : (i : ℕ)
        → i ≤ key_count n
        → IsSub
            (laws.pages s₀)
            h
            (child n i)
            1
            (low lo (key n) i)
            (high hi (key_count n) (key n) i))
      (inside : c ≤ key_count n)
      (moved : Moves laws (low lo (key n) c) (high hi (key_count n) (key n) c) (child n c) s₁ u)
      (same : laws.pages s₁ ≡ laws.pages s₀) where
    abbrev ps : List (List ℕ)
    ps = laws.pages s₀

    abbrev now : List (List ℕ)
    now = laws.pages u

    abbrev low_c : ℕ
    low_c = low lo (key n) c

    abbrev high_c : ℕ
    high_c = high hi (key_count n) (key n) c

    down : Moves laws lo hi pid s₀ u
    down = descends laws s₀ s₁ u pid c h lo hi p n solo at x subs inside moved

    there : get_elem? now pid ≡ some n
    there = still_there laws s₀ s₁ u pid c h lo hi p n solo at x subs inside moved

    -- What the node's call makes of the child's result.
    abbrev pub Absorbed : S × Outcome (TreeError E) (Option Split) → Type 0
    Absorbed result =
        (v : S) × Moves laws lo hi pid s₀ v
        × (((r : Option Split) × (result ≡ (v, ok r)) × Grows laws s₀ v (suc h) pid lo hi k t r)
            ⊎ ((e : E) × (result ≡ (v, err (pager_error e)))))

    before :
        (after : ℕ → Tid → Type 0)
        → Adds (Holds (laws.pages s₁) h (child n c)) after k t
        → Adds (Holds ps h (child n c)) after k t
    before after a = subst (λ z. Adds (Holds z h (child n c)) after k t) same a

    -- Let go as clean, without a change here.
    pub let_go_clean :
        (v : S) × (pager.unpin_page pid false u ≡ (v, ok tt))
        × Moves laws lo hi pid s₀ v
        × (laws.pages v ≡ now)
    let_go_clean =
        let held = still-IsHeld laws s₀ s₁ u pid c h lo hi p n solo at x subs inside moved in
        let (v, run, quiet, pages, keeps) = leaves laws u p pid moved.quiet held in
        (
          v,
          run,
          Moves-trans laws lo hi pid s₀ u v down
              (stays laws lo hi pid u v x.nonzero quiet pages (λ y xid h l a. keeps y xid h a)),
          pages,
        )

    absorb-none :
        Takes laws s₁ u h (child n c) low_c high_c k t → Absorbed (absorb pager pid p c none u)
    absorb-none takes =
        let (v, run, moves, pages) = let_go_clean in
        let agrees = λ (q : ℕ) (m : List ℕ) (e : get_elem? now q ≡ some m) (ne : q ≢ pid).
          ap (λ z. get_elem? z q) pages ∙ e in
        let beside_v =
          beside laws s₀ s₁ u pid c h lo hi p n solo at x subs inside moved (laws.pages v) agrees in
        (
          v,
          moves,
          inl (
            none,
            quiet_run pager pid p c u v run,
            record {
              sub =
                  taken_sub ps now (laws.pages v) h pid lo hi c k t n at x subs inside beside_v
                    takes.sub (before (Holds now h (child n c)) takes.adds)
                    (ap (λ z. get_elem? z pid) pages ∙ there);
              adds =
                  taken_adds ps now (laws.pages v) h pid lo hi c k t n at x subs inside beside_v
                    takes.sub (before (Holds now h (child n c)) takes.adds)
                    (ap (λ z. get_elem? z pid) pages ∙ there);
            },
          ),
        )

    -- The separator put in.
    module _ (sp : Split) (splits : Splits laws s₁ u h (child n c) low_c high_c k t sp) (m : List ℕ)
        (put : HasPut n c sp.sep_key sp.right m) where
      abbrev written : S
      written = pager.store p m u

      held-IsSolo : IsSolo laws u (length now) u now p pid n
      held-IsSolo = still-IsSolo laws s₀ s₁ u pid c h lo hi p n solo at x subs inside moved

      written-IsSolo : IsSolo laws u (length now) written now p pid m
      written-IsSolo = store-IsSolo laws u (length now) u now p pid n held-IsSolo m put.frame.size

      -- The files that come of it.
      module _ (base : List (List ℕ)) (a : List ℕ) (v : S) (pages : laws.pages v ≡ set base pid a)
          (has : (q : ℕ) (z : List ℕ) → get_elem? now q ≡ some z → get_elem? base q ≡ some z) where
        abbrev qs : List (List ℕ)
        qs = laws.pages v

        agrees : (q : ℕ) (z : List ℕ) → get_elem? now q ≡ some z → q ≢ pid → get_elem? qs q ≡ some z
        agrees q z e ne =
            ap (λ y. get_elem? y q) pages
            ∙ (get_elem?-set_ne base pid q a (λ f. ne (sym f)) ∙ has q z e)

        beside_qs : IsBeside ps now qs h lo hi c n
        beside_qs = beside laws s₀ s₁ u pid c h lo hi p n solo at x subs inside moved qs agrees

        both_add :
            Adds
              (Holds ps h (child n c))
              (λ l w. Holds now h (child n c) l w ⊎ Holds now h sp.right l w)
              k
              t
        both_add =
            before (λ l w. Holds now h (child n c) l w ⊎ Holds now h sp.right l w) splits.adds

        at_a : pid < length base → get_elem? qs pid ≡ some a
        at_a l = ap (λ y. get_elem? y pid) pages ∙ get_elem?-set_self base pid a l

        module _ (room : key_count a < internal_cap) (same_node : a ≡ m)
            (at_m : get_elem? qs pid ≡ some m) where
          roomy-Takes : Takes laws s₀ v (suc h) pid lo hi k t
          roomy-Takes = record {
            sub =
                roomy_sub ps now qs h pid lo hi c k t n at x subs inside beside_qs sp.sep_key
                  sp.right m put splits.low_sep splits.sep_high splits.left splits.right both_add
                  (subst (λ z. key_count z < internal_cap) same_node room) at_m;
            adds =
                roomy_adds ps now qs h pid lo hi c k t n at x subs inside beside_qs sp.sep_key
                  sp.right m put splits.low_sep splits.sep_high splits.left splits.right both_add
                  at_m;
          }

        module _ (up : ℕ) (r : List ℕ) (halves : HasHalves m up a r)
            (full : key_count m ≡ internal_cap) (at_pid : get_elem? qs pid ≡ some a)
            (at_new : get_elem? qs (length now) ≡ some r) (nonzero : 0 < length now) where
          divided-Splits :
              Splits laws s₀ v (suc h) pid lo hi k t (record { sep_key = up; right = length now })
          divided-Splits =
              let bounds =
                up_bounds ps now qs h pid lo hi c k t n at x subs inside beside_qs sp.sep_key
                  sp.right m put splits.low_sep splits.sep_high splits.left splits.right both_add
                  (length now) up a r halves full at_pid at_new in
              record {
                fits =
                    up_fits ps now qs h pid lo hi c k t n at x subs inside beside_qs sp.sep_key
                      sp.right m put splits.low_sep splits.sep_high splits.left splits.right
                      both_add (length now) up a r halves full at_pid at_new;
                low_sep = bounds.0;
                sep_high = bounds.1;
                left =
                    left_half ps now qs h pid lo hi c k t n at x subs inside beside_qs sp.sep_key
                      sp.right m put splits.low_sep splits.sep_high splits.left splits.right
                      both_add (length now) up a r halves full at_pid at_new;
                right =
                    right_half ps now qs h pid lo hi c k t n at x subs inside beside_qs sp.sep_key
                      sp.right m put splits.low_sep splits.sep_high splits.left splits.right
                      both_add (length now) up a r halves full at_pid at_new nonzero;
                adds =
                    divided_adds ps now qs h pid lo hi c k t n at x subs inside beside_qs sp.sep_key
                      sp.right m put splits.low_sep splits.sep_high splits.left splits.right
                      both_add (length now) up a r halves full at_pid at_new;
              }

      -- The page is let go as dirty.
      module _ (missed : pager.load p u ≡ n)
          (run : insert_internal_at c sp.sep_key sp.right n ≡ some m) where
        here : pager.load p written ≡ m
        here = solo_load laws u (length now) written now p pid m written-IsSolo

        absorb_roomy : key_count m < internal_cap → Absorbed (absorb pager pid p c (some sp) u)
        absorb_roomy room =
            let (v, gone, quiet, pages, keeps) =
              solo_release laws u (length now) written now p pid m written-IsSolo in
            (
              v,
              Moves-trans laws lo hi pid s₀ u v down (
                  changes laws lo hi pid u v now m x.nonzero quiet pages (omega arith) (λ q z e. e)
                    keeps),
              inl (
                none,
                roomy_run pager pid p c u v sp n m missed run here (full-false m put.inner room)
                    gone,
                roomy-Takes now m v pages (λ q z e. e) room refl
                    (at_a now m v pages (λ q z e. e) held-IsSolo.inside),
              ),
            )

        absorb_packed : key_count m ≡ internal_cap → Absorbed (absorb pager pid p c (some sp) u)
        absorb_packed full =
            elim (split_internal_node_cases laws u (length now) now p pid m put.frame put.inner
              (omega (arith, full)) (omega (arith, full)) written written-IsSolo) [
                | inr (e, w, failed, solo_w) ↦
                    let (v, gone, quiet, pages, keeps) =
                      solo_release laws u (length now) w now p pid m solo_w in
                    (
                      v,
                      Moves-trans laws lo hi pid s₀ u v down (
                          changes laws lo hi pid u v now m x.nonzero quiet pages (omega arith)
                            (λ q z f. f) keeps),
                      inr (
                        e,
                        undivided_run pager pid p c u v sp n m missed run here w e
                            (full-true m put.inner full) failed gone,
                      ),
                    )
                | inl (w, up, a, r, split, solo_w, halves) ↦
                    let grown = now ++ r ∷ [] in
                    let has = λ (q : ℕ) (z : List ℕ) (e : get_elem? now q ≡ some z).
                      get_elem?-append_left now (r ∷ []) q (some-length now q z e) ∙ e in
                    let (v, gone, quiet, pages, keeps) =
                      solo_release laws u (length now) w grown p pid a solo_w in
                    let at_new =
                      ap (λ z. get_elem? z (length now)) pages
                      ∙ (get_elem?-set_ne grown pid (length now) a
                            (λ e. omega (arith, held-IsSolo.inside))
                          ∙ get_elem?-snoc now r) in
                    (
                      v,
                      Moves-trans laws lo hi pid s₀ u v down (
                          changes laws lo hi pid u v grown a x.nonzero quiet pages
                            (omega (arith, length-append now (r ∷ []))) has keeps),
                      inl (
                        some (record { sep_key = up; right = length now }),
                        divided_run pager pid p c u v sp n m missed run here w
                            (record { sep_key = up; right = length now })
                            (full-true m put.inner full) split gone,
                        divided-Splits grown a v pages has up r halves full
                            (at_a grown a v pages has solo_w.inside) at_new
                            (omega (arith, held-IsSolo.inside)),
                      ),
                    )
              ]

    -- What becomes of the child's split.
    absorb-some :
        (sp : Split)
        → Splits laws s₁ u h (child n c) low_c high_c k t sp
        → Absorbed (absorb pager pid p c (some sp) u)
    absorb-some sp splits =
        let held-IsSolo = still-IsSolo laws s₀ s₁ u pid c h lo hi p n solo at x subs inside moved in
        let (z, at_right, w) =
          IsSub-Within now h sp.right (ordinal sp.sep_key) high_c splits.right in
        let (m, run, put) =
          inner_put n c sp.sep_key sp.right x.frame x.inner x.room inside splits.fits (
            omega
              (arith, some-length now sp.right z at_right, laws.few_pages u moved.quiet.valid)) in
        let here = solo_load laws u (length now) u now p pid n held-IsSolo in
        elim (dec_lt (key_count m) internal_cap) [
          | yes room ↦ absorb_roomy sp splits m put here run room
          | no packed ↦ absorb_packed sp splits m put here run (omega (arith, put.count, x.room))
        ]

    pub absorb_cases :
        (r : Option Split)
        → Grows laws s₁ u h (child n c) low_c high_c k t r
        → Absorbed (absorb pager pid p c r u)
    absorb_cases none takes = absorb-none takes
    absorb_cases (some sp) splits = absorb-some sp splits
