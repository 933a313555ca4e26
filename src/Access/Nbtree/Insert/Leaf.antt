-- ===== src/Access/Nbtree/Insert/Leaf.antt =====
-- insertInto at a leaf.
use native.Mathlib.Decide.{dec_lt}
use mini_db.Base.{
  some-length, get_elem?-set_ne, get_elem?-set_self, ℕ, ◌+◌, ◌^◌, ◌≤◌, ◌<◌, ◌≡◌, ◌≢◌, refl, ap, ◌∙◌,
  ◌⊎◌, inl, inr, true, false, List, [], ◌∷◌, ◌++◌, length, none, some, get_elem?, length-append,
  arith,
}
use mini_db.Page.Slotted.Reads.{get_elem?-append_left, get_elem?-snoc}
use mini_db.Access.Heap.{Tid}
use mini_db.Access.Pager.{Pager, PagerLaws}
use mini_db.Access.Nbtree.Node.{key_count, full, search, insert_leaf_at, ordinal, leaf_cap}
use mini_db.Access.Nbtree.Node.Fields.{IsTid, key, tid, key-lt}
use mini_db.Access.Nbtree.Node.Search.{search_cases}
use mini_db.Access.Nbtree.Tree.{insert_into_leaf}
use mini_db.Access.Nbtree.Tree.Index.{Holds}
use mini_db.Access.Nbtree.Tree.Answer.{leaf-IsAnswer}
use mini_db.Access.Nbtree.Tree.Span.{IsLeafPage}
use mini_db.Access.Nbtree.Tree.Fan.{Adds}
use mini_db.Access.Nbtree.Insert.Solo.{IsSolo, solo_load, store-IsSolo, solo_release}
use mini_db.Access.Nbtree.Tree.Leaves.{
  IsLeafOf, LeafHolds, LeafHolds-Holds, Holds-LeafHolds, leaf_put,
}
use mini_db.Access.Nbtree.Tree.Halves.{AreHalves}
use mini_db.Access.Nbtree.Insert.Outcomes.{Splits, Inserted}
use mini_db.Access.Nbtree.Insert.Split.{split_leaf_node_cases}
use mini_db.Access.Nbtree.Insert.Steps.{stays, changes, leaves, solo-IsQuiet}
use mini_db.Access.Nbtree.Insert.LeafRuns.{
  full-false, full-true, taken_run, roomy_run, split_run, failed_run,
}

module _ {S P E : Type 0} {pager : Pager S P E} (laws : PagerLaws pager) (s₀ s : S)
    (pid least lo hi k : ℕ) (t : Tid) (p : P) (n : List ℕ)
    (solo : IsSolo laws s₀ (length (laws.pages s₀)) s (laws.pages s₀) p pid n)
    (at : get_elem? (laws.pages s₀) pid ≡ some n) (x : IsLeafPage pid n least lo hi)
    (fits : k < 2 ^ 64) (is_tid : IsTid t) (from : lo ≤ ordinal k) (to : ordinal k < hi) where
  abbrev ps : List (List ℕ)
  ps = laws.pages s₀

  as_leaf : IsLeafOf n lo hi
  as_leaf = record { frame = x.frame; leaf = x.leaf; run = x.run }

  here : pager.load p s ≡ n
  here = solo_load laws s₀ (length ps) s ps p pid n solo

  taken :
      (i : ℕ)
      → search k n ≡ some (i, true)
      → i < key_count n
      → key n i ≡ k
      → Inserted laws s₀ 0 pid lo hi k t (insert_into_leaf pager pid p k t s)
  taken i found inside e =
      let (quiet, same) = solo-IsQuiet laws s₀ (length ps) s ps p pid n solo at in
      let (u, run, quiet_u, same_u, keeps) = leaves laws s p pid quiet solo.held in
      (
        u,
        stays laws lo hi pid s₀ u x.nonzero quiet_u (same_u ∙ same)
            (λ y xid held l a. keeps y xid (solo.keeps y xid held l a) a),
        inr (
            inl (
              taken_run pager pid p k t s n i here u found run,
              same_u ∙ same,
              (tid n i, (n, i, at, inside, e, refl)),
            )),
      )

  -- The leaf with the entry.
  module _ (i : ℕ) (m : List ℕ) (missed : search k n ≡ some (i, false))
      (absent : (j : ℕ) → j < key_count n → key n j ≢ k) (put : insert_leaf_at i k t n ≡ some m)
      (y : IsLeafOf m lo hi) (count : key_count m ≡ key_count n + 1)
      (adds : Adds (LeafHolds n) (LeafHolds m) k t) where
    abbrev written : S
    written = pager.store p m s

    written-IsSolo : IsSolo laws s₀ (length ps) written ps p pid m
    written-IsSolo = store-IsSolo laws s₀ (length ps) s ps p pid n solo m y.frame.size

    now : pager.load p written ≡ m
    now = solo_load laws s₀ (length ps) written ps p pid m written-IsSolo

    lacks : (v : Tid) → ¬ Holds ps 0 pid k v
    lacks = leaf-IsAnswer ps pid k n at absent

    roomy :
        key_count m < leaf_cap
        → Inserted laws s₀ 0 pid lo hi k t (insert_into_leaf pager pid p k t s)
    roomy room =
        let (u, run, quiet, pages, keeps) =
          solo_release laws s₀ (length ps) written ps p pid m written-IsSolo in
        let at_u : get_elem? (laws.pages u) pid ≡ some m =
          ap (λ z. get_elem? z pid) pages ∙ get_elem?-set_self ps pid m solo.inside in
        (
          u,
          changes laws lo hi pid s₀ u ps m x.nonzero quiet pages (omega arith) (λ q z e. e) keeps,
          inl (
            none,
            roomy_run pager pid p k t s n i here m missed put now u (full-false m y.leaf room) run,
            lacks,
            record {
              sub = (
                m,
                at_u,
                record {
                  nonzero = x.nonzero;
                  frame = y.frame;
                  leaf = y.leaf;
                  filled = omega (arith, count);
                  room = room;
                  run = y.run;
                },
              );
              adds = record {
                covers = λ l v h.
                    LeafHolds-Holds (laws.pages u) pid m l v at_u
                      (adds.covers l v (Holds-LeafHolds ps pid n l v at h));
                added = LeafHolds-Holds (laws.pages u) pid m k t at_u adds.added;
                only = λ l v h.
                    elim (adds.only l v (Holds-LeafHolds (laws.pages u) pid m l v at_u h)) [
                      | inl old ↦ inl (LeafHolds-Holds ps pid n l v at old)
                      | inr new ↦ inr new
                    ];
              };
            },
          ),
        )

    -- Both halves in the file.
    halves_Splits :
        (u : S) (a r : List ℕ)
        → AreHalves m a r lo hi
        → key_count m ≡ leaf_cap
        → get_elem? (laws.pages u) pid ≡ some a
        → get_elem? (laws.pages u) (length ps) ≡ some r
        → Splits laws s₀ u 0 pid lo hi k t (record { sep_key = key r 0; right = length ps })
    halves_Splits u a r z full at_a at_r = record {
      fits = key-lt r z.right.frame 0;
      low_sep = z.low_sep;
      sep_high = z.sep_high;
      left = (
        a,
        at_a,
        record {
          nonzero = x.nonzero;
          frame = z.left.frame;
          leaf = z.left.leaf;
          filled = omega (arith, z.left_count, full);
          room = omega (arith, z.left_count, full);
          run = z.left.run;
        },
      );
      right = (
        r,
        at_r,
        record {
          nonzero = omega (arith, solo.inside);
          frame = z.right.frame;
          leaf = z.right.leaf;
          filled = omega (arith, z.right_count, full);
          room = omega (arith, z.right_count, full);
          run = z.right.run;
        },
      );
      adds = record {
        covers = λ l v h.
            in_file l v (z.covers l v (adds.covers l v (Holds-LeafHolds ps pid n l v at h)));
        added = in_file k t (z.covers k t adds.added);
        only = λ l v h. elim (adds.only l v (z.only l v (from_file l v h))) [
          | inl old ↦ inl (LeafHolds-Holds ps pid n l v at old)
          | inr new ↦ inr new
        ];
      };
    }
      where
        in_file :
            (l : ℕ) (v : Tid)
            → LeafHolds a l v ⊎ LeafHolds r l v
            → Holds (laws.pages u) 0 pid l v ⊎ Holds (laws.pages u) 0 (length ps) l v
        in_file l v (inl h) = inl (LeafHolds-Holds (laws.pages u) pid a l v at_a h)
        in_file l v (inr h) = inr (LeafHolds-Holds (laws.pages u) (length ps) r l v at_r h)

        from_file :
            (l : ℕ) (v : Tid)
            → Holds (laws.pages u) 0 pid l v ⊎ Holds (laws.pages u) 0 (length ps) l v
            → LeafHolds a l v ⊎ LeafHolds r l v
        from_file l v (inl h) = inl (Holds-LeafHolds (laws.pages u) pid a l v at_a h)
        from_file l v (inr h) = inr (Holds-LeafHolds (laws.pages u) (length ps) r l v at_r h)

    packed :
        key_count m ≡ leaf_cap
        → Inserted laws s₀ 0 pid lo hi k t (insert_into_leaf pager pid p k t s)
    packed full =
        elim (split_leaf_node_cases laws s₀ (length ps) ps p pid m lo hi y (omega (arith, full))
          (omega (arith, full)) written written-IsSolo) [
            | inr (e, v, failed, solo_v) ↦
                let (u, run, quiet, pages, keeps) =
                  solo_release laws s₀ (length ps) v ps p pid m solo_v in
                (
                  u,
                  changes laws lo hi pid s₀ u ps m x.nonzero quiet pages (omega arith) (λ q z e. e)
                      keeps,
                  inr (
                      inr (
                        e,
                        failed_run pager pid p k t s n i here m missed put now v u e
                            (full-true m y.leaf full) failed run,
                      )),
                )
            | inl (v, a, r, split, solo_v, halves) ↦
                let grown = ps ++ r ∷ [] in
                let (u, run, quiet, pages, keeps) =
                  solo_release laws s₀ (length ps) v grown p pid a solo_v in
                let at_a =
                  ap (λ z. get_elem? z pid) pages ∙ get_elem?-set_self grown pid a solo_v.inside in
                let at_r =
                  ap (λ z. get_elem? z (length ps)) pages
                  ∙ (get_elem?-set_ne grown pid (length ps) a (λ e. omega (arith, solo.inside))
                      ∙ get_elem?-snoc ps r) in
                (
                  u,
                  changes laws lo hi pid s₀ u grown a x.nonzero quiet pages
                      (omega (arith, length-append ps (r ∷ [])))
                      (λ q z e. get_elem?-append_left ps (r ∷ []) q (some-length ps q z e) ∙ e)
                      keeps,
                  inl (
                    some (record { sep_key = key r 0; right = length ps }),
                    split_run pager pid p k t s n i here m missed put now v u
                        (record { sep_key = key r 0; right = length ps }) (full-true m y.leaf full)
                        split run,
                    lacks,
                    halves_Splits u a r halves full at_a at_r,
                  ),
                )
          ]

  pub leaf_cases : Inserted laws s₀ 0 pid lo hi k t (insert_into_leaf pager pid p k t s)
  leaf_cases =
      let (i, found, run, bound, r) =
        search_cases n k x.frame (omega (arith, x.room)) x.run.sorted in
      elim r [
        | inl (hit, inside, e) ↦ taken i (run ∙ ap (λ z. some (i, z)) hit) inside e
        | inr (miss, absent) ↦
            let (m, put, y, count, adds) =
              leaf_put n lo hi i k t as_leaf x.room is_tid fits bound absent from to in
            let missed = run ∙ ap (λ z. some (i, z)) miss in
            elim (dec_lt (key_count m) leaf_cap) [
              | yes room ↦ roomy i m missed absent put y count adds room
              | no packed_leaf ↦
                  packed i m missed absent put y count adds (omega (arith, count, x.room))
            ]
      ]
