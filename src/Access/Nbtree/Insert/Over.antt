-- ===== src/Access/Nbtree/Insert/Over.antt =====
-- The index behind a split of its root.
use mathlib.Core.Path.{subst}
use native.Mathlib.Decide.{dec_lt}
use mini_db.Base.{
  some-length, get_elem?-set_ne, get_elem?-set_self, ℕ, suc, ◌-◌, ◌^◌, ◌≤◌, ◌<◌, ◌≡◌, sym, ap, ◌∙◌,
  ◌⊎◌, inl, inr, List, [], ◌∷◌, ◌++◌, length, set, some, get_elem?, length-append, length-set,
  arith,
}
use mini_db.Page.Slotted.Reads.{get_elem?-append_left, get_elem?-snoc}
use mini_db.Access.Heap.{Tid}
use mini_db.Access.Pager.{Pager, PagerLaws}
use mini_db.Access.Nbtree.Node.{key_count, ordinal}
use mini_db.Access.Nbtree.Node.Fields.{key, child}
use mini_db.Access.Nbtree.Tree.{Split, magic, meta_magic, set_meta_root}
use mini_db.Access.Nbtree.Tree.Index.{Holds}
use mini_db.Access.Nbtree.Tree.Span.{
  low, high, IsSub, Kept, IsSub-kept, Holds-kept, Holds-kept_back,
}
use mini_db.Access.Nbtree.Tree.Fan.{FanHolds, Adds, recast}
use mini_db.Access.Nbtree.Tree.Inners.{fan-IsSub}
use mini_db.Access.Nbtree.Insert.Outcomes.{Splits}
use mini_db.Access.Nbtree.Insert.Apart.{Adds-map}
use mini_db.Access.Nbtree.Insert.Families.{Holds-FanHolds}
use mini_db.Access.Nbtree.Insert.RootNode.{
  IsRootNode, magic-set_meta_root, meta_root-set_meta_root, length-set_meta_root,
}
use mini_db.Access.Nbtree.Tree.Roomy.{IsRoomy, IsSub-loosen}

-- A new root over two halves of the key space.
module _ (now qs : List (List ℕ)) (h left sep right new : ℕ) (n : List ℕ)
    (made : IsRootNode n sep left right) (low_sep : 0 < ordinal sep)
    (sep_high : ordinal sep < 2 ^ 64) (left_sub : IsSub now h left 1 0 (ordinal sep))
    (right_sub : IsSub now h right 1 (ordinal sep) (2 ^ 64)) (kept : (a b : ℕ) → Kept now qs a b)
    (at : get_elem? qs new ≡ some n) (nonzero : 0 < new) where
  key_is : (j : ℕ) → j < key_count n → ordinal (key n j) ≡ ordinal sep
  key_is j l =
      ap ordinal (ap (key n) {x = j} {y = 0} (omega (arith, made.one_key)) ∙ made.separator)

  two_subs :
      (i : ℕ)
      → i ≤ key_count n
      → IsSub qs h (child n i) 1 (low 0 (key n) i) (high (2 ^ 64) (key_count n) (key n) i)
  two_subs i l = elim (dec_lt 0 i) [
    | no first ↦
        let e : 0 ≡ i = omega arith in
        recast qs h left (child n i) 0 (low 0 (key n) i) (ordinal sep)
          (high (2 ^ 64) (key_count n) (key n) i) (sym made.left_child ∙ ap (child n) e)
          (ground arith) (ground (arith, made.one_key, key_is i))
          (IsSub-kept now qs h left 0 (ordinal sep) (kept 0 (ordinal sep)) left_sub)
    | yes second ↦
        let e : 1 ≡ i = omega (arith, made.one_key) in
        recast qs h right (child n i) (ordinal sep) (low 0 (key n) i) (2 ^ 64)
          (high (2 ^ 64) (key_count n) (key n) i) (sym made.right_child ∙ ap (child n) e)
          (ground (arith, made.one_key, key_is (i - 1))) (ground (arith, made.one_key))
          (IsSub-kept now qs h right (ordinal sep) (2 ^ 64) (kept (ordinal sep) (2 ^ 64)) right_sub)
  ]

  over_sub : IsSub qs (suc h) new 1 0 (2 ^ 64)
  over_sub =
      fan-IsSub qs h new 0 (2 ^ 64) n at nonzero made.frame made.inner (omega (arith, made.one_key))
        (omega (arith, made.one_key))
        (record {
          run = record {
            sorted = λ i j l u. absurd (omega (arith, made.one_key));
            from = λ j l. omega (arith, key_is j l);
            to = λ j l. omega (arith, key_is j l);
          };
          subs = two_subs;
        })

  over_forth :
      (l : ℕ) (u : Tid) → Holds now h left l u ⊎ Holds now h right l u → Holds qs (suc h) new l u
  over_forth l u (inl held) = (
    n,
    0,
    at,
    omega arith,
    subst (λ z. Holds qs h z l u) (sym made.left_child)
        (Holds-kept now qs h left 0 (ordinal sep) l u (kept 0 (ordinal sep)) left_sub held),
  )
  over_forth l u (inr held) = (
    n,
    1,
    at,
    omega (arith, made.one_key),
    subst (λ z. Holds qs h z l u) (sym made.right_child)
        (Holds-kept now qs h right (ordinal sep) (2 ^ 64) l u (kept (ordinal sep) (2 ^ 64))
          right_sub held),
  )

  over_back :
      (l : ℕ) (u : Tid) → Holds qs (suc h) new l u → Holds now h left l u ⊎ Holds now h right l u
  over_back l u held = pick (Holds-FanHolds qs h new n l u at held)
    where
      pick :
          FanHolds qs h (key_count n) (child n) l u → Holds now h left l u ⊎ Holds now h right l u
      pick (i, b, z) = elim (dec_lt 0 i) [
        | no first ↦ inl (
            Holds-kept_back now qs h left 0 (ordinal sep) l u (kept 0 (ordinal sep)) left_sub (
              subst (λ y. Holds qs h y l u)
                (ap (child n) {x = i} {y = 0} (omega arith) ∙ made.left_child) z))
        | yes second ↦ inr (
            Holds-kept_back now qs h right (ordinal sep) (2 ^ 64) l u (kept (ordinal sep) (2 ^ 64))
              right_sub
              (subst (λ y. Holds qs h y l u)
                (ap (child n) {x = i} {y = 1} (omega (arith, made.one_key)) ∙ made.right_child) z))
      ]

module _ {S P E : Type 0} {pager : Pager S P E} (laws : PagerLaws pager) where
  -- The index behind a split of the root.
  module _ (s u v : S) (height top k : ℕ) (t : Tid) (sp : Split) (n meta : List ℕ)
      (splits : Splits laws s u height top 0 (2 ^ 64) k t sp)
      (made : IsRootNode n sp.sep_key top sp.right)
      (at_meta : get_elem? (laws.pages u) 0 ≡ some meta) (size : length meta ≡ 8192)
      (marked : magic meta ≡ meta_magic) (shallow : height < length (laws.pages u))
      (fits : length (laws.pages u) < 2 ^ 32)
      (pages : laws.pages v
        ≡ set (laws.pages u ++ n ∷ []) 0 (set_meta_root (length (laws.pages u)) meta)) where
    abbrev now : List (List ℕ)
    now = laws.pages u

    kept : (a b : ℕ) → Kept now (laws.pages v) a b
    kept a b = λ q m nonzero here w.
        ap (λ z. get_elem? z q) pages
        ∙ (get_elem?-set_ne (now ++ n ∷ []) 0 q (set_meta_root (length now) meta) (λ e. omega arith)
            ∙ (get_elem?-append_left now (n ∷ []) q (some-length now q m here) ∙ here))

    at_new : get_elem? (laws.pages v) (length now) ≡ some n
    at_new =
        ap (λ z. get_elem? z (length now)) pages
        ∙ (get_elem?-set_ne (now ++ n ∷ []) 0 (length now) (set_meta_root (length now) meta)
              (λ e. omega (arith, some-length now 0 meta at_meta))
            ∙ get_elem?-snoc now n)

    pub taller : IsRoomy (laws.pages v) (suc height) (length now)
    taller = record {
      meta = set_meta_root (length now) meta;
      meta_page =
          ap (λ z. get_elem? z 0) pages
          ∙ get_elem?-set_self (now ++ n ∷ []) 0 (set_meta_root (length now) meta)
              (omega (arith, length-append now (n ∷ [])));
      meta_size = length-set_meta_root (length now) meta ∙ size;
      marked = magic-set_meta_root (length now) meta ∙ marked;
      rooted = meta_root-set_meta_root (length now) meta size fits;
      tree = IsSub-loosen (laws.pages v) (suc height) (length now) 0 (2 ^ 64) (
          over_sub now (laws.pages v) height top sp.sep_key sp.right (length now) n made
            splits.low_sep splits.sep_high splits.left splits.right kept at_new
            (omega (arith, shallow)));
      shallow = omega (
        arith,
        shallow,
        ap length pages,
        length-set (now ++ n ∷ []) 0 (set_meta_root (length now) meta),
        length-append now (n ∷ []),
      );
    }

    pub taller_adds :
        Adds (Holds (laws.pages s) height top) (Holds (laws.pages v) (suc height) (length now)) k t
    taller_adds =
        Adds-map (Holds (laws.pages s) height top)
          (λ l w. Holds now height top l w ⊎ Holds now height sp.right l w)
          (Holds (laws.pages s) height top) (Holds (laws.pages v) (suc height) (length now)) k t
          (λ l w z. z) (λ l w z. z)
          (over_forth now (laws.pages v) height top sp.sep_key sp.right (length now) n made
            splits.low_sep splits.sep_high splits.left splits.right kept at_new
            (omega (arith, shallow)))
          (over_back now (laws.pages v) height top sp.sep_key sp.right (length now) n made
            splits.low_sep splits.sep_high splits.left splits.right kept at_new
            (omega (arith, shallow)))
          splits.adds
