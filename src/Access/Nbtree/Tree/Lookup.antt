-- ===== src/Access/Nbtree/Tree/Lookup.antt =====
-- Search finds the entries of the tree, and nothing else.
use mathlib.Core.Path.{subst}
use mathlib.Core.Option.{some-injective}
use mini_db.Base.{
  ℕ, zero, suc, ◌^◌, ◌<◌, ◌≡◌, refl, sym, ap, ◌∙◌, ◌⊎◌, inl, inr, true, false, List, length, Option,
  none, some, get_elem?, arith,
}
use mini_db.Base.Outcome.{Outcome, ok, err}
use mini_db.Access.Heap.{Tid}
use mini_db.Access.Pager.{Pager, PagerLaws, PinLaws, pins_back}
use mini_db.Access.Nbtree.Node.{is_leaf}
use mini_db.Access.Nbtree.Node.Fields.{child, tid}
use mini_db.Access.Nbtree.Tree.{
  TreeError, pager_error, meta_root, leaf_lookup, child_for, root, search_from, search_tree,
}
use mini_db.Access.Nbtree.Tree.Index.{Holds, IsTree, IsIndexed, IsIndex}
use mini_db.Access.Nbtree.Tree.Answer.{
  IsAnswer, leaf_lookup_cases, child_for_cases, leaf-IsAnswer, child-IsAnswer,
}

module _ {S P E : Type 0} {pager : Pager S P E} (laws : PagerLaws pager) where
  -- A state with every change declared, and a step that changes no page and no pin.
  pub record IsQuiet (s : S) : Type 0 where
    pub valid : laws.Valid s
    pub settled : laws.pages s ≡ laws.declared s

  pub record IsStep (s t : S) : Type 0 where
    pub quiet : IsQuiet t
    pub same_pages : laws.pages t ≡ laws.pages s
    pub same_pins : (counts : PinLaws laws) (q : ℕ) → counts.pins t q ≡ counts.pins s q

  -- A page is fetched, read and let go as clean.
  visited :
      (s : S) (pid : ℕ) (n : List ℕ)
      → IsQuiet s
      → get_elem? (laws.pages s) pid ≡ some n
      → ((p : P) × (s₁ u : S) × (pager.fetch_page pid s ≡ (s₁, ok p))
          × (pager.load p s₁ ≡ n)
          × (pager.unpin_page pid false s₁ ≡ (u, ok tt))
          × IsStep s u)
        ⊎ ((e : E) × (u : S) × (pager.fetch_page pid s ≡ (u, err e)) × IsStep s u)
  visited s pid n q at = elim (laws.fetch_page_lem pid s q.valid) [
    | inr (e, u, failed, v, pages, declared) ↦ inr (
      e,
      u,
      failed,
      record {
        quiet = record { valid = v; settled = pages ∙ (q.settled ∙ sym declared) };
        same_pages = pages;
        same_pins = λ counts. counts.fetch_page_fails s u e pid q.valid failed;
      },
    )
    | inl (p, s₁, got, v, held, pages, declared) ↦
        let loaded : pager.load p s₁ ≡ n =
          some-injective (pager.load p s₁) n
            (sym (laws.load_lem s₁ p pid v held) ∙ (ap (λ z. get_elem? z pid) pages ∙ at)) in
        let settled = pages ∙ (q.settled ∙ sym declared) in
        let (u, unpinned, w, pages₂, declared₂) = laws.unpin_clean_lem s₁ p pid v held settled in
        inl (
          p,
          s₁,
          u,
          got,
          loaded,
          unpinned,
          record {
            quiet = record { valid = w; settled = pages₂ ∙ (settled ∙ sym declared₂) };
            same_pages = pages₂ ∙ pages;
            same_pins =
                λ counts. pins_back laws counts s s₁ u p pid false q.valid got v held unpinned;
          },
        )
  ]

  abbrev Looks : S → ℕ → ℕ → ℕ → (S × Outcome (TreeError E) (Option Tid)) → Type 0
  Looks s h pid k result =
      (u : S) × IsStep s u
      × (((r : Option Tid) × (result ≡ (u, ok r)) × IsAnswer (laws.pages s) h pid k r)
          ⊎ ((e : E) × (result ≡ (u, err (pager_error e)))))

  module _ (fuel pid k : ℕ) (s s₁ u : S) (p : P) (n : List ℕ)
      (got : pager.fetch_page pid s ≡ (s₁, ok p)) (loaded : pager.load p s₁ ≡ n)
      (unpinned : pager.unpin_page pid false s₁ ≡ (u, ok tt)) where
    at_leaf :
        (r : Option Tid)
        → is_leaf n ≡ true
        → leaf_lookup k n ≡ some r
        → search_from pager (suc fuel) pid k s ≡ (u, ok r)
    unfolding search_from
    at_leaf r leaf found =
        ground (arith, got, ap is_leaf loaded ∙ leaf, ap (leaf_lookup k) loaded ∙ found, unpinned)

    at_inner :
        (c : ℕ)
        → is_leaf n ≡ false
        → child_for k n ≡ some c
        → search_from pager (suc fuel) pid k s ≡ search_from pager fuel c k u
    unfolding search_from
    at_inner c inner found =
        ground (arith, got, ap is_leaf loaded ∙ inner, ap (child_for k) loaded ∙ found, unpinned)

  fetch_fails :
      (fuel pid k : ℕ) (s u : S) (e : E)
      → pager.fetch_page pid s ≡ (u, err e)
      → search_from pager (suc fuel) pid k s ≡ (u, err (pager_error e))
  unfolding search_from
  fetch_fails fuel pid k s u e failed = ground (arith, failed)

  -- The descent from the page of a subtree, with fuel for its height.
  search_from_cases :
      (fuel h pid k : ℕ) (s : S)
      → h < fuel
      → k < 2 ^ 64
      → IsQuiet s
      → IsTree (laws.pages s) h pid
      → Looks s h pid k (search_from pager fuel pid k s)
  search_from_cases zero h pid k s b fits q tree = absurd (omega arith)
  search_from_cases (suc fuel) zero pid k s b fits q (n, at, f, leaf, small, sorted) =
      elim (visited s pid n q at) [
        | inr (e, u, failed, step) ↦ (u, step, inr (e, fetch_fails fuel pid k s u e failed))
        | inl (p, s₁, u, got, loaded, unpinned, step) ↦ (
          u,
          step,
          elim (leaf_lookup_cases n k f small sorted) [
            | inl (j, found, inside, is_key) ↦ inl (
              some (tid n j),
              at_leaf fuel pid k s s₁ u p n got loaded unpinned (some (tid n j)) leaf found,
              (n, j, at, inside, is_key, refl),
            )
            | inr (missed, absent) ↦ inl (
              none,
              at_leaf fuel pid k s s₁ u p n got loaded unpinned none leaf missed,
              leaf-IsAnswer (laws.pages s) pid k n at absent,
            )
          ],
        )
      ]
  search_from_cases (suc fuel) (suc h) pid k s b fits q
        (n, at, f, inner, small, sorted, subs, apart) =
      elim (visited s pid n q at) [
        | inr (e, u, failed, step) ↦ (u, step, inr (e, fetch_fails fuel pid k s u e failed))
        | inl (p, s₁, u, got, loaded, unpinned, step) ↦
            let (c, taken, inside, under) = child_for_cases n k f small sorted fits in
            let next = at_inner fuel pid k s s₁ u p n got loaded unpinned (child n c) inner taken in
            let (v, later, r) =
              search_from_cases fuel h (child n c) k u (omega arith) fits step.quiet
                (subst (λ ps. IsTree ps h (child n c)) (sym step.same_pages) (subs c inside)) in
            (
              v,
              record {
                quiet = later.quiet;
                same_pages = later.same_pages ∙ step.same_pages;
                same_pins = λ counts q. later.same_pins counts q ∙ step.same_pins counts q;
              },
              elim r [
                | inr (e, failed) ↦ inr (e, next ∙ failed)
                | inl (o, answered, answer) ↦ inl (
                  o,
                  next ∙ answered,
                  child-IsAnswer (laws.pages s) h pid k c n o at inside under apart
                      (subst (λ ps. IsAnswer ps h (child n c) k o) step.same_pages answer),
                )
              ],
            )
      ]

  -- The root that the meta page records.
  pub root_cases :
      (height top : ℕ) (s : S)
      → IsIndex laws s height top
      → ((u : S) × (root pager s ≡ (u, ok top)) × IsStep s u)
        ⊎ ((e : E) × (u : S) × (root pager s ≡ (u, err (pager_error e))) × IsStep s u)
  unfolding root
  root_cases height top s x =
      elim (visited s 0 x.indexed.meta (record { valid = x.valid; settled = x.settled })
        x.indexed.meta_page) [
          | inr (e, u, failed, step) ↦ inr (e, u, ground (arith, failed), step)
          | inl (p, s₁, u, got, loaded, unpinned, step) ↦
              inl (u, ground (arith, got, ap meta_root loaded ∙ x.indexed.rooted, unpinned), step)
        ]

  IsIndex-step :
      (height top : ℕ) (s u : S)
      → IsIndex laws s height top
      → IsStep s u
      → IsIndex laws u height top
  IsIndex-step height top s u x step = record {
    valid = step.quiet.valid;
    settled = step.quiet.settled;
    indexed = subst (λ ps. IsIndexed ps height top) (sym step.same_pages) x.indexed;
  }

  search_tree-root :
      (k top : ℕ) (s u : S)
      → root pager s ≡ (u, ok top)
      → search_tree pager k s ≡ search_from pager (suc (pager.num_pages u)) top k u
  unfolding search_tree
  search_tree-root k top s u h = ground (arith, h)

  search_tree-failed :
      (k : ℕ) (s u : S) (e : TreeError E)
      → root pager s ≡ (u, err e)
      → search_tree pager k s ≡ (u, err e)
  unfolding search_tree
  search_tree-failed k s u e h = ground (arith, h)

  pub search_tree_stays :
      (height top k : ℕ) (s : S)
      → IsIndex laws s height top
      → k < 2 ^ 64
      → (u : S) × IsIndex laws u height top
        × IsStep s u
        × (((t : Tid) × (search_tree pager k s ≡ (u, ok (some t)))
              × Holds (laws.pages s) height top k t)
            ⊎ (((search_tree pager k s ≡ (u, ok none))
                  × ((t : Tid) → ¬ Holds (laws.pages s) height top k t))
                ⊎ ((e : E) × (search_tree pager k s ≡ (u, err (pager_error e))))))
  search_tree_stays height top k s x fits = elim (root_cases height top s x) [
    | inr (e, u, failed, step) ↦ (
      u,
      IsIndex-step height top s u x step,
      step,
      inr (inr (e, search_tree-failed k s u (pager_error e) failed)),
    )
    | inl (u, found, step) ↦
        let (v, later, r) =
          search_from_cases (suc (pager.num_pages u)) height top k u
            (omega (
              arith,
              laws.num_pages_lem u step.quiet.valid,
              ap length step.same_pages,
              x.indexed.shallow,
            ))
            fits step.quiet
            (subst (λ ps. IsTree ps height top) (sym step.same_pages) x.indexed.tree) in
        let whole : IsStep s v = record {
          quiet = later.quiet;
          same_pages = later.same_pages ∙ step.same_pages;
          same_pins = λ counts q. later.same_pins counts q ∙ step.same_pins counts q;
        } in
        let start = search_tree-root k top s u found in
        (
          v,
          IsIndex-step height top s v x whole,
          whole,
          elim r [
            | inr (e, failed) ↦ inr (inr (e, start ∙ failed))
            | inl (some t, run, held) ↦
                inl (t, start ∙ run, subst (λ ps. Holds ps height top k t) step.same_pages held)
            | inl (none, run, absent) ↦ inr (
                inl (
                  start ∙ run,
                  λ t y. absent t (subst (λ ps. Holds ps height top k t) (sym step.same_pages) y),
                ))
          ],
        )
  ]

  -- On an index, over a pool that keeps its promises, Search of a key always returns and leaves the same pages,
  -- each with as many pins as before: it finds a tuple id that the tree holds under the key, or none if the
  -- tree holds none, or returns an error of the pool.
  pub search_tree_cases :
      (counts : PinLaws laws) (height top k : ℕ) (s : S)
      → IsIndex laws s height top
      → k < 2 ^ 64
      → (u : S) × IsIndex laws u height top
        × (laws.pages u ≡ laws.pages s)
        × ((q : ℕ) → counts.pins u q ≡ counts.pins s q)
        × (((t : Tid) × (search_tree pager k s ≡ (u, ok (some t)))
              × Holds (laws.pages s) height top k t)
            ⊎ (((search_tree pager k s ≡ (u, ok none))
                  × ((t : Tid) → ¬ Holds (laws.pages s) height top k t))
                ⊎ ((e : E) × (search_tree pager k s ≡ (u, err (pager_error e))))))
  search_tree_cases counts height top k s x fits =
      let (u, index, step, r) = search_tree_stays height top k s x fits in
      (u, index, step.same_pages, step.same_pins counts, r)
