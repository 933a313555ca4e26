-- ===== src/Access/Heap/Insert.antt =====
-- Insert adds a tuple to the pile.
use mini_db.Base.{
  ℕ, ◌+◌, ◌-◌, ◌≤◌, ◌<◌, ◌≡◌, refl, sym, ap, ◌∙◌, ◌⊎◌, inl, inr, List, [], ◌∷◌, ◌++◌, length,
  get_elem?, set, All, true, arith, ltb,
}
use native.Mathlib.Decide.{dec_lt}
use mathlib.Core.Path.{subst}
use mathlib.Core.Option.{some-injective}
use mini_db.Base.Endian.{IsBytes}
use mini_db.Base.Outcome.{ok, err}
use mini_db.Page.Slotted.{slot_count, free_space, insert_tuple}
use mini_db.Page.Slotted.Laws.{insert_tuple_fits, insert_tuple_full}
use mini_db.Page.Slotted.Reads.{get_elem?-snoc}
use mini_db.Access.Pager.{Pager, PagerLaws}
use mini_db.Access.Heap.{Tid, HeapError, pool_error, grow, insert}
use mini_db.Access.Heap.Pile.{IsPage, all_rows, row_at, HasNew, HasNew-last}
use mini_db.Access.Heap.Ends.{last_of, set-last, All-at}
use mini_db.Access.Heap.Grow.{grow_cases}
use mini_db.Access.Heap.State.{
  IsHeap, HasInserted, HasFailed, InsertCases, store_release, IsHeap-last, HasFailed-pool,
}

module _ {S P E : Type 0} {pager : Pager S P E} (laws : PagerLaws pager) where
  -- What grow does to a pile that Insert has left as it was.
  resumed :
      (s u : S) (src : List ℕ)
      → laws.pages u ≡ laws.pages s
      → insert pager src s ≡ grow pager src u
      → InsertCases laws (grow pager) u src
      → InsertCases laws (insert pager) s src
  resumed s u src pages run (inl (tid, t, made, k)) = inl (
    tid,
    t,
    run ∙ made,
    record { heap = k.heap; grown = subst (λ z. HasNew z src tid (laws.pages t)) pages k.grown },
  )
  resumed s u src pages run (inr (e, t, failed, k)) = inr (
    e,
    t,
    run ∙ failed,
    record {
      heap = k.heap;
      same_rows = k.same_rows ∙ ap all_rows pages;
      same_lookups = λ o. k.same_lookups o ∙ ap (λ x. row_at x o) pages;
      cause = k.cause;
    },
  )

  -- The last page, fetched.
  module _ (s t : S) (src : List ℕ) (h : IsHeap laws s) (b : IsBytes src) (p : P)
      (ys : List (List ℕ)) (x : List ℕ) (last : laws.pages s ≡ ys ++ x ∷ [])
      (positive : ltb 0 (pager.num_pages s) ≡ true) (number : pager.num_pages s - 1 ≡ length ys)
      (got : pager.fetch_page (length ys) s ≡ (t, ok p)) (valid : laws.Valid t)
      (held : laws.Held p (length ys) t) (pages : laws.pages t ≡ laws.pages s)
      (declared : laws.declared t ≡ laws.declared s) where
    content : pager.load p t ≡ x
    content = some-injective (pager.load p t) x (
        sym (laws.load_lem t p (length ys) valid held)
        ∙ (ap (λ z. get_elem? z (length ys)) (pages ∙ last) ∙ get_elem?-snoc ys x))

    x-IsPage : IsPage x
    x-IsPage =
        All-at IsPage (laws.pages s) (length ys) x h.paged
          (ap (λ z. get_elem? z (length ys)) last ∙ get_elem?-snoc ys x)

    abbrev new : Tid
    new = record { page = length ys; slot = slot_count x }

    append_fits : length src + 4 ≤ free_space x → InsertCases laws (insert pager) s src
    unfolding insert
    append_fits small =
        let (q, run, added) = insert_tuple_fits x src (slot_count x) x-IsPage b small in
        let grown = HasNew-last ys x q src (subst (All IsPage) last h.paged) added in
        let (u, unpinned, v, pages₂, declared₂) =
          store_release laws t p (length ys) q valid held added.well_formed.size in
        let (heap, now) =
          IsHeap-last laws u ys x q (laws.pages t) (laws.declared t) v pages₂ declared₂
            (pages ∙ last) (declared ∙ (sym h.settled ∙ last)) grown.paged in
        inl (
          new,
          u,
          ground (arith, positive, number, got, ap (insert_tuple src) content ∙ run, unpinned),
          record {
            heap = heap;
            grown =
                subst (λ z. HasNew z src new (laws.pages u)) (sym last)
                  (subst (HasNew (ys ++ x ∷ []) src new) (sym now) grown);
          },
        )

    append_full : free_space x < length src + 4 → InsertCases laws (insert pager) s src
    unfolding insert
    append_full large =
        let full = insert_tuple_full x src large in
        let (v₁, held₁, pages₁, declared₁) =
          laws.store_lem t p (length ys) x valid held x-IsPage.size in
        let same : laws.pages (pager.store p x t) ≡ laws.pages s =
          pages₁ ∙ (ap (λ z. set z (length ys) x) (pages ∙ last) ∙ (set-last ys x x ∙ sym last)) in
        let settled : laws.pages (pager.store p x t) ≡ laws.declared (pager.store p x t) =
          same ∙ (h.settled ∙ sym (declared₁ ∙ declared)) in
        let (u, unpinned, v, pages₂, declared₂) =
          laws.unpin_clean_lem (pager.store p x t) p (length ys) v₁ held₁ settled in
        resumed s u src (pages₂ ∙ same)
          (ground (arith, positive, number, got, ap (insert_tuple src) content ∙ full, unpinned))
          (grow_cases laws u src
            (record {
              valid = v;
              settled = pages₂ ∙ (settled ∙ sym declared₂);
              paged = subst (All IsPage) (sym (pages₂ ∙ same)) h.paged;
            })
            b)

  -- On a heap file whose changes were all declared, over a pool that keeps its promises, Insert of bytes
  -- always returns, leaves such a heap file again, and either adds the tuple at the end of the pile, under
  -- a tuple id that addressed nothing and addresses it now, while every other id keeps its tuple, or
  -- returns an error of the pool, or that of a tuple larger than a page allows, with all tuples as they were.
  pub insert_cases :
      (s : S) (src : List ℕ)
      → IsHeap laws s
      → IsBytes src
      → ((tid : Tid) × (t : S) × (insert pager src s ≡ (t, ok tid)) × HasInserted laws s t src tid)
        ⊎ ((e : HeapError E) × (t : S) × (insert pager src s ≡ (t, err e))
            × HasFailed laws s t src e)
  unfolding insert
  insert_cases s src h b = elim (dec_lt 0 (pager.num_pages s)) [
    | no empty ↦ resumed s s src refl (ground arith) (grow_cases laws s src h b)
    | yes positive ↦
        let (ys, x, last, number) =
          last_of (laws.pages s) (pager.num_pages s - 1)
            (omega (arith, laws.num_pages_lem s h.valid)) in
        elim (laws.fetch_page_lem (length ys) s h.valid) [
          | inr (e, t, failed, valid, pages, declared) ↦ inr (
            pool_error e,
            t,
            ground (arith, positive, number, failed),
            HasFailed-pool laws s t src e h valid pages declared,
          )
          | inl (p, t, got, valid, held, pages, declared) ↦
              elim (dec_lt (free_space x) (length src + 4)) [
                | yes large ↦
                    append_full s t src h b p ys x last (ground arith) (sym number) got valid held
                      pages declared large
                | no small ↦
                    append_fits s t src h b p ys x last (ground arith) (sym number) got valid held
                      pages declared (omega arith)
              ]
        ]
  ]
