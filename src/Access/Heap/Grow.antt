-- ===== src/Access/Heap/Grow.antt =====
-- Insert on a page that is added for the tuple.
use mini_db.Base.{
  ℕ, ◌+◌, ◌≤◌, ◌<◌, ◌≡◌, refl, sym, ap, ◌∙◌, inl, inr, List, [], ◌∷◌, ◌++◌, length, get_elem?,
  All-append, true, length-replicate, arith,
}
use native.Mathlib.Decide.{dec_lt}
use mathlib.Core.Path.{subst}
use mathlib.Core.Option.{some-injective}
use mini_db.Base.Endian.{IsBytes}
use mini_db.Base.Outcome.{ok}
use mini_db.Page.{new_page as zero_frame}
use mini_db.Page.Slotted.{no_space, free_space, init}
use mini_db.Page.Slotted.Layout.{IsSlotted}
use mini_db.Page.Slotted.Laws.{insert_tuple_fits, insert_tuple_full}
use mini_db.Page.Slotted.Reads.{get_elem?-snoc, init-IsSlotted}
use mini_db.Access.Pager.{Pager, PagerLaws}
use mini_db.Access.Heap.{pool_error, does_not_fit, grow}
use mini_db.Access.Heap.Pile.{
  IsPage, all_rows, row_at, HasNew, HasNew-next, IsAppended-IsPage, IsSlotted-IsPage, row_at-blank,
  all_rows-blank,
}
use mini_db.Access.Heap.State.{IsHeap, InsertCases, store_release, IsHeap-last, HasFailed-pool}

pub length-zero_frame : length zero_frame ≡ 8192
unfolding zero_frame
length-zero_frame = length-replicate {A = ℕ} 8192 0

module _ {S P E : Type 0} {pager : Pager S P E} (laws : PagerLaws pager) where
  module _ (s : S) (src : List ℕ) (h : IsHeap laws s) (p : P) (t : S)
      (made : pager.new_page s ≡ (t, ok (p, length (laws.pages s)))) (valid : laws.Valid t)
      (held : laws.Held p (length (laws.pages s)) t)
      (pages : laws.pages t ≡ laws.pages s ++ zero_frame ∷ [])
      (declared : laws.declared t ≡ laws.declared s ++ zero_frame ∷ []) where
    abbrev added_page : ℕ
    added_page = length (laws.pages s)

    loaded : pager.load p t ≡ zero_frame
    loaded = some-injective (pager.load p t) zero_frame (
        sym (laws.load_lem t p added_page valid held)
        ∙ (ap (λ x. get_elem? x added_page) pages ∙ get_elem?-snoc (laws.pages s) zero_frame))

    formatted : IsSlotted (init (pager.load p t)) 0 × (free_space (init (pager.load p t)) ≡ 8168)
    formatted = init-IsSlotted (pager.load p t) (ap length loaded ∙ length-zero_frame)

    -- The page that grow wrote and released.
    released :
        (q : List ℕ)
        → IsPage q
        → length q ≡ 8192
        → (u : S) × (pager.unpin_page added_page true (pager.store p q t) ≡ (u, ok tt))
          × IsHeap laws u
          × (laws.pages u ≡ laws.pages s ++ q ∷ [])
    released q k size =
        let (u, unpinned, v, pages₂, declared₂) =
          store_release laws t p added_page q valid held size in
        let (heap, now) =
          IsHeap-last laws u (laws.pages s) zero_frame q (laws.pages t) (laws.declared t) v pages₂
            declared₂ pages (declared ∙ ap (λ x. x ++ zero_frame ∷ []) (sym h.settled))
            (All-append IsPage (laws.pages s) (q ∷ []) h.paged (k, tt)) in
        (u, unpinned, heap, now)

    grow_fits : IsBytes src → length src + 4 ≤ 8168 → InsertCases laws (grow pager) s src
    unfolding grow
    grow_fits b small =
        let (q, run, added) =
          insert_tuple_fits (init (pager.load p t)) src 0 formatted.0 b
            (omega (arith, formatted.1)) in
        let grown =
          HasNew-next (laws.pages s) (init (pager.load p t)) q src h.paged formatted.0 added in
        let (u, unpinned, heap, now) =
          released q (IsAppended-IsPage (init (pager.load p t)) q src 0 added)
            added.well_formed.size in
        inl (
          record { page = added_page; slot = 0 },
          u,
          ground (arith, made, run, unpinned),
          record {
            heap = heap;
            grown =
                subst (HasNew (laws.pages s) src (record { page = added_page; slot = 0 })) (sym now)
                  grown;
          },
        )

    grow_large : 8168 < length src + 4 → InsertCases laws (grow pager) s src
    unfolding grow
    grow_large large =
        let blank = formatted.0 in
        let full = insert_tuple_full (init (pager.load p t)) src (omega (arith, formatted.1)) in
        let (u, unpinned, heap, now) =
          released (init (pager.load p t)) (IsSlotted-IsPage (init (pager.load p t)) 0 blank)
            blank.size in
        inr (
          does_not_fit no_space,
          u,
          ground (arith, made, full, unpinned),
          record {
            heap = heap;
            same_rows =
                ap all_rows now ∙ all_rows-blank (laws.pages s) (init (pager.load p t)) blank;
            same_lookups = λ o.
                ap (λ x. row_at x o) now
                ∙ row_at-blank (laws.pages s) (init (pager.load p t)) o blank;
            cause = inr (refl, large);
          },
        )

  -- The tuple on a page that is added for it.
  pub grow_cases :
      (s : S) (src : List ℕ) → IsHeap laws s → IsBytes src → InsertCases laws (grow pager) s src
  unfolding grow
  grow_cases s src h b = elim (laws.new_page_lem s h.valid) [
    | inr (e, t, failed, valid, pages, declared) ↦ inr (
      pool_error e,
      t,
      ground (arith, failed),
      HasFailed-pool laws s t src e h valid pages declared,
    )
    | inl (p, t, made, valid, held, pages, declared) ↦ elim (dec_lt 8168 (length src + 4)) [
      | no small ↦ grow_fits s src h p t made valid held pages declared b (omega arith)
      | yes large ↦ grow_large s src h p t made valid held pages declared large
    ]
  ]
