-- ===== src/Access/Heap/Reads.antt =====
-- Get returns the tuple that a tuple id addresses.
use native.Mathlib.Decide.{dec_lt}
use mini_db.Base.{false, ℕ, ◌≡◌, sym, ap, ◌∙◌, ◌⊎◌, inl, inr, List, get_elem?, none, some, arith}
use mini_db.Base.Outcome.{ok, err}
use mini_db.Page.Slotted.{slot_count}
use mini_db.Page.Slotted.Reads.{locate-tuples, length-tuples}
use mini_db.Access.Pager.{Pager, PagerLaws, PinLaws, pins_back}
use mini_db.Access.Heap.{Tid, pool_error, slot_out_of_range, get_slot, get}
use mini_db.Access.Heap.Pile.{IsPage, rows, row_at, row_at-page}
use mini_db.Access.Heap.Ends.{All-at, get_elem?-past}
use mini_db.Access.Heap.State.{IsHeap, IsHeap-same}

-- On a page of the pile, the tuple of a slot below the count is there, and the others are refused.
get_slot_cases :
    {E : Type 0} (b : List ℕ) (slot : ℕ)
    → IsPage b
    → ((r : List ℕ) × (get_slot {E = E} slot b ≡ ok r) × (get_elem? (rows b) slot ≡ some r))
      ⊎ ((get_slot {E = E} slot b ≡ err slot_out_of_range) × (get_elem? (rows b) slot ≡ none))
unfolding get_slot
get_slot_cases b slot h = elim (dec_lt slot (slot_count b)) [
  | yes inside ↦
      let (entry, tuple, at, located, there) = locate-tuples b (slot_count b) h slot inside in
      inl (tuple, ground (arith, at, located), there)
  | no outside ↦
      inr
        (ground arith, get_elem?-past (rows b) slot (omega (arith, length-tuples b (slot_count b))))
]

module _ {S P E : Type 0} {pager : Pager S P E} (laws : PagerLaws pager)
    (counts : PinLaws laws) where
  -- On a heap file, Get always returns and leaves a heap file with the same pages, each with as many
  -- pins as before: it returns the tuple
  -- that the id addresses, or refuses a slot where the page has no tuple, or returns an error of the pool.
  pub get_cases :
      (s : S) (tid : Tid)
      → IsHeap laws s
      → (t : S) × IsHeap laws t
        × (laws.pages t ≡ laws.pages s)
        × ((q : ℕ) → counts.pins t q ≡ counts.pins s q)
        × (((r : List ℕ) × (get pager tid s ≡ (t, ok r)) × (row_at (laws.pages s) tid ≡ some r))
            ⊎ (((get pager tid s ≡ (t, err slot_out_of_range)) × (row_at (laws.pages s) tid ≡ none))
                ⊎ ((e : E) × (get pager tid s ≡ (t, err (pool_error e))))))
  unfolding get
  get_cases s tid h = elim (laws.fetch_page_lem tid.page s h.valid) [
    | inr (e, t, failed, valid, pages, declared) ↦ (
      t,
      IsHeap-same laws s t h valid pages declared,
      pages,
      counts.fetch_page_fails s t e tid.page h.valid failed,
      inr (inr (e, ground (arith, failed))),
    )
    | inl (p, t, got, valid, held, pages, declared) ↦
        let here : get_elem? (laws.pages s) tid.page ≡ some (pager.load p t) =
          ap (λ z. get_elem? z tid.page) (sym pages) ∙ laws.load_lem t p tid.page valid held in
        let (u, unpinned, v, pages₂, declared₂) =
          laws.unpin_clean_lem t p tid.page valid held (pages ∙ (h.settled ∙ sym declared)) in
        (
          u,
          IsHeap-same laws s u h v (pages₂ ∙ pages) (declared₂ ∙ declared),
          pages₂ ∙ pages,
          pins_back laws counts s t u p tid.page false h.valid got valid held unpinned,
          elim (get_slot_cases {E = E} (pager.load p t) tid.slot
              (All-at IsPage (laws.pages s) tid.page (pager.load p t) h.paged here)) [
                | inl (r, read, there) ↦ inl (
                  r,
                  ground (arith, got, read, unpinned),
                  row_at-page (laws.pages s) tid (pager.load p t) here ∙ there,
                )
                | inr (refused, absent) ↦ inr (
                    inl (
                      ground (arith, got, refused, unpinned),
                      row_at-page (laws.pages s) tid (pager.load p t) here ∙ absent,
                    ))
              ],
        )
  ]
