-- ===== src/Access/Heap/PageScan.antt =====
-- Scan on one page: the callback takes in its tuples in order, and the page is released.
use native.Mathlib.Decide.{dec_lt}
use mini_db.Base.{ℕ, zero, suc, ◌+◌, ◌≡◌, refl, ◌∙◌, List, get_elem?, drop, some, arith, false}
use mini_db.Base.Exec.{Exec, continue_with}
use mini_db.Base.Outcome.{Outcome, ok, err, panic, wrap_err}
use mini_db.Page.Slotted.{slot_count, slot_entry_at, slot_entry_unchecked}
use mini_db.Page.Slotted.Reads.{locate-tuples, length-tuples}
use mini_db.Access.Pager.{Pager, PagerLaws}
use mini_db.Access.Heap.{
  Tid, ScanError, pool_error, scan_failed, stopped, scan_slots, scan_page, visit_page, finish_page,
}
use mini_db.Access.Heap.Pile.{IsPage, rows}
use mini_db.Access.Heap.Ends.{All-at}
use mini_db.Access.Heap.State.{IsHeap, IsHeap-same}
use mini_db.Access.Heap.Visits.{numbered, drop-next, drop-past, visit_all}

slot_entry_at_ok :
    (b : List ℕ) (i : ℕ) (entry : List ℕ)
    → slot_entry_at b i ≡ ok entry
    → slot_entry_unchecked b i ≡ ok entry
unfolding slot_entry_at
slot_entry_at_ok b i entry h = elim (dec_lt i (slot_count b)) [
  | yes inside ↦ ground (arith, h)
  | no outside ↦ ground (arith, h)
]

-- A step of the callback beside the pages, and then the rest of the scan.
call-continue :
    {S E T C : Type 0} (s : S) (o : T × Outcome C (Unit {0}))
    (rest : Exec (S × T) (ScanError E C) (Unit {0})) (visits : Exec T C (Unit {0}))
    → ((t : T) → rest (s, t) ≡ ((s, (visits t).0), wrap_err stopped (visits t).1))
    → continue_with (s, o.0) (wrap_err {E = ScanError E C} stopped o.1) (λ a. rest) ≡ (
      (s, (continue_with o.0 o.1 (λ a. visits)).0),
      wrap_err stopped (continue_with o.0 o.1 (λ a. visits)).1,
    )
call-continue s (t, ok a) rest visits h = h t
call-continue s (t, err e) rest visits h = refl
call-continue s (t, panic) rest visits h = refl

module _ {T C : Type 0} (fn : Tid → List ℕ → Exec T C (Unit {0})) where
  module _ {S P E : Type 0} {pager : Pager S P E} (laws : PagerLaws pager) where
    -- scanPage gives the callback the tuples of the page in order.
    scan_slots_lem :
        (left i pid : ℕ) (p : P) (s : S) (t : T)
        → IsPage (pager.load p s)
        → i + left ≡ slot_count (pager.load p s)
        → let m = visit_all fn (numbered pid i (drop i (rows (pager.load p s)))) t in
          scan_slots pager fn left i pid p (s, t) ≡ ((s, m.0), wrap_err stopped m.1)
    unfolding scan_slots numbered visit_all
    scan_slots_lem zero i pid p s t h e =
        rw
          (drop-past (rows (pager.load p s)) i
            (omega (arith, length-tuples (pager.load p s) (slot_count (pager.load p s)))))
          refl
    scan_slots_lem (suc left) i pid p s t h e =
        let (entry, tuple, at, located, there) =
          locate-tuples (pager.load p s) (slot_count (pager.load p s)) h i (omega arith) in
        rw
          (
            slot_entry_at_ok (pager.load p s) i entry at,
            located,
            drop-next (rows (pager.load p s)) i tuple there,
          )
          (call-continue s (fn (record { page = pid; slot = i }) tuple t)
            (scan_slots pager fn left (i + 1) pid p)
            (visit_all fn (numbered pid (i + 1) (drop (i + 1) (rows (pager.load p s)))))
            (λ t'. scan_slots_lem left (i + 1) pid p s t' h (omega arith)))

    abbrev pub Same : S → S → Type 0
    Same s u = IsHeap laws u × (laws.pages u ≡ laws.pages s)

    -- The end of a page.
    finished :
        (pid : ℕ) (s s₁ v : S) (o : T × Outcome C (Unit {0}))
        → Same s s₁
        → Same s v
        → pager.unpin_page pid false s₁ ≡ (v, ok tt)
        → (u : S) × Same s u
          × (finish_page pager pid ((s₁, o.0), wrap_err stopped o.1)
              ≡ ((u, o.0), wrap_err stopped o.1))
    finished pid s s₁ v (t', ok a) k k' unpinned = (v, k', ground (arith, unpinned))
    finished pid s s₁ v (t', err e) k k' unpinned = (v, k', ground (arith, unpinned))
    finished pid s s₁ v (t', panic) k k' unpinned = (s₁, k, refl)

    -- One page: it is released unless the callback panics.
    pub visit_page_lem :
        (pid : ℕ) (s s₁ : S) (p : P) (t : T)
        → IsHeap laws s
        → pager.fetch_page pid s ≡ (s₁, ok p)
        → Same s s₁
        → laws.Held p pid s₁
        → (u : S) × Same s u
          × (let m = visit_all fn (numbered pid 0 (rows (pager.load p s₁))) t in
              visit_page pager fn pid (s, t) ≡ ((u, m.0), wrap_err stopped m.1))
    unfolding visit_page scan_page
    visit_page_lem pid s s₁ p t h got kept held =
        let b = pager.load p s₁ in
        let here : get_elem? (laws.pages s₁) pid ≡ some b =
          laws.load_lem s₁ p pid kept.0.valid held in
        let paged = All-at IsPage (laws.pages s₁) pid b kept.0.paged here in
        let scanned = scan_slots_lem (slot_count b) 0 pid p s₁ t paged (omega arith) in
        let (v, unpinned, valid, pages, declared) =
          laws.unpin_clean_lem s₁ p pid kept.0.valid held kept.0.settled in
        let (u, same, end) =
          finished pid s s₁ v (visit_all fn (numbered pid 0 (rows b)) t) kept
            (IsHeap-same laws s₁ v kept.0 valid pages declared, pages ∙ kept.1) unpinned in
        (u, same, ground (arith, got, scanned, end))

    pub visit_page_fails :
        (pid : ℕ) (s s₁ : S) (t : T) (x : E)
        → pager.fetch_page pid s ≡ (s₁, err x)
        → visit_page pager fn pid (s, t) ≡ ((s₁, t), err (scan_failed (pool_error x)))
    unfolding visit_page
    visit_page_fails pid s s₁ t x failed = ground (arith, failed)
