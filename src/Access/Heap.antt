-- ===== src/Access/Heap.antt =====
-- internal/access/heap/heap.go: a table as a pile of slotted pages. A callback of Scan reads and
-- writes a state of its own, of type T.
pub mod Ends
pub mod Pile
pub mod State
pub mod Grow
pub mod Insert
pub mod Reads
pub mod Visits
pub mod PageScan
pub mod Scan
mod Tests
use mini_db.Base.{ℕ, zero, suc, ◌+◌, ◌-◌, Bool, true, false, List, ltb, leb, if◌then◌else◌}
use mini_db.Base.Exec.{Exec, ◌>>=◌, ◌>>◌, done, fail, modify, lift}
use mini_db.Base.Outcome.{Outcome, ok, err, panic, wrap_err, ◌>>=◌ as bind}
use mini_db.Base.Words.{u32}
use mini_db.Page.Slotted.{
  PageError, no_space, bits, slot_count, slot_entry_at, slot_entry_unchecked, locate_tuple_by_entry,
  init, insert_tuple,
}
use mini_db.Access.Pager.{Pager, discard}

pub record Tid : Type 0 where
  pub page : ℕ
  pub slot : ℕ

pub data HeapError (E : Type 0) : Type 0 where
  pool_error : E → HeapError E
  page_error does_not_fit : PageError → HeapError E
  slot_out_of_range : HeapError E

-- `stopped` is the callback's own error.
pub data ScanError (E C : Type 0) : Type 0 where
  scan_failed : HeapError E → ScanError E C
  stopped : C → ScanError E C

-- A call whose error is wrapped.
abbrev pub wrapped : {S D E A : Type 0} → (D → E) → Exec S D A → Exec S E A
wrapped f m s = ((m s).0, wrap_err f (m s).1)

abbrev pub pooled : {S E A : Type 0} → Exec S E A → Exec S (HeapError E) A
pooled = wrapped pool_error

-- A call that leaves the callback's state alone.
abbrev pub beside : {S T E A : Type 0} → Exec S E A → Exec (S × T) E A
beside m (s, t) = (((m s).0, t), (m s).1)

-- What Get reads of the page.
unfoldable pub get_slot : {E : Type 0} → ℕ → List ℕ → Outcome (HeapError E) (List ℕ)
get_slot slot p =
    if leb (slot_count p) slot
    then err slot_out_of_range
    else bind (wrap_err page_error (slot_entry_at p slot))
        λ entry. wrap_err page_error (locate_tuple_by_entry p entry)

abbrev pub call :
    {S E T C : Type 0}
    → (Tid → List ℕ → Exec T C (Unit {0}))
    → Tid
    → List ℕ
    → Exec (S × T) (ScanError E C) (Unit {0})
call fn tid bytes (s, t) = ((s, (fn tid bytes t).0), wrap_err stopped (fn tid bytes t).1)

module _ {S P E : Type 0} (pager : Pager S P E) where
  -- A slotted-page operation on the bytes behind a page pointer.
  abbrev pub on_page : {A : Type 0} → P → Exec (List ℕ) PageError A → Exec S PageError A
  on_page p m s = (pager.store p (m (pager.load p s)).0 s, (m (pager.load p s)).1)

  abbrev pub release : ℕ → Bool → Exec S (HeapError E) (Unit {0})
  release pid dirty = discard (pager.unpin_page pid dirty)

  -- Insert behind NewPage, from the outcome of InsertTuple on the formatted page.
  abbrev pub finish_grow : ℕ → S × Outcome PageError ℕ → S × Outcome (HeapError E) Tid
  finish_grow pid (s, ok slot) = (release pid true >> done (record { page = pid; slot = slot })) s
  finish_grow pid (s, err e) = (release pid true >> fail (does_not_fit e)) s
  finish_grow pid (s, panic) = (s, panic)

  unfoldable pub grow : List ℕ → Exec S (HeapError E) Tid
  grow src = pooled pager.new_page >>= λ raw s.
      finish_grow raw.1 (on_page raw.0 (modify init >> insert_tuple src) s)

  -- Insert on the last page, from the outcome of InsertTuple.
  abbrev pub finish_append : List ℕ → ℕ → S × Outcome PageError ℕ → S × Outcome (HeapError E) Tid
  finish_append src pid (s, ok slot) =
      (release pid true >> done (record { page = pid; slot = slot })) s
  finish_append src pid (s, err no_space) = (release pid false >> grow src) s
  finish_append src pid (s, err (bits e)) = (release pid false >> fail (page_error (bits e))) s
  finish_append src pid (s, panic) = (s, panic)

  unfoldable pub insert : List ℕ → Exec S (HeapError E) Tid
  insert src s =
      let n = pager.num_pages s in
      if ltb 0 n
      then (pooled (pager.fetch_page (n - 1)) >>= λ raw t.
            finish_append src (n - 1) (on_page raw (insert_tuple src) t))
          s
      else grow src s

  -- The deferred UnpinPage runs on every way out.
  unfoldable pub get : Tid → Exec S (HeapError E) (List ℕ)
  get tid = pooled (pager.fetch_page tid.page) >>= λ raw s.
      (release tid.page false >> lift (get_slot tid.slot (pager.load raw s))) s

  -- A read of the page that may panic.
  abbrev pub view :
      {T C A : Type 0} → P → (List ℕ → Outcome PageError A) → Exec (S × T) (ScanError E C) A
  view raw f x = (x, wrap_err (λ e. scan_failed (page_error e)) (f (pager.load raw x.0)))

  abbrev pub leave_page : {T C : Type 0} → ℕ → Exec (S × T) (ScanError E C) (Unit {0})
  leave_page pid = beside (discard (pager.unpin_page pid false))

  -- UnpinPage after scanPage, whose error is then returned.
  abbrev pub finish_page :
      {T C : Type 0}
      → ℕ
      → (S × T) × Outcome (ScanError E C) (Unit {0})
      → (S × T) × Outcome (ScanError E C) (Unit {0})
  finish_page pid (x, ok a) = leave_page pid x
  finish_page pid (x, err e) = (leave_page pid >> fail e) x
  finish_page pid (x, panic) = (x, panic)

  module _ {T C : Type 0} (fn : Tid → List ℕ → Exec T C (Unit {0})) where
    -- scanPage from slot `i` on, with `left` slots to go.
    unfoldable pub scan_slots : ℕ → ℕ → ℕ → P → Exec (S × T) (ScanError E C) (Unit {0})
    scan_slots zero i pid raw = done tt
    scan_slots (suc left) i pid raw = view raw (λ p. slot_entry_unchecked p i) >>= λ entry.
        view raw (λ p. locate_tuple_by_entry p entry) >>= λ bytes.
        call fn (record { page = pid; slot = i }) bytes >> scan_slots left (i + 1) pid raw

    unfoldable pub scan_page : ℕ → P → Exec (S × T) (ScanError E C) (Unit {0})
    scan_page pid raw x = scan_slots (slot_count (pager.load raw x.0)) 0 pid raw x

    unfoldable pub visit_page : ℕ → Exec (S × T) (ScanError E C) (Unit {0})
    visit_page pid =
        wrapped (λ e. scan_failed (pool_error e)) (beside (pager.fetch_page pid)) >>= λ raw x.
        finish_page pid (scan_page pid raw x)

    -- At most `left` pages from `pid` on.
    unfoldable pub scan_from : ℕ → ℕ → Exec (S × T) (ScanError E C) (Unit {0})
    scan_from zero pid x = done tt x
    scan_from (suc left) pid x =
        if ltb pid (pager.num_pages x.0)
        then (visit_page pid >> scan_from left (u32 (pid + 1))) x
        else done tt x

    -- No page is added during a scan, so there are enough rounds for the pages there are.
    unfoldable pub scan : Exec (S × T) (ScanError E C) (Unit {0})
    scan x = scan_from (pager.num_pages x.0) 0 x
