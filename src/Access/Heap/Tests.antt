-- ===== src/Access/Heap/Tests.antt =====
-- The heap over a pool in memory, and over the pool and the disk manager.
use mathlib.Core.Path.{subst}
use mini_db.Base.{sym, ap, ◌∙◌, length, take, All, append-nil, take-length-append}
use mini_db.Base.Copy.{slice}
use mini_db.Disk.{DiskManager, DiskError}
use mini_db.Disk.Pages.{page_of, IsDisk}
use mini_db.Buffer.Pool.{PoolError}
use mini_db.Buffer.Content.{pinned}
use mini_db.Access.Heap.Pile.{IsPage}
use mini_db.Access.Pooled.{Pooled, pool_pager}
use mini_db.Access.Pooled.Listing.{upto}
use mini_db.Access.Pooled.Interface.{pool_laws, pool_pins}
use mini_db.Access.Pooled.Fresh.{fresh, fresh-IsBacked, fresh-settled}
use mini_db.Base.{ℕ, ◌≡◌, refl, ◌⊎◌, List, [], ◌∷◌, ◌++◌, some, none, arith}
use mini_db.Base.Exec.{Exec}
use mini_db.Base.Outcome.{ok, err}
use mini_db.Page.{new_page as zero_frame}
use mini_db.Page.Slotted.{init}
use mini_db.Page.Slotted.Laws.{IsAppended, insert_tuple_fits}
use mini_db.Page.Slotted.Layout.{IsSlotted}
use mini_db.Page.Slotted.Reads.{init-IsSlotted}
use mini_db.Access.Memory.{Memory, MemoryError, memory_pager, memory_laws}
use mini_db.Access.Heap.{Tid, HeapError, pool_error, slot_out_of_range, insert, get}
use mini_db.Access.Heap.Pile.{row_at, IsSlotted-IsPage}
use mini_db.Access.Heap.State.{IsHeap, HasInserted, HasFailed}
use mini_db.Access.Heap.Grow.{length-zero_frame}
use mini_db.Access.Heap.Insert.{insert_cases}
use mini_db.Access.Heap.Reads.{get_cases}

abbrev small : List ℕ
small = 1 ∷ 2 ∷ 3 ∷ []

blank-IsSlotted : IsSlotted (init zero_frame) 0
blank-IsSlotted = (init-IsSlotted zero_frame length-zero_frame).0

filled : (q : List ℕ) × IsAppended (init zero_frame) 0 small q
filled =
    let r =
      insert_tuple_fits (init zero_frame) small 0 blank-IsSlotted (omega arith)
        (omega (arith, (init-IsSlotted zero_frame length-zero_frame).1)) in
    (r.0, r.2)

-- A heap file of one page with one tuple.
abbrev table : Memory
table = record { live = filled.0 ∷ []; clean = filled.0 ∷ [] }

table-IsHeap : IsHeap memory_laws table
table-IsHeap = record {
  valid = (omega arith, refl);
  settled = refl;
  paged = (IsSlotted-IsPage filled.0 1 filled.1.well_formed, tt);
}

insert_cases_example :
    ((tid : Tid) × (t : Memory) × (insert memory_pager small table ≡ (t, ok tid))
      × HasInserted memory_laws table t small tid)
    ⊎ ((e : HeapError MemoryError) × (t : Memory) × (insert memory_pager small table ≡ (t, err e))
        × HasFailed memory_laws table t small e)
insert_cases_example = insert_cases memory_laws table small table-IsHeap (omega arith)

abbrev first : Tid
first = record { page = 0; slot = 0 }

-- The same page on the disk, behind the pool of two frames that NewBufferPool makes.
abbrev disk : DiskManager
disk = record { file = filled.0; num_pages = 1; answers = [] }

filled-size : length filled.0 ≡ 8192
filled-size = filled.1.well_formed.size

disk-IsDisk : IsDisk disk
disk-IsDisk = record { backed = omega (arith, filled-size); countable = omega arith }

slice-all : (bs : List ℕ) → slice 0 (length bs) bs ≡ bs
slice-all bs = ap (take (length bs)) (sym (append-nil bs)) ∙ take-length-append bs []

only_page : page_of disk 0 ≡ filled.0
unfolding page_of
only_page = ap (λ n. slice 0 n filled.0) (sym filled-size) ∙ slice-all filled.0

abbrev shelf : Pooled
shelf = fresh 1 disk

pages-shelf : (pool_laws 0).pages shelf ≡ filled.0 ∷ []
unfolding upto
pages-shelf = (fresh-settled 1 disk disk-IsDisk).1 ∙ ap (λ b. b ∷ []) only_page

shelf-IsHeap : IsHeap (pool_laws 0) shelf
shelf-IsHeap = record {
  valid = fresh-IsBacked 1 disk disk-IsDisk;
  settled = (fresh-settled 1 disk disk-IsDisk).2;
  paged =
      subst (All IsPage) (sym pages-shelf) (IsSlotted-IsPage filled.0 1 filled.1.well_formed, tt);
}

get_cases_example :
    (t : Pooled) × IsHeap (pool_laws 0) t
    × ((pool_laws 0).pages t ≡ (pool_laws 0).pages shelf)
    × ((q : ℕ) → pinned 0 t.bp q ≡ pinned 0 shelf.bp q)
    × (((r : List ℕ) × (get (pool_pager 0) first shelf ≡ (t, ok r))
          × (row_at ((pool_laws 0).pages shelf) first ≡ some r))
        ⊎ (((get (pool_pager 0) first shelf ≡ (t, err slot_out_of_range))
              × (row_at ((pool_laws 0).pages shelf) first ≡ none))
            ⊎ ((e : PoolError DiskError) × (get (pool_pager 0) first shelf
                  ≡ (t, err (pool_error e))))))
get_cases_example = get_cases (pool_laws 0) (pool_pins 0) shelf first shelf-IsHeap

-- A callback that collects what it is given.
abbrev collect : Tid → List ℕ → Exec (List (Tid × List ℕ)) MemoryError (Unit {0})
collect tid r seen = (seen ++ (tid, r) ∷ [], ok tt)
