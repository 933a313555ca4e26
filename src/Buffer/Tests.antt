-- ===== src/Buffer/Tests.antt =====
-- The pool's theorems applied to a pool of two frames over one file of one zeroed page.
use mini_db.Base.{
  ℕ, zero, suc, ◌==◌, not, ◌&&◌, ◌+◌, ◌<◌, ◌≡◌, refl, true, false, ◌||◌, [], ◌∷◌, none, some, ◌⊎◌,
  arith, ◌++◌,
}
use mini_db.Base.Outcome.{ok, err}
use mini_db.Base.Maps.{lookup}
use mini_db.Buffer.Lru.{new_lru, Lru, unpin, victim, back}
use mini_db.Buffer.Lru.Queue.{member, queue}
use mini_db.Buffer.Lru.Laws.{new_lru-Agrees, unpin-queue}
use mini_db.Buffer.Lru.Member.{tracks, tracks-new_lru, tracks-unpin}
use mini_db.Disk.{DiskManager, DiskError, zero_page, fails, io_error, write_page, write_at}
use mini_db.Buffer.Backing.{disk_file, disk_file-Returns}
use mini_db.Disk.Laws.{zero_page-length}
use mini_db.Buffer.Pool.Acquire.{write_of}
use mini_db.Buffer.Pool.Requeue.{acquire_frame_requeues}
use mini_db.Buffer.Pool.{
  BufferPool, PageKey, page_key, same_key_iff, PoolError, no_meta, meta_of, fetch, unpin_page,
  not_resident, not_pinned, acquire_frame, victim_error,
}
use mini_db.Buffer.Pool.Invariant.{IsPool, pins_of, resident, holds}
use mini_db.Buffer.Pool.Laws.{IsPinned, fetch-IsPool, unpin_page-IsPool}

abbrev heap_file : DiskManager
heap_file = record { file = zero_page; num_pages = 1; answers = [] }

abbrev first_page : PageKey
first_page = record { file = 0; pid = 0 }

-- Frame 0 holds the first page, pinned once and modified; frame 1 is free.
abbrev two_frames : BufferPool DiskManager
two_frames = record {
  files = heap_file ∷ [];
  frames = zero_page ∷ zero_page ∷ [];
  meta = record { key = first_page; pin_count = 1; dirty = true } ∷ no_meta ∷ [];
  page_table = (first_page, 0) ∷ [];
  free_list = 1 ∷ [];
  replacer = new_lru;
}

only_first :
    (k : PageKey) (f : ℕ) → lookup k two_frames.page_table ≡ some f → (first_page ≡ k) × (f ≡ 0)
unfolding lookup
only_first k f found = ground (arith, same_key_iff first_page k)

residents : (f : ℕ) → f < 2 → resident two_frames f ≡ (f == 0)
unfolding resident holds lookup
residents zero h = ground (arith, same_key_iff first_page first_page)
residents (suc zero) h = ground (arith, same_key_iff first_page first_page)
residents (suc (suc f)) h = absurd (omega arith)

frees : (f : ℕ) → f < 2 → member f two_frames.free_list ≡ not (resident two_frames f)
unfolding member
frees f h = ground (arith, residents f h)

idles :
    (f : ℕ)
    → f < 2
    → tracks f two_frames.replacer ≡ (resident two_frames f && (pins_of two_frames f == 0))
idles zero h = ground (arith, tracks-new_lru 0)
idles (suc zero) h = ground (arith, tracks-new_lru 1, residents 1 h)
idles (suc (suc f)) h = absurd (omega arith)

two_frames-IsPool : IsPool two_frames 2
two_frames-IsPool = record {
  frame_count = refl;
  meta_count = refl;
  replacer_agrees = new_lru-Agrees.0;
  held = λ k f found.
      let (e, zeroth) = only_first k f found in rw (← e, zeroth) (omega arith, refl, omega arith);
  free_once = (unfold member in refl, tt);
  free_in_range = λ f t. unfold member in ground arith;
  idle_in_range = λ f t. ground (arith, tracks-new_lru f);
  free_or_resident = frees;
  idle = idles;
}

fetch-IsPool_example :
    ((f : ℕ) × (bp' : BufferPool DiskManager) × (fetch {E = DiskError} first_page two_frames
        ≡ (bp', ok f))
      × IsPool bp' 2
      × IsPinned first_page f bp')
    ⊎ ((e : PoolError DiskError) × (bp' : BufferPool DiskManager) × (fetch {E = DiskError}
            first_page two_frames
          ≡ (bp', err e))
        × IsPool bp' 2)
fetch-IsPool_example =
    fetch-IsPool disk_file-Returns two_frames 2 first_page two_frames-IsPool (omega arith)

unpin_page-IsPool_example :
    ((f : ℕ) × (bp' : BufferPool DiskManager) × (lookup first_page two_frames.page_table ≡ some f)
      × (unpin_page {E = DiskError} first_page false two_frames ≡ (bp', ok tt))
      × IsPool bp' 2
      × (pins_of two_frames f ≡ pins_of bp' f + 1)
      × ((meta_of bp' f).dirty ≡ ((meta_of two_frames f).dirty || false)))
    ⊎ ((unpin_page {E = DiskError} first_page false two_frames ≡ (two_frames, err not_resident))
        × (lookup first_page two_frames.page_table ≡ none))
    ⊎ ((f : ℕ) × (unpin_page {E = DiskError} first_page false two_frames
          ≡ (two_frames, err not_pinned))
        × (lookup first_page two_frames.page_table ≡ some f)
        × (pins_of two_frames f ≡ 0))
unpin_page-IsPool_example = unpin_page-IsPool two_frames 2 first_page false two_frames-IsPool

-- One frame, idle and modified, over a file whose next write fails.
abbrev failing_file : DiskManager
failing_file = record { file = zero_page; num_pages = 1; answers = fails 0 ∷ [] }

abbrev one_frame : BufferPool DiskManager
one_frame = record {
  files = failing_file ∷ [];
  frames = zero_page ∷ [];
  meta = record { key = first_page; pin_count = 0; dirty = true } ∷ [];
  page_table = (first_page, 0) ∷ [];
  free_list = [];
  replacer = unpin 0 new_lru;
}

resident_0 : resident one_frame 0 ≡ true
unfolding resident holds lookup
resident_0 = ground (arith, same_key_iff first_page first_page)

tracked_0 : (f : ℕ) → tracks f one_frame.replacer ≡ (0 == f)
tracked_0 f = ground (arith, tracks-unpin 0 f new_lru new_lru-Agrees.0, tracks-new_lru f)

one_frame-IsPool : IsPool one_frame 1
one_frame-IsPool = record {
  frame_count = refl;
  meta_count = refl;
  replacer_agrees = (unpin-queue 0 new_lru new_lru-Agrees.0).0;
  held = λ k f found.
      let (e, zeroth) = only_first k f found in rw (← e, zeroth) (omega arith, refl, omega arith);
  free_once = tt;
  free_in_range = unfold member in ground arith;
  idle_in_range = λ f t. ground (arith, tracked_0 f);
  free_or_resident = one_frees;
  idle = one_idles;
}
  where
    one_frees : (f : ℕ) → f < 1 → member f one_frame.free_list ≡ not (resident one_frame f)
    one_frees zero h = unfold member in ground (arith, resident_0)
    one_frees (suc f) h = absurd (omega arith)

    one_idles :
        (f : ℕ)
        → f < 1
        → tracks f one_frame.replacer ≡ (resident one_frame f && (pins_of one_frame f == 0))
    one_idles zero h = ground (arith, resident_0, tracked_0 0)
    one_idles (suc f) h = absurd (omega arith)

emptied : Lru
emptied = (victim (unpin 0 new_lru)).0

only_victim : victim one_frame.replacer ≡ (emptied, some 0)
unfolding emptied victim unpin new_lru back lookup
only_victim = refl

write_fails : (write_of {E = DiskError} one_frame 0 failing_file).1 ≡ err io_error
unfolding write_page write_at
write_fails = ground (arith, zero_page-length)

acquire_frame_requeues_example :
    ((acquire_frame {E = DiskError} one_frame).1 ≡ err (victim_error io_error))
    × (queue one_frame.replacer ≡ queue emptied ++ 0 ∷ [])
    × (queue (acquire_frame {E = DiskError} one_frame).0.replacer ≡ 0 ∷ queue emptied)
acquire_frame_requeues_example =
    acquire_frame_requeues one_frame 1 0 emptied failing_file io_error one_frame-IsPool refl
      only_victim refl refl write_fails
