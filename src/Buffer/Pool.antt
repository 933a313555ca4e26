-- ===== src/Buffer/Pool.antt =====
-- internal/storage/buffer/buffer_pool.go: a fixed number of frames that cache the pages of several
-- files. The disk layer is the interface that the pool declares for it. A returned *page.Page is the
-- number of its frame, whose bytes stand in `frames`; the pool's mutex makes each operation one step.
-- The free list is written from its end, at which the source appends and removes. Frame numbers that
-- the pool keeps are below the number of frames, so `meta_of` and `bytes_of` name no case for others.
pub mod Invariant
pub mod Binding
pub mod Eviction
pub mod Acquire
pub mod Laws
pub mod Flush
pub mod Requeue
use mini_db.Base.{
  ℕ, zero, suc, ◌+◌, ◌-◌, Bool, true, false, ◌&&◌, ◌||◌, not, List, [], ◌∷◌, ◌++◌, none, some, ◌==◌,
  if◌then◌else◌, length, get_elem?, get_or, set, replicate, ◌↔◌, ◌≡◌, arith,
}
use mini_db.Base.Exec.{Exec, ◌>>=◌, ◌>>◌, done, modify, on_error}
use mini_db.Base.Maps.{Key, lookup, insert, remove}
use mini_db.Base.Outcome.{Outcome, ok, err, panic, wrap_err}
use mini_db.Buffer.Lru.{Lru, new_lru, unpin, pin, victim}
use mini_db.Page.{new_page}

-- The methods of one file on which the pool depends.
pub record DiskFile (F E : Type 0) : Type 0 where
  pub read : ℕ → Exec (F × List ℕ) E (Unit {0})
  pub write : ℕ → List ℕ → Exec F E (Unit {0})
  pub allocate : Exec F E ℕ
  pub page_count : F → ℕ

pub record PageKey : Type 0 where
  pub file : ℕ
  pub pid : ℕ

pub same_key : PageKey → PageKey → Bool
same_key k j = (k.file == j.file) && (k.pid == j.pid)

pub same_key_iff : (k j : PageKey) → (same_key k j ≡ true) ↔ (k ≡ j)
unfolding same_key
same_key_iff k j = ground arith

instance abbrev pub page_key : Key PageKey
page_key = record { beq = same_key; beq_iff = same_key_iff }

pub record FrameMeta : Type 0 where
  pub key : PageKey
  pub pin_count : ℕ
  pub dirty : Bool

abbrev pub no_meta : FrameMeta
no_meta = record { key = record { file = 0; pid = 0 }; pin_count = 0; dirty = false }

pub record BufferPool (F : Type 0) : Type 0 where
  pub files : List F
  pub frames : List (List ℕ)
  pub meta : List FrameMeta
  pub page_table : List (PageKey × ℕ)
  pub free_list : List ℕ
  pub replacer : Lru

pub data PoolError (E : Type 0) : Type 0 where
  no_free_frame not_resident not_pinned : PoolError E
  load_error allocate_error flush_error victim_error : E → PoolError E

-- 0, …, n - 1 from the end: `for i := range frames { freeList[i] = i }`
unfoldable pub all_frames : ℕ → List ℕ
all_frames zero = []
all_frames (suc n) = n ∷ all_frames n

-- A size that is not positive panics.
unfoldable pub new_buffer_pool : {F E : Type 0} → ℕ → Outcome E (BufferPool F)
new_buffer_pool zero = panic
new_buffer_pool (suc n) = ok (record {
  files = [];
  frames = replicate (suc n) new_page;
  meta = replicate (suc n) no_meta;
  page_table = [];
  free_list = all_frames (suc n);
  replacer = new_lru;
})

module _ {F : Type 0} where
  abbrev pub meta_of : BufferPool F → ℕ → FrameMeta
  meta_of bp f = get_or bp.meta f no_meta

  abbrev pub bytes_of : BufferPool F → ℕ → List ℕ
  bytes_of bp f = get_or bp.frames f []

  -- The handle that Register returns is the number of the file.
  unfoldable pub register : F → BufferPool F → BufferPool F × ℕ
  register dm bp = (record bp { files = bp.files ++ dm ∷ [] }, length bp.files)

  -- `append(bp.freeList, f)`
  unfoldable pub release : ℕ → BufferPool F → BufferPool F
  release f bp = record bp { free_list = f ∷ bp.free_list }

  unfoldable pub bind_frame : ℕ → PageKey → BufferPool F → BufferPool F
  bind_frame f key bp = record bp {
    meta = set bp.meta f (record { key = key; pin_count = 1; dirty = false });
    page_table = insert key f bp.page_table;
  }

  -- `clear(bp.frames[f].Bytes())`
  unfoldable pub clear_frame : ℕ → BufferPool F → BufferPool F
  clear_frame f bp = record bp { frames = set bp.frames f (replicate (length (bytes_of bp f)) 0) }

  -- The caller of FetchPage or NewPage writes through the returned pointer.
  unfoldable pub write_frame : ℕ → List ℕ → BufferPool F → BufferPool F
  write_frame f bytes bp = record bp { frames = set bp.frames f bytes }

  unfoldable pub unpin_page :
      {E : Type 0} → PageKey → Bool → Exec (BufferPool F) (PoolError E) (Unit {0})
  unpin_page key dirty bp = elim (lookup key bp.page_table) [
    | none ↦ (bp, err not_resident)
    | some f ↦ if (meta_of bp f).pin_count == 0 then (bp, err not_pinned) else (
      record bp {
        meta = set bp.meta f (record {
          key = (meta_of bp f).key;
          pin_count = (meta_of bp f).pin_count - 1;
          dirty = (meta_of bp f).dirty || dirty;
        });
        replacer = if (meta_of bp f).pin_count - 1 == 0 then unpin f bp.replacer else bp.replacer;
      },
      ok tt,
    )
  ]

  -- A hit of fetch: one pin more, and no eviction candidate.
  unfoldable pub pin_frame : ℕ → BufferPool F → BufferPool F
  pin_frame f bp = record bp {
    meta = set bp.meta f (let m = meta_of bp f in record m { pin_count = m.pin_count + 1 });
    replacer = pin f bp.replacer;
  }

  -- The dirty flag cleared.
  unfoldable pub mark_clean : ℕ → BufferPool F → BufferPool F
  mark_clean f bp = record bp {
    meta = set bp.meta f (let m = meta_of bp f in record m { dirty = false });
  }

module _ {F E : Type 0} ⦃dm : DiskFile F E⦄ where
  -- A method of file `i`; an index out of range panics.
  unfoldable pub on_file :
      {A : Type 0} → ℕ → Exec F E A → (E → PoolError E) → Exec (BufferPool F) (PoolError E) A
  on_file i m wrap bp = elim (get_elem? bp.files i) [
    | none ↦ (bp, panic)
    | some d ↦ (record bp { files = set bp.files i (m d).0 }, wrap_err wrap (m d).1)
  ]

  -- `files[key.file].ReadPage(key.pid, frames[f].Bytes())`
  unfoldable pub load_frame : PageKey → ℕ → Exec (BufferPool F) (PoolError E) (Unit {0})
  load_frame key f bp = elim (get_elem? bp.files key.file) [
    | none ↦ (bp, panic)
    | some d ↦
        let r = dm.read key.pid (d, bytes_of bp f) in
        (
          record bp { files = set bp.files key.file r.0.0; frames = set bp.frames f r.0.1 },
          wrap_err load_error r.1,
        )
  ]

  -- `files[key.file].WritePage(key.pid, frames[f].Bytes())`, for the page that frame f holds.
  unfoldable pub write_back : ℕ → (E → PoolError E) → Exec (BufferPool F) (PoolError E) (Unit {0})
  write_back f wrap bp =
      on_file (meta_of bp f).key.file (dm.write (meta_of bp f).key.pid (bytes_of bp f)) wrap bp

  -- The victim's page leaves the pool; a dirty one is written first, and stays if that fails.
  unfoldable pub evict : ℕ → Exec (BufferPool F) (PoolError E) ℕ
  evict v bp =
      (do
        (if (meta_of bp v).dirty
            then on_error (write_back v victim_error)
                (λ b. record b { replacer = unpin v b.replacer })
            else done tt)
        modify (λ b. record b { page_table = remove (meta_of bp v).key b.page_table })
        done v)
        bp

  unfoldable pub acquire_frame : Exec (BufferPool F) (PoolError E) ℕ
  acquire_frame bp = elim bp.free_list [
    | f ∷ rest ↦ (record bp { free_list = rest }, ok f)
    | [] ↦ elim (victim bp.replacer).1 [
      | none ↦ (record bp { replacer = (victim bp.replacer).0 }, err no_free_frame)
      | some v ↦ evict v (record bp { replacer = (victim bp.replacer).0 })
    ]
  ]

  -- Fetch once a frame is acquired.
  unfoldable pub install : PageKey → ℕ → Exec (BufferPool F) (PoolError E) ℕ
  install key f = do on_error (load_frame key f) (release f); modify (bind_frame f key); done f

  unfoldable pub fetch : PageKey → Exec (BufferPool F) (PoolError E) ℕ
  fetch key bp = elim (lookup key bp.page_table) [
    | some f ↦ (pin_frame f bp, ok f)
    | none ↦ (acquire_frame >>= install key) bp
  ]

  -- NewPage once a frame is acquired.
  unfoldable pub allocate_into : ℕ → ℕ → Exec (BufferPool F) (PoolError E) (ℕ × ℕ)
  allocate_into file f = do
    pid ← on_error (on_file file dm.allocate allocate_error) (release f)
    modify (clear_frame f)
    modify (bind_frame f (record { file = file; pid = pid }))
    done (f, pid)

  unfoldable pub allocate_page_in : ℕ → Exec (BufferPool F) (PoolError E) (ℕ × ℕ)
  allocate_page_in file = acquire_frame >>= allocate_into file

  unfoldable pub pages_in : ℕ → BufferPool F → Outcome (PoolError E) ℕ
  pages_in file bp = elim (get_elem? bp.files file) [ none ↦ panic | some d ↦ ok (dm.page_count d) ]

  unfoldable pub flush_locked : ℕ → Exec (BufferPool F) (PoolError E) (Unit {0})
  flush_locked f bp =
      if not (meta_of bp f).dirty
      then (bp, ok tt)
      else (write_back f flush_error >> modify (mark_clean f)) bp

  unfoldable pub flush_page : PageKey → Exec (BufferPool F) (PoolError E) (Unit {0})
  flush_page key bp = elim (lookup key bp.page_table) [
    | none ↦ (bp, err not_resident)
    | some f ↦ flush_locked f bp
  ]

  -- FlushAll over the frames of the page table, in the order in which the map is ranged over.
  unfoldable pub flush_all : List ℕ → Exec (BufferPool F) (PoolError E) (Unit {0})
  flush_all [] = done tt
  flush_all (f ∷ fs) = flush_locked f >> flush_all fs
