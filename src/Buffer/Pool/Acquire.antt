-- ===== src/Buffer/Pool/Acquire.antt =====
-- AcquireFrame: each way it can go, and the frame that it returns.
use mini_db.Base.{
  ℕ, zero, suc, ◌<◌, ◌≡◌, ◌≢◌, refl, sym, true, false, List, [], ◌∷◌, ◌++◌, none, some, ◌==◌,
  if◌then◌else◌, length, get_elem?, set, length-set, Bool-cases, ◌⊎◌, inl, inr, arith,
}
use mathlib.Core.Path.{subst}
use mini_db.Base.Exec.{Exec}
use mini_db.Base.Outcome.{Outcome, ok, err, panic, wrap_err, returned}
use mini_db.Base.Maps.{lookup, remove, lookup-remove}
use mini_db.Buffer.Lru.{Lru, unpin}
use mini_db.Buffer.Lru.Queue.{Agrees, queue}
use mini_db.Buffer.Lru.Laws.{victim-queue, unpin-queue}
use mini_db.Buffer.Lru.Member.{tracks, tracks-victim, tracks-unpin}
use mini_db.Buffer.Pool.{
  BufferPool, DiskFile, PoolError, no_free_frame, victim_error, PageKey, page_key, release, meta_of,
  bytes_of, on_file, write_back, evict, acquire_frame,
}
use mini_db.Buffer.Pool.Invariant.{key_of, IsPool, replacer-IsPool}
use mini_db.Buffer.Pool.Eviction.{holder, dropped-IsPool}

-- What the pool relies on: the methods of a file return, a result or an error.
pub record Returns {F E : Type 0} (dm : DiskFile F E) : Type 0 where
  pub reads : (pid : ℕ) (d : F) (bytes : List ℕ) → (dm.read pid (d, bytes)).1 ≢ panic
  pub writes : (pid : ℕ) (bytes : List ℕ) (d : F) → (dm.write pid bytes d).1 ≢ panic
  pub allocates : (d : F) → (dm.allocate d).1 ≢ panic

pub get_elem?_inside {ℓ} :
    {A : Type ℓ} (xs : List A) (i : ℕ) → i < length xs → (x : A) × (get_elem? xs i ≡ some x)
get_elem?_inside [] i h = absurd (omega arith)
get_elem?_inside (x ∷ xs) zero h = (x, refl)
get_elem?_inside (x ∷ xs) (suc i) h = get_elem?_inside xs i (omega arith)

module _ {F : Type 0} where
  abbrev pub drop_page : ℕ → BufferPool F → BufferPool F
  drop_page f b = record b { page_table = remove (key_of b f) b.page_table }

  abbrev pub refiled : ℕ → F → BufferPool F → BufferPool F
  refiled i d b = record b { files = set b.files i d }

module _ {F E : Type 0} ⦃dm : DiskFile F E⦄ where
  pub on_file_open :
      {A : Type 0} (i : ℕ) (m : Exec F E A) (wrap : E → PoolError E) (bp : BufferPool F) (d : F)
      → get_elem? bp.files i ≡ some d
      → on_file i m wrap bp ≡ (record bp { files = set bp.files i (m d).0 }, wrap_err wrap (m d).1)
  unfolding on_file
  on_file_open i m wrap bp d h = rw (h, on_file) refl

  evict_clean :
      (bp : BufferPool F) (f : ℕ)
      → (meta_of bp f).dirty ≡ false
      → evict {E = E} f bp ≡ (drop_page f bp, ok f)
  unfolding evict
  evict_clean bp f clean = ground (arith, clean)

  -- What WritePage makes of the file d that a dirty frame belongs to.
  abbrev pub write_of : BufferPool F → ℕ → Exec F E (Unit {0})
  write_of bp f = dm.write (key_of bp f).pid (bytes_of bp f)

  module _ (bp : BufferPool F) (f : ℕ) (d : F)
      (there : get_elem? bp.files (key_of bp f).file ≡ some d)
      (dirty : (meta_of bp f).dirty ≡ true) where
    evict_written :
        (a : Unit {0})
        → (write_of bp f d).1 ≡ ok a
        → evict {E = E} f bp
          ≡ (drop_page f (refiled (key_of bp f).file (write_of bp f d).0 bp), ok f)
    unfolding evict write_back
    evict_written a fine = ground (
      arith,
      dirty,
      on_file_open (key_of bp f).file (write_of bp f) victim_error bp d there,
      fine,
    )

    pub evict_failed :
        (e : E)
        → (write_of bp f d).1 ≡ err e
        → evict f bp ≡ (
          record (refiled (key_of bp f).file (write_of bp f d).0 bp) {
            replacer = unpin f bp.replacer;
          },
          err (victim_error e),
        )
    unfolding evict write_back
    evict_failed e failed = ground (
      arith,
      dirty,
      on_file_open (key_of bp f).file (write_of bp f) victim_error bp d there,
      failed,
    )

-- What acquireFrame did to the page table and the files: nothing; or the page of an idle frame x
-- left, after a write if it was dirty; or that write failed.
pub data Moved {F : Type 0} (E : Type 0) ⦃dm : DiskFile F E⦄ (bp bp' : BufferPool F) : Type 0 where
  stays : bp'.files ≡ bp.files → bp'.page_table ≡ bp.page_table → Moved E bp bp'
  leaves :
      (x : ℕ)
      → tracks x bp.replacer ≡ true
      → (meta_of bp x).dirty ≡ false
      → bp'.files ≡ bp.files
      → bp'.page_table ≡ remove (key_of bp x) bp.page_table
      → Moved E bp bp'
  saved :
      (x : ℕ) (d : F) (a : Unit {0})
      → tracks x bp.replacer ≡ true
      → get_elem? bp.files (key_of bp x).file ≡ some d
      → (write_of {E = E} bp x d).1 ≡ ok a
      → bp'.files ≡ set bp.files (key_of bp x).file (write_of {E = E} bp x d).0
      → bp'.page_table ≡ remove (key_of bp x) bp.page_table
      → Moved E bp bp'
  torn :
      (x : ℕ) (d : F)
      → tracks x bp.replacer ≡ true
      → get_elem? bp.files (key_of bp x).file ≡ some d
      → (meta_of bp x).dirty ≡ true
      → bp'.files ≡ set bp.files (key_of bp x).file (write_of {E = E} bp x d).0
      → bp'.page_table ≡ bp.page_table
      → Moved E bp bp'

-- The records of the frames and their bytes are as they were.
pub record IsMoved {F : Type 0} (E : Type 0) ⦃dm : DiskFile F E⦄ (bp bp' : BufferPool F)
    : Type 0 where
  pub moved : Moved E bp bp'
  pub same_meta : bp'.meta ≡ bp.meta
  pub same_frames : bp'.frames ≡ bp.frames

-- `f` belongs to the caller alone: putting it on the free list makes the pool whole. No page was
-- added to the pool on the way.
pub record IsAcquired {F : Type 0} (bp : BufferPool F) (n f : ℕ) (bp' : BufferPool F) : Type 0 where
  pub owned : IsPool (release f bp') n
  pub forgets : (k : PageKey) → lookup k bp.page_table ≡ none → lookup k bp'.page_table ≡ none
  pub same_files : length bp'.files ≡ length bp.files

List-cases : (q : List ℕ) → (q ≡ []) ⊎ ((f : ℕ) × (rest : List ℕ) × (q ≡ f ∷ rest))
List-cases [] = inl refl
List-cases (f ∷ rest) = inr (f, rest, refl)

module _ {F E : Type 0} ⦃dm : DiskFile F E⦄ (returns : Returns dm) where
  -- A frame for the caller, or an error with the pool whole.
  abbrev pub Acquires : BufferPool F → ℕ → BufferPool F × Outcome (PoolError E) ℕ → Type 0
  Acquires bp n r =
      ((f : ℕ) × (bp' : BufferPool F) × (r ≡ (bp', ok f))
        × IsAcquired bp n f bp'
        × IsMoved E bp bp')
      ⊎ ((e : PoolError E) × (bp' : BufferPool F) × (r ≡ (bp', err e))
          × IsPool bp' n
          × IsMoved E bp bp')

  module _ (bp : BufferPool F) (n x : ℕ) (s : Lru) (v : IsPool bp n) (agrees : Agrees s)
      (split : queue bp.replacer ≡ queue s ++ x ∷ []) where
    taken : BufferPool F
    taken = record bp { replacer = s }

    tracked : tracks x bp.replacer ≡ true
    tracked = (tracks-victim x x bp.replacer s v.replacer_agrees split).0

    left : (g : ℕ) → tracks g s ≡ (if x == g then false else tracks g bp.replacer)
    left g = (tracks-victim x g bp.replacer s v.replacer_agrees split).1

    gives_up :
        (files : List F)
        → length files ≡ length bp.files
        → IsAcquired bp n x (drop_page x (record bp { replacer = s; files = files }))
    gives_up files same = record {
      owned = unfold release in dropped-IsPool bp n x s files v tracked agrees left same;
      forgets = λ k absent. ground (arith, lookup-remove (key_of bp x) k bp.page_table, absent);
      same_files = same;
    }

    put_back : (g : ℕ) → tracks g (unpin x s) ≡ tracks g bp.replacer
    put_back g = ground (arith, tracks-unpin x g s agrees, left g, tracked)

    evict-Acquires : Acquires bp n (evict x taken)
    unfolding taken
    evict-Acquires = elim (Bool-cases (meta_of bp x).dirty) [
      | inr clean ↦ inl (
        x,
        drop_page x taken,
        evict_clean taken x clean,
        gives_up bp.files refl,
        record { moved = leaves x tracked clean refl refl; same_meta = refl; same_frames = refl },
      )
      | inl dirty ↦
          let (lt, named, opened) = v.held (key_of bp x) x (holder bp n x s bp.files v tracked) in
          let (d, there) = get_elem?_inside bp.files (key_of bp x).file opened in
          let r = dm.write (key_of bp x).pid (bytes_of bp x) d in
          let files = set bp.files (key_of bp x).file r.0 in
          let same = length-set bp.files (key_of bp x).file r.0 in
          elim (returned r.1 (returns.writes (key_of bp x).pid (bytes_of bp x) d)) [
            | inl (a, fine) ↦ inl (
              x,
              drop_page x (record bp { replacer = s; files = files }),
              evict_written taken x d there dirty a fine,
              gives_up files same,
              record {
                moved = saved x d a tracked there fine refl refl;
                same_meta = refl;
                same_frames = refl;
              },
            )
            | inr (e, failed) ↦ inr (
              victim_error e,
              record bp { replacer = unpin x s; files = files },
              evict_failed taken x d there dirty e failed,
              replacer-IsPool bp n (unpin x s) files v (unpin-queue x s agrees).0 put_back same,
              record {
                moved = torn x d tracked there dirty refl refl;
                same_meta = refl;
                same_frames = refl;
              },
            )
          ]
    ]

  -- AcquireFrame.
  pub acquire_frame-Acquires :
      (bp : BufferPool F) (n : ℕ) → IsPool bp n → Acquires bp n (acquire_frame bp)
  acquire_frame-Acquires bp n v = elim (List-cases bp.free_list) [
    | inr (f, rest, h) ↦ inl (
      f,
      record bp { free_list = rest },
      unfold acquire_frame in rw (h, acquire_frame) refl,
      record {
        owned = unfold release in rw (← h) v;
        forgets = λ k absent. absent;
        same_files = refl;
      },
      record { moved = stays refl refl; same_meta = refl; same_frames = refl },
    )
    | inl h ↦ elim (victim-queue bp.replacer v.replacer_agrees) [
      | inl (empty, same) ↦ inr (
        no_free_frame,
        bp,
        unfold acquire_frame in ground (arith, h, same),
        v,
        record { moved = stays refl refl; same_meta = refl; same_frames = refl },
      )
      | inr (x, s, e, agrees, split) ↦
          let enters : acquire_frame {E = E} bp ≡ evict {E = E} x (record bp { replacer = s }) =
            unfold acquire_frame in ground (arith, h, e) in
          subst (Acquires bp n) (sym enters)
            (unfold taken in evict-Acquires bp n x s v agrees split)
    ]
  ]
