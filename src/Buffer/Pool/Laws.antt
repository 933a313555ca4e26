-- ===== src/Buffer/Pool/Laws.antt =====
-- What the operations of the pool do to its frames, on every branch.
use mini_db.Base.{
  ℕ, ◌+◌, ◌-◌, ◌<◌, ◌≡◌, ◌≢◌, refl, ap, ◌∙◌, Bool, true, false, ◌||◌, List, none, some, ◌==◌,
  if◌then◌else◌, length, get_elem?, set, length-set, get_or-set_self, Bool-cases, Option-cases, ◌⊎◌,
  inl, inr, arith,
}
use native.Mathlib.Decide.{ℕ_discrete}
use mini_db.Base.Outcome.{Outcome, ok, err, wrap_err, returned}
use mini_db.Base.Maps.{lookup, lookup-insert}
use mini_db.Buffer.Lru.{Lru, unpin}
use mini_db.Buffer.Lru.Queue.{Agrees, member}
use mini_db.Buffer.Lru.Laws.{unpin-queue}
use mini_db.Buffer.Lru.Member.{tracks, tracks-unpin}
use mini_db.Buffer.Pool.{
  BufferPool, DiskFile, FrameMeta, PoolError, not_resident, not_pinned, load_error, PageKey,
  page_key, same_key_iff, no_meta, release, meta_of, bytes_of, bind_frame, pin_frame, load_frame,
  install, fetch, unpin_page,
}
use mini_db.Buffer.Pool.Invariant.{
  key_of, pins_of, resident, IsPool, frames-IsPool, update-IsPool, pin_frame-IsPool, resident_key,
}
use mini_db.Buffer.Pool.Binding.{bind_frame-IsPool}
use mini_db.Buffer.Pool.Acquire.{Returns, get_elem?_inside, acquire_frame-Acquires}

-- The page table finds `key` in frame f, and somebody holds it.
pub record IsPinned {F : Type 0} (key : PageKey) (f : ℕ) (bp : BufferPool F) : Type 0 where
  pub found : lookup key bp.page_table ≡ some f
  pub in_use : 0 < pins_of bp f

module _ {F : Type 0} where
  -- The pool after a read into frame f left the file d and the frame bytes.
  abbrev pub loaded : PageKey → ℕ → F × List ℕ → BufferPool F → BufferPool F
  loaded key f r bp = record bp { files = set bp.files key.file r.0; frames = set bp.frames f r.1 }

  pub loaded-IsPool :
      (bp : BufferPool F) (n : ℕ) (key : PageKey) (f : ℕ) (r : F × List ℕ)
      → IsPool (release f bp) n
      → IsPool (release f (loaded key f r bp)) n
  unfolding release
  loaded-IsPool bp n key f r v =
      frames-IsPool (release f bp) n (set bp.frames f r.1) (set bp.files key.file r.0)
        (length-set bp.frames f r.1 ∙ v.frame_count) (length-set bp.files key.file r.0) v

  bind_frame-IsPinned :
      (bp : BufferPool F) (n : ℕ) (key : PageKey) (f : ℕ)
      → IsPool (release f bp) n
      → IsPinned key f (bind_frame f key bp)
  unfolding bind_frame release
  bind_frame-IsPinned bp n key f v =
      let lt : f < n = v.free_in_range f (unfold member in ground arith) in
      let bound : FrameMeta = record { key = key; pin_count = 1; dirty = false } in
      let here = get_or-set_self bp.meta f bound no_meta (omega (arith, lt, v.meta_count)) in
      record {
        found = ground (arith, lookup-insert key key f bp.page_table, same_key_iff key key);
        in_use = ground (arith, ap (λ m. m.pin_count) here);
      }

  pin_frame-IsPinned :
      (bp : BufferPool F) (n : ℕ) (key : PageKey) (f : ℕ)
      → IsPool bp n
      → lookup key bp.page_table ≡ some f
      → IsPinned key f (pin_frame f bp)
  unfolding pin_frame
  pin_frame-IsPinned bp n key f v found =
      let (lt, named, opened) = v.held key f found in
      let m = meta_of bp f in
      let here =
        get_or-set_self bp.meta f (record m { pin_count = m.pin_count + 1 }) no_meta
          (omega (arith, lt, v.meta_count)) in
      record { found = found; in_use = ground (arith, ap (λ m. m.pin_count) here) }

  -- The record and the replacer after one pin was released.
  abbrev pub unpinned : BufferPool F → ℕ → Bool → FrameMeta
  unpinned bp f dirty = record {
    key = key_of bp f;
    pin_count = pins_of bp f - 1;
    dirty = (meta_of bp f).dirty || dirty;
  }

  abbrev pub requeued : BufferPool F → ℕ → Lru
  requeued bp f = if pins_of bp f - 1 == 0 then unpin f bp.replacer else bp.replacer

  pub requeued-tracks :
      (bp : BufferPool F) (n f : ℕ) (dirty : Bool)
      → IsPool bp n
      → f < n
      → resident bp f ≡ true
      → pins_of bp f ≢ 0
      → Agrees (requeued bp f)
        × ((g : ℕ)
            → tracks g (requeued bp f)
              ≡ (if f == g then (pins_of bp f - 1 == 0) else tracks g bp.replacer))
  requeued-tracks bp n f dirty v lt present used = elim (Bool-cases (pins_of bp f - 1 == 0)) [
    | inl last ↦ rw last (
      (unpin-queue f bp.replacer v.replacer_agrees).0,
      λ g. tracks-unpin f g bp.replacer v.replacer_agrees,
    )
    | inr more ↦ rw more (v.replacer_agrees, λ g. ground (arith, v.idle f lt, present))
  ]

module _ {F E : Type 0} ⦃dm : DiskFile F E⦄ where
  -- What ReadPage makes of a file and a frame.
  abbrev pub read_of : BufferPool F → PageKey → ℕ → F → (F × List ℕ) × Outcome E (Unit {0})
  read_of bp key f d = dm.read key.pid (d, bytes_of bp f)

  module _ (bp : BufferPool F) (key : PageKey) (f : ℕ) (d : F)
      (there : get_elem? bp.files key.file ≡ some d) where
    load_frame_open :
        load_frame key f bp
        ≡ (loaded key f (read_of bp key f d).0 bp, wrap_err load_error (read_of bp key f d).1)
    unfolding load_frame
    load_frame_open = ground (arith, there)

    pub install_ok :
        (a : Unit {0})
        → (read_of bp key f d).1 ≡ ok a
        → install {E = E} key f bp
          ≡ (bind_frame f key (loaded key f (read_of bp key f d).0 bp), ok f)
    unfolding install
    install_ok a fine = ground (arith, load_frame_open, fine)

    pub install_err :
        (e : E)
        → (read_of bp key f d).1 ≡ err e
        → install key f bp
          ≡ (release f (loaded key f (read_of bp key f d).0 bp), err (load_error e))
    unfolding install
    install_err e failed = ground (arith, load_frame_open, failed)

  module _ (returns : Returns dm) where
    -- On a pool whose frames are each free, in use or idle, over files whose methods return, FetchPage of
    -- a page of a registered file returns a frame in which the page table finds the page, pinned, or an
    -- error; either way each frame is again in exactly one of the three states.
    pub fetch-IsPool :
        (bp : BufferPool F) (n : ℕ) (key : PageKey)
        → IsPool bp n
        → key.file < length bp.files
        → ((f : ℕ) × (bp' : BufferPool F) × (fetch {E = E} key bp ≡ (bp', ok f))
            × IsPool bp' n
            × IsPinned key f bp')
          ⊎ ((e : PoolError E) × (bp' : BufferPool F) × (fetch {E = E} key bp ≡ (bp', err e))
              × IsPool bp' n)
    fetch-IsPool bp n key v opened = elim (Option-cases (lookup key bp.page_table)) [
      | inr (f, found) ↦ inl (
        f,
        pin_frame f bp,
        unfold fetch in ground (arith, found),
        pin_frame-IsPool bp n key f v found,
        pin_frame-IsPinned bp n key f v found,
      )
      | inl absent ↦ elim (acquire_frame-Acquires returns bp n v) [
        | inr (e, bp', full, v', moved) ↦
            inr (e, bp', unfold fetch in ground (arith, absent, full), v')
        | inl (f, bp', got, a, moved) ↦
            let (d, there) = get_elem?_inside bp'.files key.file (rw a.same_files opened) in
            let r = read_of bp' key f d in
            let v' = loaded-IsPool bp' n key f r.0 a.owned in
            elim (returned r.1 (returns.reads key.pid d (bytes_of bp' f))) [
              | inl (u, fine) ↦ inl (
                f,
                bind_frame f key (loaded key f r.0 bp'),
                unfold fetch in ground (arith, absent, got, install_ok bp' key f d there u fine),
                bind_frame-IsPool (loaded key f r.0 bp') n f key v' (a.forgets key absent)
                    (rw (length-set bp'.files key.file r.0.0, a.same_files) opened),
                bind_frame-IsPinned (loaded key f r.0 bp') n key f v',
              )
              | inr (e, failed) ↦ inr (
                load_error e,
                release f (loaded key f r.0 bp'),
                unfold fetch in ground (arith, absent, got, install_err bp' key f d there e failed),
                v',
              )
            ]
      ]
    ]

  -- On a pool whose frames are each in one of the three states, UnpinPage releases one pin of a pinned
  -- page, merges the dirty flag, and keeps the frames in their states; a page that is not resident or
  -- not pinned is an error that changes nothing.
  pub unpin_page-IsPool :
      (bp : BufferPool F) (n : ℕ) (key : PageKey) (dirty : Bool)
      → IsPool bp n
      → ((f : ℕ) × (bp' : BufferPool F) × (lookup key bp.page_table ≡ some f)
          × (unpin_page {E = E} key dirty bp ≡ (bp', ok tt))
          × IsPool bp' n
          × (pins_of bp f ≡ pins_of bp' f + 1)
          × ((meta_of bp' f).dirty ≡ ((meta_of bp f).dirty || dirty)))
        ⊎ ((unpin_page {E = E} key dirty bp ≡ (bp, err not_resident))
            × (lookup key bp.page_table ≡ none))
        ⊎ ((f : ℕ) × (unpin_page {E = E} key dirty bp ≡ (bp, err not_pinned))
            × (lookup key bp.page_table ≡ some f)
            × (pins_of bp f ≡ 0))
  unpin_page-IsPool bp n key dirty v = elim (Option-cases (lookup key bp.page_table)) [
    | inl absent ↦ inr (inl (unfold unpin_page in ground (arith, absent), absent))
    | inr (f, found) ↦ elim (ℕ_discrete (pins_of bp f) 0) [
      | yes unused ↦
          inr (inr (f, unfold unpin_page in ground (arith, found, unused), found, unused))
      | no used ↦
          let (lt, named, opened) = v.held key f found in
          let present = resident_key bp n key f v found in
          let (agrees, follows) = requeued-tracks bp n f dirty v lt present used in
          let here =
            get_or-set_self bp.meta f (unpinned bp f dirty) no_meta
              (omega (arith, lt, v.meta_count)) in
          inl (
            f,
            record bp { meta = set bp.meta f (unpinned bp f dirty); replacer = requeued bp f },
            found,
            unfold unpin_page in ground (arith, found, used),
            update-IsPool bp n f (unpinned bp f dirty) (requeued bp f) v lt present refl agrees
                follows,
            ground (arith, used, ap (λ m. m.pin_count) here),
            ap (λ m. m.dirty) here,
          )
    ]
  ]
