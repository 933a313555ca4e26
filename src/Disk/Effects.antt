-- ===== src/Disk/Effects.antt =====
-- What one call of the disk manager does to its pages, whichever way it ends.
use native.Mathlib.Decide.{dec_lt, ℕ_discrete}
use mini_db.Base.{
  ℕ, ◌+◌, ◌*◌, ◌≤◌, ◌<◌, ◌≡◌, refl, sym, ◌∙◌, ◌⊎◌, inl, inr, List, length, take, arith,
}
use mini_db.Base.Copy.{slice, splice, length-splice}
use mini_db.Base.Outcome.{Outcome, ok, err}
use mini_db.Disk.{
  DiskManager, DiskError, Io, fine, fails, first_answer, later_answers, max_pages, read_at,
  zero_page, read_page, write_page, allocate_page, page_limit, page_range, io_error,
}
use mini_db.Disk.File.{length-write_bytes}
use mini_db.Disk.Pages.{
  page_of, IsDisk, length-page_of, sent, answered, rewritten, rewritten-IsDisk, page_of-rewritten,
  write_page_accepts,
}
use mini_db.Disk.Laws.{
  zero_page-length, grown, grown_keeps, grown_page, allocate_fine, allocate_fails, read_page_lem,
}

pub write_page_effect :
    (d : DiskManager) (id : ℕ) (src : List ℕ)
    → IsDisk d
    → length src ≡ 8192
    → id < d.num_pages
    → ((write_page id src d).0.num_pages ≡ d.num_pages)
      × IsDisk (write_page id src d).0
      × ((write_page id src d).1 ≡ ok tt → page_of (write_page id src d).0 id ≡ src)
write_page_effect d id src v whole h =
    rw (write_page_accepts id src d whole h)
      (refl, rewritten-IsDisk id _ d v, carried (first_answer d.answers))
  where
    carried : (a : Io) → answered a ≡ ok tt → page_of (rewritten id (sent a src) d) id ≡ src
    carried fine e = page_of-rewritten id src d whole
    carried (fails n) e = absurd cc

-- A read keeps the bytes of the file and the count.
pub record IsRead (id : ℕ) (d : DiskManager) (dst : List ℕ)
    (r : (DiskManager × List ℕ) × Outcome DiskError (Unit {0})) : Type 0 where
  pub same_file : r.0.0.file ≡ d.file
  pub same_count : r.0.0.num_pages ≡ d.num_pages
  pub same_size : length r.0.1 ≡ length dst
  pub filled : r.1 ≡ ok tt → (id < d.num_pages) × (r.0.1 ≡ page_of d id)

read_at_fails :
    (off n : ℕ) (d : DiskManager) (dst : List ℕ)
    → first_answer d.answers ≡ fails n
    → read_at off (d, dst) ≡ (
      (
        record d { answers = later_answers d.answers },
        splice 0 (take n (slice off (length dst) d.file)) dst,
      ),
      err io_error,
    )
unfolding read_at
read_at_fails off n d dst e = rw (e, read_at) refl

pub read_page-IsRead :
    (d : DiskManager) (id : ℕ) (dst : List ℕ)
    → IsDisk d
    → length dst ≡ 8192
    → IsRead id d dst (read_page id (d, dst))
read_page-IsRead d id dst v whole = elim (dec_lt id d.num_pages) [
  | no past ↦
      let run : read_page id (d, dst) ≡ ((d, dst), err page_range) =
        unfold read_page in ground arith in
      rw run
        (record { same_file = refl; same_count = refl; same_size = refl; filled = λ e. absurd cc })
  | yes inside ↦ carried inside (first_answer d.answers) refl
]
  where
    carried :
        id < d.num_pages
        → (a : Io) → first_answer d.answers ≡ a
        → IsRead id d dst (read_page id (d, dst))
    carried inside fine e = rw (read_page_lem d id dst v whole inside e) (record {
      same_file = refl;
      same_count = refl;
      same_size = length-page_of d id v inside ∙ sym whole;
      filled = λ done. (inside, refl);
    })
    carried inside (fails n) e =
        let enters : read_page id (d, dst) ≡ read_at (id * 8192) (d, dst) =
          unfold read_page in ground arith in
        rw (enters ∙ read_at_fails (id * 8192) n d dst e) (record {
          same_file = refl;
          same_count = refl;
          same_size = length-splice 0 _ dst;
          filled = λ done. absurd cc;
        })

grown-IsDisk :
    (bs : List ℕ) (n : ℕ) (d : DiskManager)
    → IsDisk d
    → n * 8192 ≤ d.num_pages * 8192 + length bs
    → n ≤ max_pages
    → d.num_pages ≤ n
    → IsDisk (grown bs n d)
grown-IsDisk bs n d v room few more = record {
  backed = omega (arith, v.backed, length-write_bytes (d.num_pages * 8192) bs d.file);
  countable = few;
}

-- What AllocatePage leaves of the pages, and what it returns.
pub record IsGrown (d : DiskManager) (r : DiskManager × Outcome DiskError ℕ) : Type 0 where
  pub sound : IsDisk r.0
  pub others : (j : ℕ) → j < d.num_pages → page_of r.0 j ≡ page_of d j
  pub ended :
      ((r.1 ≡ ok d.num_pages)
        × (r.0.num_pages ≡ d.num_pages + 1)
        × (page_of r.0 d.num_pages ≡ zero_page))
      ⊎ ((e : DiskError) × (r.1 ≡ err e) × (r.0.num_pages ≡ d.num_pages))

pub allocate_page-IsGrown : (d : DiskManager) → IsDisk d → IsGrown d (allocate_page d)
allocate_page-IsGrown d v = elim (ℕ_discrete d.num_pages max_pages) [
  | yes packed ↦
      let run : allocate_page d ≡ (d, err page_limit) =
        unfold allocate_page in ground (arith, packed) in
      rw run (record { sound = v; others = λ j l. refl; ended = inr (page_limit, refl, refl) })
  | no room ↦ written (first_answer d.answers) refl (omega (arith, v.countable))
]
  where
    written :
        (a : Io)
        → first_answer d.answers ≡ a
        → d.num_pages < max_pages
        → IsGrown d (allocate_page d)
    written fine e h = rw (allocate_fine d h e) (record {
      sound =
          grown-IsDisk zero_page (d.num_pages + 1) d v (omega (arith, zero_page-length))
            (omega arith) (omega arith);
      others = λ j l. grown_keeps zero_page (d.num_pages + 1) j d v l;
      ended = inl (refl, refl, grown_page d);
    })
    written (fails n) e h = rw (allocate_fails d n h e) (record {
      sound =
          grown-IsDisk (take n zero_page) d.num_pages d v (omega arith) v.countable (omega arith);
      others = λ j l. grown_keeps (take n zero_page) d.num_pages j d v l;
      ended = inr (io_error, refl, refl);
    })
