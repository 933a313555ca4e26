-- ===== src/Disk/Laws.antt =====
-- Reading back, growing and reopening a heap file.
use mini_db.Base.{
  ℕ, ◌+◌, ◌*◌, ◌≤◌, ◌<◌, ◌≡◌, refl, sym, ap, ◌∙◌, List, length, length-replicate, take, length-take,
  arith,
}
use mini_db.Base.Copy.{slice, length-slice, splice_whole}
use mini_db.Base.Outcome.{ok, err}
use mini_db.Disk.{
  DiskManager, Io, fine, fails, first_answer, later_answers, max_pages, read_at, zero_page,
  write_bytes, read_page, write_page, allocate_page, open_file, io_error, not_whole_pages,
}
use mini_db.Disk.File.{
  slice-write_bytes_below, slice-write_bytes_self, length-write_bytes, length-write_bytes_end,
}
use mini_db.Disk.Pages.{page_of, IsDisk, write_at_lem, write_page_lem, write_page_accepts}

pub zero_page-length : length zero_page ≡ 8192
unfolding zero_page
zero_page-length = length-replicate {A = ℕ} 8192 0

pub read_at_fine :
    (off : ℕ) (d : DiskManager) (dst : List ℕ)
    → off + length dst ≤ length d.file
    → first_answer d.answers ≡ fine
    → read_at off (d, dst)
      ≡ ((record d { answers = later_answers d.answers }, slice off (length dst) d.file), ok tt)
unfolding read_at
read_at_fine off d dst h answer =
    let whole =
      splice_whole (slice off (length dst) d.file) dst (length-slice off (length dst) d.file h) in
    rw (answer, read_at) (rw whole (ground arith))

-- ReadPage of an allocated page into a buffer of one page succeeds if the system carries it out, fills
-- the buffer with the page, and leaves the file as it was.
pub read_page_lem :
    (d : DiskManager) (id : ℕ) (dst : List ℕ)
    → IsDisk d
    → length dst ≡ 8192
    → id < d.num_pages
    → first_answer d.answers ≡ fine
    → read_page id (d, dst)
      ≡ ((record d { answers = later_answers d.answers }, page_of d id), ok tt)
unfolding page_of
read_page_lem d id dst v whole h answer =
    enters
    ∙ (read_at_fine (id * 8192) d dst (omega (arith, v.backed)) answer
        ∙ ap
            (λ n.
              ((record d { answers = later_answers d.answers }, slice (id * 8192) n d.file), ok tt))
            whole)
  where
    enters : read_page id (d, dst) ≡ read_at (id * 8192) (d, dst)
    enters = unfold read_page in ground arith

-- A WritePage followed by a ReadPage of the same page returns what was written, if the system carries
-- out both.
pub read_page-write_page :
    (d : DiskManager) (id : ℕ) (src dst : List ℕ)
    → IsDisk d
    → length src ≡ 8192
    → length dst ≡ 8192
    → id < d.num_pages
    → first_answer d.answers ≡ fine
    → first_answer (later_answers d.answers) ≡ fine
    → ((read_page id ((write_page id src d).0, dst)).0.1 ≡ src)
      × ((read_page id ((write_page id src d).0, dst)).1 ≡ ok tt)
read_page-write_page d id src dst v whole size h now next =
    let (done, content, v') = write_page_lem d id src v whole h now in
    let e = write_page_accepts id src d whole h in
    let read = read_page_lem (write_page id src d).0 id dst v' size (rw e h) (rw e next) in
    rw read (content, refl)

-- The disk after AllocatePage has written `bs` at its end.
abbrev pub grown : List ℕ → ℕ → DiskManager → DiskManager
grown bs n d = record {
  file = write_bytes (d.num_pages * 8192) bs d.file;
  num_pages = n;
  answers = later_answers d.answers;
}

pub grown_keeps :
    (bs : List ℕ) (n j : ℕ) (d : DiskManager)
    → IsDisk d
    → j < d.num_pages
    → page_of (grown bs n d) j ≡ page_of d j
unfolding page_of
grown_keeps bs n j d v h =
    slice-write_bytes_below (j * 8192) 8192 (d.num_pages * 8192) bs d.file (omega arith)
      (omega (arith, v.backed))

pub grown_page :
    (d : DiskManager) → page_of (grown zero_page (d.num_pages + 1) d) d.num_pages ≡ zero_page
unfolding page_of
grown_page d =
    ap (λ n. slice (d.num_pages * 8192) n (write_bytes (d.num_pages * 8192) zero_page d.file))
      (sym zero_page-length)
    ∙ slice-write_bytes_self (d.num_pages * 8192) zero_page d.file

pub allocate_fine :
    (d : DiskManager)
    → d.num_pages < max_pages
    → first_answer d.answers ≡ fine
    → allocate_page d ≡ (grown zero_page (d.num_pages + 1) d, ok d.num_pages)
unfolding allocate_page
allocate_fine d h answer = ground (arith, write_at_lem (d.num_pages * 8192) zero_page d, answer)

pub allocate_fails :
    (d : DiskManager) (n : ℕ)
    → d.num_pages < max_pages
    → first_answer d.answers ≡ fails n
    → allocate_page d ≡ (grown (take n zero_page) d.num_pages d, err io_error)
unfolding allocate_page
allocate_fails d n h answer = ground (arith, write_at_lem (d.num_pages * 8192) zero_page d, answer)

-- AllocatePage, if the system carries out its write, returns the old page count as the id of a zeroed
-- page, counts one page more, and changes no page that was there.
pub allocate_page_lem :
    (d : DiskManager) (j : ℕ)
    → IsDisk d
    → d.num_pages < max_pages
    → first_answer d.answers ≡ fine
    → j < d.num_pages
    → ((allocate_page d).1 ≡ ok d.num_pages)
      × ((allocate_page d).0.num_pages ≡ d.num_pages + 1)
      × (page_of (allocate_page d).0 d.num_pages ≡ zero_page)
      × (page_of (allocate_page d).0 j ≡ page_of d j)
      × IsDisk (allocate_page d).0
allocate_page_lem d j v h answer old =
    rw (allocate_fine d h answer)
      (refl, refl, grown_page d, grown_keeps zero_page (d.num_pages + 1) j d v old, grown_IsDisk)
  where
    grown_IsDisk : IsDisk (grown zero_page (d.num_pages + 1) d)
    grown_IsDisk = record {
      backed =
          omega (arith, length-write_bytes (d.num_pages * 8192) zero_page d.file, zero_page-length);
      countable = omega arith;
    }

-- An AllocatePage whose write fails returns the error and invents no page: the count and every page
-- are as they were.
pub allocate_page_fails :
    (d : DiskManager) (n j : ℕ)
    → IsDisk d
    → d.num_pages < max_pages
    → first_answer d.answers ≡ fails n
    → j < d.num_pages
    → ((allocate_page d).1 ≡ err io_error)
      × ((allocate_page d).0.num_pages ≡ d.num_pages)
      × (page_of (allocate_page d).0 j ≡ page_of d j)
      × IsDisk (allocate_page d).0
allocate_page_fails d n j v h answer old =
    rw (allocate_fails d n h answer)
      (refl, refl, grown_keeps (take n zero_page) d.num_pages j d v old, kept)
  where
    kept : IsDisk (grown (take n zero_page) d.num_pages d)
    kept = record {
      backed =
          omega
            (arith, v.backed, length-write_bytes (d.num_pages * 8192) (take n zero_page) d.file);
      countable = v.countable;
    }

-- Opening the file of a disk manager whose file holds its pages and nothing else gives that disk manager
-- again.
pub open_file_lem :
    (d : DiskManager)
    → length d.file ≡ d.num_pages * 8192
    → d.num_pages ≤ max_pages
    → open_file d.file d.answers ≡ ok d
unfolding open_file
open_file_lem d exact h = ground arith

-- An AllocatePage that fails after part of a page leaves a file that Open refuses, although every page
-- in it is whole.
pub open_file_after_partial :
    (d : DiskManager) (n : ℕ) (answers : List Io)
    → length d.file ≡ d.num_pages * 8192
    → d.num_pages < max_pages
    → first_answer d.answers ≡ fails n
    → 0 < n
    → n < 8192
    → open_file (allocate_page d).0.file answers ≡ err not_whole_pages
open_file_after_partial d n answers exact h answer some few =
    rw (allocate_fails d n h answer) refused
  where
    refused :
        open_file (write_bytes (d.num_pages * 8192) (take n zero_page) d.file) answers
        ≡ err not_whole_pages
    refused =
        unfold open_file in
        ground (
          arith,
          length-write_bytes_end (d.num_pages * 8192) (take n zero_page) d.file exact,
          length-take n zero_page,
          zero_page-length,
        )
