-- ===== src/Disk/Pages.antt =====
-- The heap file as an array of pages: what each operation of the disk manager does to every page.
use native.Mathlib.Decide.{dec_lt, ℕ_discrete}
use mini_db.Base.{
  ℕ, ◌*◌, ◌≤◌, ◌<◌, ◌≡◌, ◌≢◌, refl, sym, ap, ◌∙◌, ◌⊎◌, inl, inr, List, length, take, length-take,
  arith,
}
use mini_db.Base.Copy.{slice, length-slice}
use mini_db.Base.Outcome.{Outcome, ok, err}
use mini_db.Disk.{
  DiskManager, DiskError, Io, fine, fails, first_answer, later_answers, max_pages, write_bytes,
  write_at, write_page, io_error,
}
use mini_db.Disk.File.{
  slice-write_bytes_below, slice-write_bytes_above, slice-write_bytes_self, length-write_bytes,
}

-- Page `id` of the file.
unfoldable pub page_of : DiskManager → ℕ → List ℕ
page_of d id = slice (id * 8192) 8192 d.file

-- Every page below the count lies in the file.
pub record IsDisk (d : DiskManager) : Type 0 where
  pub backed : d.num_pages * 8192 ≤ length d.file
  pub countable : d.num_pages ≤ max_pages

pub length-page_of :
    (d : DiskManager) (id : ℕ) → IsDisk d → id < d.num_pages → length (page_of d id) ≡ 8192
unfolding page_of
length-page_of d id v h = length-slice (id * 8192) 8192 d.file (omega (arith, v.backed))

-- What a write of at most a page at page `id` leaves of the other pages, whether it fails or not.
page_of-write_bytes :
    (d : DiskManager) (id j : ℕ) (bs : List ℕ) (as_left : List Io)
    → IsDisk d
    → length bs ≤ 8192
    → j < d.num_pages
    → j ≢ id
    → page_of (record d { file = write_bytes (id * 8192) bs d.file; answers = as_left }) j
      ≡ page_of d j
unfolding page_of
page_of-write_bytes d id j bs as_left v short h other = elim (dec_lt j id) [
  | yes below ↦
      slice-write_bytes_below (j * 8192) 8192 (id * 8192) bs d.file (omega arith)
        (omega (arith, v.backed))
  | no above ↦
      slice-write_bytes_above (j * 8192) 8192 (id * 8192) bs d.file (omega arith)
        (omega (arith, v.backed))
]

-- What the system writes of `src`, and what it answers.
abbrev pub sent : Io → List ℕ → List ℕ
sent fine src = src
sent (fails n) src = take n src

abbrev pub answered : Io → Outcome DiskError (Unit {0})
answered fine = ok tt
answered (fails n) = err io_error

pub write_at_lem :
    (off : ℕ) (src : List ℕ) (d : DiskManager)
    → write_at off src d ≡ (
      record d {
        file = write_bytes off (sent (first_answer d.answers) src) d.file;
        answers = later_answers d.answers;
      },
      answered (first_answer d.answers),
    )
unfolding write_at
write_at_lem off src d = go (first_answer d.answers) refl
  where
    go :
        (a : Io)
        → first_answer d.answers ≡ a
        → write_at off src d ≡ (
          record d {
            file = write_bytes off (sent (first_answer d.answers) src) d.file;
            answers = later_answers d.answers;
          },
          answered (first_answer d.answers),
        )
    go fine e = rw (e, write_at)
    go (fails n) e = rw (e, write_at)

pub length-sent : (a : Io) (src : List ℕ) → length (sent a src) ≤ length src
length-sent fine src = omega arith
length-sent (fails n) src = omega (arith, length-take n src)

-- The disk after a write of `bs` at page `id`.
abbrev pub rewritten : ℕ → List ℕ → DiskManager → DiskManager
rewritten id bs d = record d {
  file = write_bytes (id * 8192) bs d.file;
  answers = later_answers d.answers;
}

pub rewritten-IsDisk :
    (id : ℕ) (bs : List ℕ) (d : DiskManager) → IsDisk d → IsDisk (rewritten id bs d)
rewritten-IsDisk id bs d v = record {
  backed = omega (arith, v.backed, length-write_bytes (id * 8192) bs d.file);
  countable = v.countable;
}

pub write_page_rejects :
    (id : ℕ) (src : List ℕ) (d : DiskManager)
    → (length src ≢ 8192) ⊎ (d.num_pages ≤ id)
    → (write_page id src d).0 ≡ d
unfolding write_page
write_page_rejects id src d h = ground arith

pub write_page_accepts :
    (id : ℕ) (src : List ℕ) (d : DiskManager)
    → length src ≡ 8192
    → id < d.num_pages
    → write_page id src d
      ≡ (rewritten id (sent (first_answer d.answers) src) d, answered (first_answer d.answers))
write_page_accepts id src d whole h = enters ∙ write_at_lem (id * 8192) src d
  where
    enters : write_page id src d ≡ write_at (id * 8192) src d
    enters = unfold write_page in ground arith

-- WritePage, whether it succeeds, fails part-way or rejects its arguments, changes no page but the
-- one that it is for, keeps the number of pages, and leaves every page backed by the file.
pub write_page-others :
    (d : DiskManager) (id j : ℕ) (src : List ℕ)
    → IsDisk d
    → j < d.num_pages
    → j ≢ id
    → (page_of (write_page id src d).0 j ≡ page_of d j)
      × ((write_page id src d).0.num_pages ≡ d.num_pages)
      × IsDisk (write_page id src d).0
write_page-others d id j src v h other = elim (dec_lt id d.num_pages) [
  | no past ↦ rw (write_page_rejects id src d (inr (omega arith))) (refl, refl, v)
  | yes inside ↦ elim (ℕ_discrete (length src) 8192) [
    | no size ↦ rw (write_page_rejects id src d (inl size)) (refl, refl, v)
    | yes size ↦
        let bs = sent (first_answer d.answers) src in
        rw (write_page_accepts id src d size inside) (
          page_of-write_bytes d id j bs (later_answers d.answers) v
              (omega (arith, length-sent (first_answer d.answers) src)) h other,
          refl,
          rewritten-IsDisk id bs d v,
        )
  ]
]

pub page_of-rewritten :
    (id : ℕ) (src : List ℕ) (d : DiskManager)
    → length src ≡ 8192
    → page_of (rewritten id src d) id ≡ src
unfolding page_of
page_of-rewritten id src d whole =
    ap (λ n. slice (id * 8192) n (write_bytes (id * 8192) src d.file)) (sym whole)
    ∙ slice-write_bytes_self (id * 8192) src d.file

-- A WritePage of one whole page that the system carries out succeeds, makes `src` the page's
-- content, and leaves every page backed by the file.
pub write_page_lem :
    (d : DiskManager) (id : ℕ) (src : List ℕ)
    → IsDisk d
    → length src ≡ 8192
    → id < d.num_pages
    → first_answer d.answers ≡ fine
    → ((write_page id src d).1 ≡ ok tt)
      × (page_of (write_page id src d).0 id ≡ src)
      × IsDisk (write_page id src d).0
write_page_lem d id src v whole h answer =
    rw (write_page_accepts id src d whole h, answer)
      (refl, page_of-rewritten id src d whole, rewritten-IsDisk id src d v)
