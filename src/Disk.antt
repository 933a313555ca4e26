-- ===== src/Disk.antt =====
-- internal/storage/disk/disk.go: whole pages in one heap file, addressed by page number.
-- The os.File is its bytes; what the operating system answers to the coming reads and writes is part
-- of the state, one answer for each call, and no answer left means that they succeed. The mutex
-- guards num_pages; each method here is one step between its lock and unlock.
pub mod File
pub mod Pages
pub mod Laws
pub mod Effects
mod Tests
use mini_db.Base.{
  ℕ, zero, suc, ◌+◌, ◌-◌, ◌*◌, ◌/◌, ◌%◌, ◌^◌, Bool, not, List, [], ◌∷◌, ◌++◌, ltb, leb, ◌==◌,
  if◌then◌else◌, length, take, drop, replicate,
}
use mini_db.Base.Copy.{slice, splice}
use mini_db.Base.Exec.{Exec, ◌>>=◌, ◌>>◌, done, fail, gets, modify}
use mini_db.Base.Outcome.{Outcome, ok, err, panic}
use mini_db.Base.Words.{u32}

-- An answer to one read or write: it is carried out, or it fails after so many bytes.
pub data Io : Type 0 where
  fine : Io
  fails : ℕ → Io

pub data DiskError : Type 0 where
  not_whole_pages bad_buffer page_range io_error page_limit : DiskError

pub record DiskManager : Type 0 where
  pub file : List ℕ
  pub num_pages : ℕ
  pub answers : List Io

-- math.MaxUint32
abbrev pub max_pages : ℕ
max_pages = 2 ^ 32 - 1

abbrev pub first_answer : List Io → Io
first_answer [] = fine
first_answer (a ∷ rest) = a

abbrev pub later_answers : List Io → List Io
later_answers [] = []
later_answers (a ∷ rest) = rest

-- `make([]byte, page.PageSize)`
unfoldable pub zero_page : List ℕ
zero_page = replicate 8192 0

-- The bytes of a file after `bs` was written at `off`; a gap reads as zeros.
unfoldable pub write_bytes : ℕ → List ℕ → List ℕ → List ℕ
write_bytes off bs file =
    take off (file ++ replicate (off - length file) 0) ++ bs ++ drop (off + length bs) file

-- The last two steps of Open, on the bytes of the file that it opened.
unfoldable pub open_file : List ℕ → List Io → Outcome DiskError DiskManager
open_file file answers =
    if not (length file % 8192 == 0)
    then err not_whole_pages
    else ok (record { file = file; num_pages = u32 (length file / 8192); answers = answers })

-- A read works on the disk and on the caller's buffer.
abbrev pub Reading : Type 0
Reading = DiskManager × List ℕ

-- `file.ReadAt(dst, off)`: an error unless it fills dst; what it read before that stays in dst.
unfoldable pub read_at : ℕ → Exec Reading DiskError (Unit {0})
read_at off (d, dst) = elim (first_answer d.answers) [
  | fine ↦ (
    (record d { answers = later_answers d.answers }, splice 0 (slice off (length dst) d.file) dst),
    if leb (off + length dst) (length d.file) then ok tt else err io_error,
  )
  | fails n ↦ (
    (
      record d { answers = later_answers d.answers },
      splice 0 (take n (slice off (length dst) d.file)) dst,
    ),
    err io_error,
  )
]

-- `file.WriteAt(src, off)`: on an error the bytes before it are written.
unfoldable pub write_at : ℕ → List ℕ → Exec DiskManager DiskError (Unit {0})
write_at off src d = elim (first_answer d.answers) [
  | fine ↦
      (record d { answers = later_answers d.answers; file = write_bytes off src d.file }, ok tt)
  | fails n ↦ (
    record d { answers = later_answers d.answers; file = write_bytes off (take n src) d.file },
    err io_error,
  )
]

unfoldable pub read_page : ℕ → Exec Reading DiskError (Unit {0})
read_page id (d, dst) =
    if not (length dst == 8192)
    then ((d, dst), err bad_buffer)
    else if leb d.num_pages id
    then ((d, dst), err page_range)
    else read_at (id * 8192) (d, dst)

unfoldable pub write_page : ℕ → List ℕ → Exec DiskManager DiskError (Unit {0})
write_page id src d =
    if not (length src == 8192)
    then (d, err bad_buffer)
    else if leb d.num_pages id
    then (d, err page_range)
    else write_at (id * 8192) src d

unfoldable pub allocate_page : Exec DiskManager DiskError ℕ
allocate_page d =
    if d.num_pages == max_pages
    then (d, err page_limit)
    else (do
      _ ← write_at (d.num_pages * 8192) zero_page
      modify (λ e. record e { num_pages = e.num_pages + 1 })
      done d.num_pages)
        d
