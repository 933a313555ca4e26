-- ===== src/Buffer/Content.antt =====
-- The pages of one file of the disk manager as the pool shows them: a resident page is the bytes of
-- its frame, any other the page on the disk.
pub mod Writes
pub mod Kept
pub mod Left
pub mod Moves
pub mod Bound
pub mod Labels
pub mod Lent
pub mod Fetch
pub mod Create
use mini_db.Base.{ℕ, zero, ◌<◌, ◌≡◌, List, Option, none, some, length, get_elem?, false}
use mini_db.Base.Maps.{lookup}
use mini_db.Disk.{DiskManager}
use mini_db.Disk.Pages.{page_of, IsDisk}
use mini_db.Buffer.Pool.{BufferPool, PageKey, page_key, meta_of, bytes_of}
use mini_db.Buffer.Pool.Invariant.{pins_of}

abbrev pub Pool : Type 0
Pool = BufferPool DiskManager

abbrev pub shown : Option ℕ → Pool → DiskManager → ℕ → List ℕ
shown none bp d pid = page_of d pid
shown (some f) bp d pid = bytes_of bp f

abbrev pub pins_at : Option ℕ → Pool → ℕ
pins_at none bp = 0
pins_at (some f) bp = pins_of bp f

module _ (file : ℕ) where
  abbrev pub key_at : ℕ → PageKey
  key_at pid = record { file = file; pid = pid }

  abbrev pub frame_of : Pool → ℕ → Option ℕ
  frame_of bp pid = lookup (key_at pid) bp.page_table

  abbrev pub content : Pool → DiskManager → ℕ → List ℕ
  content bp d pid = shown (frame_of bp pid) bp d pid

  -- How many pins the page has.
  abbrev pub pinned : Pool → ℕ → ℕ
  pinned bp pid = pins_at (frame_of bp pid) bp

  -- Over a pool of n frames and the file d: `said` are the pages as their holders declared them. A
  -- page that is not in a dirty frame is on the disk as it was declared, and a frame that nobody
  -- holds shows what was declared.
  pub record IsShown (said : List (List ℕ)) (n : ℕ) (bp : Pool) (d : DiskManager) : Type 0 where
    pub filed : get_elem? bp.files file ≡ some d
    pub sound : IsDisk d
    pub sized : (f : ℕ) → f < n → length (bytes_of bp f) ≡ 8192
    pub in_file : (pid f : ℕ) → frame_of bp pid ≡ some f → pid < d.num_pages
    pub said_count : length said ≡ d.num_pages
    pub absent :
        (pid : ℕ)
        → pid < d.num_pages
        → frame_of bp pid ≡ none
        → get_elem? said pid ≡ some (page_of d pid)
    pub clean :
        (pid f : ℕ)
        → frame_of bp pid ≡ some f
        → (meta_of bp f).dirty ≡ false
        → get_elem? said pid ≡ some (page_of d pid)
    pub rested :
        (pid f : ℕ)
        → frame_of bp pid ≡ some f
        → pins_of bp f ≡ 0
        → get_elem? said pid ≡ some (bytes_of bp f)

  -- Another state of the pool and the disk that shows the same pages and pins.
  pub record IsSame (bp bp' : Pool) (d d' : DiskManager) : Type 0 where
    pub same_count : d'.num_pages ≡ d.num_pages
    pub same_content : (pid : ℕ) → pid < d.num_pages → content bp' d' pid ≡ content bp d pid
    pub same_pins : (pid : ℕ) → pinned bp' pid ≡ pinned bp pid
    pub keeps :
        (pid f : ℕ) → frame_of bp pid ≡ some f → 0 < pins_of bp f → frame_of bp' pid ≡ some f
