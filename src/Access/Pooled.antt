-- ===== src/Access/Pooled.antt =====
-- internal/storage/buffer/buffer_pool.go behind the pager interface of the access methods: the pool
-- and disk manager of this development, for one file. Beside the pool the state keeps what the
-- holders of pages declared; no operation of the pool reads it.
pub mod Listing
pub mod Release
pub mod Calls
pub mod Laws
pub mod Interface
pub mod Fresh
use mini_db.Base.{
  ℕ, Bool, true, false, List, [], ◌∷◌, ◌++◌, Option, none, some, get_elem?, set, ◌≡◌, ◌<◌,
}
use mini_db.Base.Outcome.{Outcome, ok, err, panic}
use mini_db.Page.{new_page as zero_frame}
use mini_db.Disk.{DiskManager, DiskError}
use mini_db.Buffer.Pool.{
  PoolError, PageKey, page_key, bytes_of, fetch, allocate_page_in, unpin_page, pages_in,
  write_frame,
}
use mini_db.Buffer.Pool.Invariant.{IsPool}
use mini_db.Buffer.Backing.{disk_file}
use mini_db.Buffer.Content.{Pool, key_at, frame_of, content, pinned, IsShown}
use mini_db.Access.Pager.{Pager}
use mini_db.Access.Pooled.Listing.{upto}

pub record Pooled : Type 0 where
  pub bp : Pool
  pub said : List (List ℕ)

abbrev pub count_of : Outcome (PoolError DiskError) ℕ → ℕ
count_of (ok n) = n
count_of (err e) = 0
count_of panic = 0

abbrev pub with_created : Outcome (PoolError DiskError) (ℕ × ℕ) → List (List ℕ) → List (List ℕ)
with_created (ok r) said = said ++ zero_frame ∷ []
with_created (err e) said = said
with_created panic said = said

abbrev pub frame_bytes : Option ℕ → Pool → List ℕ
frame_bytes none bp = []
frame_bytes (some f) bp = bytes_of bp f

abbrev pub with_dirty : Bool → ℕ → List ℕ → List (List ℕ) → List (List ℕ)
with_dirty true pid b said = set said pid b
with_dirty false pid b said = said

module _ (file : ℕ) where
  abbrev pub pool_pager : Pager Pooled ℕ (PoolError DiskError)
  pool_pager = record {
    fetch_page =
        λ pid s. let r = fetch (key_at file pid) s.bp in (record { bp = r.0; said = s.said }, r.1);
    new_page = λ s.
        let r = allocate_page_in file s.bp in
        (record { bp = r.0; said = with_created r.1 s.said }, r.1);
    unpin_page = λ pid dirty s.
        let r = unpin_page (key_at file pid) dirty s.bp in
        (
          record {
            bp = r.0;
            said = with_dirty dirty pid (frame_bytes (frame_of file s.bp pid) s.bp) s.said;
          },
          r.1,
        );
    num_pages = λ s. count_of (pages_in file s.bp);
    load = λ p s. bytes_of s.bp p;
    store = λ p b s. record { bp = write_frame p b s.bp; said = s.said };
  }

  -- The pages of a file of the pool.
  abbrev pub pages_of : Option DiskManager → Pool → List (List ℕ)
  pages_of none bp = []
  pages_of (some d) bp = upto d.num_pages (content file bp d)

  -- The pool is well-formed and shows the file.
  pub record IsBacked (s : Pooled) : Type 0 where
    pub size : ℕ
    pub disk : DiskManager
    pub whole : IsPool s.bp size
    pub shows : IsShown file s.said size s.bp disk

  abbrev pub IsHeld : ℕ → ℕ → Pooled → Type 0
  IsHeld p pid s = (frame_of file s.bp pid ≡ some p) × (0 < pinned file s.bp pid)
