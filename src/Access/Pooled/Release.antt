-- ===== src/Access/Pooled/Release.antt =====
-- UnpinPage of a page that is held.
use mini_db.Base.{ℕ, ◌≡◌, ◌≢◌, refl, Bool, some, arith}
use mini_db.Base.Maps.{lookup}
use mini_db.Base.Outcome.{ok}
use mini_db.Disk.{DiskError}
use mini_db.Buffer.Backing.{disk_file}
use mini_db.Buffer.Pool.{PageKey, page_key, unpin_page}
use mini_db.Buffer.Pool.Invariant.{pins_of, IsPool, update-IsPool, resident_key}
use mini_db.Buffer.Pool.Laws.{unpinned, requeued, requeued-tracks}
use mini_db.Buffer.Content.{Pool}
use mini_db.Buffer.Content.Labels.{labelled}

abbrev pub let_go : Pool → ℕ → Bool → Pool
let_go bp f dirty = labelled f (unpinned bp f dirty) (requeued bp f) bp

module _ (bp : Pool) (n : ℕ) (key : PageKey) (f : ℕ) (dirty : Bool) (v : IsPool bp n)
    (found : lookup key bp.page_table ≡ some f) (used : pins_of bp f ≢ 0) where
  pub unpin_page-let_go : unpin_page {E = DiskError} key dirty bp ≡ (let_go bp f dirty, ok tt)
  unfolding unpin_page
  unpin_page-let_go = ground (arith, found, used)

  pub let_go-IsPool : IsPool (let_go bp f dirty) n
  let_go-IsPool =
      let present = resident_key bp n key f v found in
      let lt = (v.held key f found).0 in
      let (agrees, follows) = requeued-tracks bp n f dirty v lt present used in
      update-IsPool bp n f (unpinned bp f dirty) (requeued bp f) v lt present refl agrees follows
