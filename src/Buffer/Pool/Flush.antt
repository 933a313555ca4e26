-- ===== src/Buffer/Pool/Flush.antt =====
-- Flushing, and the pool that NewBufferPool makes.
use mini_db.Base.{
  ℕ, zero, suc, ◌<◌, ◌≡◌, refl, true, false, [], some, ltb, length-replicate, ◌⊎◌, arith,
}
use mini_db.Base.Outcome.{Outcome, ok, err}
use mini_db.Base.Maps.{lookup}
use mini_db.Buffer.Lru.Queue.{member}
use mini_db.Buffer.Lru.Laws.{new_lru-Agrees}
use mini_db.Buffer.Lru.Member.{Unique, tracks-new_lru}
use mini_db.Buffer.Pool.{
  BufferPool, DiskFile, PoolError, flush_error, PageKey, page_key, meta_of, new_buffer_pool,
  all_frames,
}
use mini_db.Buffer.Pool.Invariant.{holds, resident, IsPool}

module _ {F E : Type 0} ⦃dm : DiskFile F E⦄ where
  -- How WritePage ended, and with it FlushPage: the page is clean, or the error is reported.
  abbrev pub Flushed :
      Outcome E (Unit {0})
      → BufferPool F × Outcome (PoolError E) (Unit {0})
      → ℕ
      → BufferPool F
      → Type 0
  Flushed w r f bp' =
      ((w ≡ ok tt) × (r ≡ (bp', ok tt)) × ((meta_of bp' f).dirty ≡ false))
      ⊎ ((e : E) × (w ≡ err e) × (r ≡ (bp', err (flush_error e))) × ((meta_of bp' f).dirty ≡ true))

pub member-all_frames : (n f : ℕ) → member f (all_frames n) ≡ ltb f n
unfolding member all_frames
member-all_frames zero f = ground arith
member-all_frames (suc n) f = ground (arith, member-all_frames n f)

pub all_frames-Unique : (n : ℕ) → Unique (all_frames n)
unfolding all_frames
all_frames-Unique zero = tt
all_frames-Unique (suc n) = (ground (arith, member-all_frames n n), all_frames-Unique n)

pub none-ne-some : (k : PageKey) (f : ℕ) → lookup {V = ℕ} k [] ≡ some f → ⊥
unfolding lookup
none-ne-some k f e = cc

-- NewBufferPool of a positive size makes a pool of that many frames, all of them free.
pub new_buffer_pool-IsPool :
    {F E : Type 0} (n : ℕ)
    → 0 < n
    → (bp : BufferPool F) × (new_buffer_pool {E = E} n ≡ ok bp)
      × IsPool bp n
      × (bp.free_list ≡ all_frames n)
unfolding new_buffer_pool
new_buffer_pool-IsPool zero h = absurd (omega arith)
new_buffer_pool-IsPool (suc n) h = (
  _,
  refl,
  record {
    frame_count = length-replicate (suc n) _;
    meta_count = length-replicate (suc n) _;
    replacer_agrees = new_lru-Agrees.0;
    held = λ k f found. absurd (none-ne-some k f found);
    free_once = all_frames-Unique (suc n);
    free_in_range = λ f t. ground (arith, member-all_frames (suc n) f);
    idle_in_range = λ f t. ground (arith, tracks-new_lru f);
    free_or_resident =
        λ f lt. unfold resident holds lookup in ground (arith, member-all_frames (suc n) f);
    idle = λ f lt. unfold resident holds lookup in ground (arith, tracks-new_lru f);
  },
  refl,
)
