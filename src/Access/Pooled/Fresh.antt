-- ===== src/Access/Pooled/Fresh.antt =====
-- The pool that NewBufferPool makes, with one registered file.
use mini_db.Base.{
  ℕ, suc, ◌<◌, ◌≡◌, refl, ap, ◌∙◌, [], none, length, get_or, replicate, length-replicate, arith,
  zero,
}
use mini_db.Base.Maps.{lookup}
use mini_db.Base.Outcome.{ok}
use mini_db.Page.{new_page as zero_frame}
use mini_db.Disk.{DiskManager, DiskError}
use mini_db.Disk.Pages.{page_of, IsDisk}
use mini_db.Buffer.Lru.{new_lru}
use mini_db.Buffer.Lru.Laws.{new_lru-Agrees}
use mini_db.Buffer.Lru.Member.{tracks-new_lru}
use mini_db.Buffer.Pool.{page_key, no_meta, all_frames, new_buffer_pool, register}
use mini_db.Buffer.Pool.Invariant.{holds, resident, IsPool}
use mini_db.Buffer.Pool.Flush.{member-all_frames, all_frames-Unique, none-ne-some}
use mini_db.Buffer.Content.{Pool, shown, frame_of, content, IsShown}
use mini_db.Access.Pooled.{Pooled, IsBacked}
use mini_db.Access.Pooled.Listing.{upto, length-upto, get_elem?-upto, upto_congr}
use mini_db.Access.Pooled.Calls.{pages-upto}
use mini_db.Access.Pooled.Interface.{pool_laws}

abbrev pub empty_pool : ℕ → Pool
empty_pool n = record {
  files = [];
  frames = replicate (suc n) zero_frame;
  meta = replicate (suc n) no_meta;
  page_table = [];
  free_list = all_frames (suc n);
  replacer = new_lru;
}

abbrev pub fresh : ℕ → DiskManager → Pooled
fresh n d = record { bp = (register d (empty_pool n)).0; said = upto d.num_pages (page_of d) }

pub new_buffer_pool-empty :
    (n : ℕ) → new_buffer_pool {F = DiskManager} {E = DiskError} (suc n) ≡ ok (empty_pool n)
unfolding new_buffer_pool
new_buffer_pool-empty n = refl

frame_size : (n f : ℕ) → f < n → length (get_or (replicate n zero_frame) f []) ≡ 8192
unfolding zero_frame
frame_size zero f l = absurd (omega arith)
frame_size (suc n) zero l = length-replicate {A = ℕ} 8192 0
frame_size (suc n) (suc f) l = frame_size n f (omega arith)

pub fresh-IsPool : (n : ℕ) (d : DiskManager) → IsPool (fresh n d).bp (suc n)
unfolding register
fresh-IsPool n d = record {
  frame_count = length-replicate (suc n) zero_frame;
  meta_count = length-replicate (suc n) no_meta;
  replacer_agrees = new_lru-Agrees.0;
  held = λ k f found. absurd (none-ne-some k f found);
  free_once = all_frames-Unique (suc n);
  free_in_range = λ f t. ground (arith, member-all_frames (suc n) f);
  idle_in_range = λ f t. ground (arith, tracks-new_lru f);
  free_or_resident =
      λ f lt. unfold resident holds lookup in ground (arith, member-all_frames (suc n) f);
  idle = λ f lt. unfold resident holds lookup in ground (arith, tracks-new_lru f);
}

no_frame : (n pid : ℕ) (d : DiskManager) → frame_of 0 (fresh n d).bp pid ≡ none
unfolding register lookup
no_frame n pid d = refl

pub fresh-IsShown :
    (n : ℕ) (d : DiskManager) → IsDisk d → IsShown 0 (fresh n d).said (suc n) (fresh n d).bp d
fresh-IsShown n d sound = record {
  filed = unfold register in refl;
  sound = sound;
  sized = λ f l. unfold register in frame_size (suc n) f l;
  in_file = λ q f e. absurd (ground (arith, no_frame n q d, e));
  said_count = length-upto d.num_pages (page_of d);
  absent = λ q l e. get_elem?-upto d.num_pages q (page_of d) l;
  clean = λ q f e c. absurd (ground (arith, no_frame n q d, e));
  rested = λ q f e c. absurd (ground (arith, no_frame n q d, e));
}

abbrev pub fresh-IsBacked : (n : ℕ) (d : DiskManager) → IsDisk d → IsBacked 0 (fresh n d)
fresh-IsBacked n d sound = record {
  size = suc n;
  disk = d;
  whole = fresh-IsPool n d;
  shows = fresh-IsShown n d sound;
}

-- The pool of n + 1 frames that NewBufferPool makes, with one file of whole pages registered, is a
-- valid state of the pager interface, and it shows the pages on the disk, as they were declared.
pub fresh-settled :
    (n : ℕ) (d : DiskManager)
    → IsDisk d
    → (pool_laws 0).Valid (fresh n d)
      × ((pool_laws 0).pages (fresh n d) ≡ upto d.num_pages (page_of d))
      × ((pool_laws 0).pages (fresh n d) ≡ (pool_laws 0).declared (fresh n d))
fresh-settled n d sound =
    let listed =
      pages-upto 0 (fresh n d) (fresh-IsBacked n d sound)
      ∙ upto_congr d.num_pages (content 0 (fresh n d).bp d) (page_of d)
          (λ i l. ap (λ o. shown o (fresh n d).bp d i) (no_frame n i d)) in
    (fresh-IsBacked n d sound, listed, listed)
