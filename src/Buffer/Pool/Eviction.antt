-- ===== src/Buffer/Pool/Eviction.antt =====
-- A victim gives its page up, and AcquireFrame returns a frame that nobody holds.
use mini_db.Base.{ℕ, ◌<◌, ◌≡◌, true, false, List, ◌∷◌, some, ◌==◌, if◌then◌else◌, length, arith}
use mini_db.Base.Maps.{lookup, remove, lookup-remove}
use mini_db.Buffer.Lru.{Lru}
use mini_db.Buffer.Lru.Queue.{Agrees, member}
use mini_db.Buffer.Lru.Member.{tracks}
use mini_db.Buffer.Pool.{BufferPool, PageKey, page_key, same_key_iff}
use mini_db.Buffer.Pool.Invariant.{holds, key_of, resident, IsPool}

module _ {F : Type 0} where
  -- The pool after the page of frame `f` was dropped and the frame put on the free list.
  abbrev pub dropped : ℕ → Lru → List F → BufferPool F → BufferPool F
  dropped f s files bp = record bp {
    replacer = s;
    files = files;
    page_table = remove (key_of bp f) bp.page_table;
    free_list = f ∷ bp.free_list;
  }

  module _ (bp : BufferPool F) (n f : ℕ) (s : Lru) (files : List F) (v : IsPool bp n)
      (idle : tracks f bp.replacer ≡ true) where
    pub in_range : f < n
    in_range = v.idle_in_range f idle

    present : resident bp f ≡ true
    present = ground (arith, v.idle f in_range, idle)

    pub holder : lookup (key_of bp f) bp.page_table ≡ some f
    holder = unfold resident holds in ground (arith, present)

    residents :
        (g : ℕ) → resident (dropped f s files bp) g ≡ (if f == g then false else resident bp g)
    unfolding resident holds
    residents g = ground (
      arith,
      lookup-remove (key_of bp f) (key_of bp g) bp.page_table,
      same_key_iff (key_of bp f) (key_of bp g),
      holder,
    )

    holding :
        (j : PageKey) (g : ℕ)
        → length files ≡ length bp.files
        → lookup j (dropped f s files bp).page_table ≡ some g
        → (g < n) × (key_of bp g ≡ j) × (j.file < length files)
    holding j g same_files found =
        let old : lookup j bp.page_table ≡ some g =
          ground (arith, lookup-remove (key_of bp f) j bp.page_table, found) in
        let (lt, named, opened) = v.held j g old in (lt, named, rw same_files opened)

    pub dropped-IsPool :
        Agrees s
        → ((g : ℕ) → tracks g s ≡ (if f == g then false else tracks g bp.replacer))
        → length files ≡ length bp.files
        → IsPool (dropped f s files bp) n
    dropped-IsPool agrees left same_files = record {
      frame_count = v.frame_count;
      meta_count = v.meta_count;
      replacer_agrees = agrees;
      held = λ j g found. holding j g same_files found;
      free_once = (ground (arith, v.free_or_resident f in_range, present), v.free_once);
      free_in_range = λ g t. unfold member in ground (arith, v.free_in_range g, in_range, t);
      idle_in_range = λ g t. ground (arith, left g, v.idle_in_range g, t);
      free_or_resident =
          λ g lt. unfold member in ground (arith, v.free_or_resident g lt, residents g);
      idle = λ g lt. ground (arith, left g, v.idle g lt, residents g);
    }
