-- ===== src/Buffer/Pool/Invariant.antt =====
-- The three states of a frame: free, holding a page that is in use, or holding an idle page that
-- the replacer tracks.
use mini_db.Base.{
  ℕ, ◌<◌, ◌≡◌, refl, sym, ap, ap₂, ◌∙◌, Bool, true, false, not, ◌&&◌, List, Option, none, some,
  ◌==◌, if◌then◌else◌, length, set, length-set, get_or-set, arith,
}
use mini_db.Base.Maps.{lookup}
use mini_db.Buffer.Lru.{Lru}
use mini_db.Buffer.Lru.Queue.{Agrees, member}
use mini_db.Buffer.Lru.Laws.{pin-queue}
use mini_db.Buffer.Lru.Member.{Unique, tracks, tracks-pin}
use mini_db.Buffer.Pool.{BufferPool, FrameMeta, PageKey, page_key, meta_of, pin_frame, mark_clean}

unfoldable pub holds : Option ℕ → ℕ → Bool
holds none f = false
holds (some g) f = g == f

module _ {F : Type 0} where
  abbrev pub key_of : BufferPool F → ℕ → PageKey
  key_of bp f = (meta_of bp f).key

  abbrev pub pins_of : BufferPool F → ℕ → ℕ
  pins_of bp f = (meta_of bp f).pin_count

  -- The page table finds frame f under the key that the frame's own record names.
  unfoldable pub resident : BufferPool F → ℕ → Bool
  resident bp f = holds (lookup (key_of bp f) bp.page_table) f

  -- A pool of n frames.
  pub record IsPool (bp : BufferPool F) (n : ℕ) : Type 0 where
    pub frame_count : length bp.frames ≡ n
    pub meta_count : length bp.meta ≡ n
    pub replacer_agrees : Agrees bp.replacer
    pub held :
        (k : PageKey) (f : ℕ)
        → lookup k bp.page_table ≡ some f
        → (f < n) × (key_of bp f ≡ k) × (k.file < length bp.files)
    pub free_once : Unique bp.free_list
    pub free_in_range : (f : ℕ) → member f bp.free_list ≡ true → f < n
    pub idle_in_range : (f : ℕ) → tracks f bp.replacer ≡ true → f < n
    pub free_or_resident : (f : ℕ) → f < n → member f bp.free_list ≡ not (resident bp f)
    pub idle : (f : ℕ) → f < n → tracks f bp.replacer ≡ (resident bp f && (pins_of bp f == 0))

  pub resident_key :
      (bp : BufferPool F) (n : ℕ) (k : PageKey) (f : ℕ)
      → IsPool bp n
      → lookup k bp.page_table ≡ some f
      → resident bp f ≡ true
  unfolding resident holds
  resident_key bp n k f v h = rw ((v.held k f h).1, h) (ground arith)

  -- A change of a frame's bytes is of no consequence here.
  pub frames-IsPool :
      (bp : BufferPool F) (n : ℕ) (fs : List (List ℕ)) (files : List F)
      → length fs ≡ n
      → length files ≡ length bp.files
      → IsPool bp n
      → IsPool (record bp { frames = fs; files = files }) n
  unfolding resident
  frames-IsPool bp n fs files same same_files v = record {
    frame_count = same;
    meta_count = v.meta_count;
    replacer_agrees = v.replacer_agrees;
    held = λ k f found.
        let (lt, named, opened) = v.held k f found in (lt, named, rw same_files opened);
    free_once = v.free_once;
    free_in_range = v.free_in_range;
    idle_in_range = v.idle_in_range;
    free_or_resident = v.free_or_resident;
    idle = v.idle;
  }

  -- A change of the record of a resident frame that keeps its key, when the replacer follows.
  pub update-IsPool :
      (bp : BufferPool F) (n f : ℕ) (m : FrameMeta) (r : Lru)
      → IsPool bp n
      → f < n
      → resident bp f ≡ true
      → m.key ≡ key_of bp f
      → Agrees r
      → ((g : ℕ) → tracks g r ≡ (if f == g then (m.pin_count == 0) else tracks g bp.replacer))
      → IsPool (record bp { meta = set bp.meta f m; replacer = r }) n
  update-IsPool bp n f m r v h present same_key agrees follows = record {
    frame_count = v.frame_count;
    meta_count = length-set bp.meta f m ∙ v.meta_count;
    replacer_agrees = agrees;
    held = λ k g found. let (lt, named, opened) = v.held k g found in (lt, keys g ∙ named, opened);
    free_once = v.free_once;
    free_in_range = v.free_in_range;
    idle_in_range = λ g t. ground (arith, follows g, v.idle_in_range g);
    free_or_resident = λ g lt. v.free_or_resident g lt ∙ ap not (sym (still g));
    idle = λ g lt. idles g lt;
  }
    where
      bp' : BufferPool F
      bp' = record bp { meta = set bp.meta f m; replacer = r }

      metas : (g : ℕ) → meta_of bp' g ≡ (if f == g then m else meta_of bp g)
      metas g = get_or-set bp.meta f g m _ (omega (arith, v.meta_count))

      keys : (g : ℕ) → key_of bp' g ≡ key_of bp g
      keys g = ap (λ x. x.key) (metas g) ∙ ground (arith, same_key)

      still : (g : ℕ) → resident bp' g ≡ resident bp g
      still g = unfold resident in ap (λ k. holds (lookup k bp.page_table) g) (keys g)

      pins : (g : ℕ) → pins_of bp' g ≡ (if f == g then m.pin_count else pins_of bp g)
      pins g = ap (λ x. x.pin_count) (metas g) ∙ ground arith

      idles : (g : ℕ) → g < n → tracks g r ≡ (resident bp' g && (pins_of bp' g == 0))
      idles g lt =
          follows g
          ∙ (ground (arith, present, v.idle g lt)
              ∙ sym (ap₂ (λ b k. b && (k == 0)) (still g) (pins g)))

  -- FetchPage of a resident page.
  pub pin_frame-IsPool :
      (bp : BufferPool F) (n : ℕ) (k : PageKey) (f : ℕ)
      → IsPool bp n
      → lookup k bp.page_table ≡ some f
      → IsPool (pin_frame f bp) n
  unfolding pin_frame
  pin_frame-IsPool bp n k f v found =
      update-IsPool bp n f _ _ v (v.held k f found).0 (resident_key bp n k f v found) refl
        (pin-queue f bp.replacer v.replacer_agrees).0
        (λ g. tracks-pin f g bp.replacer v.replacer_agrees ∙ ground arith)

  pub mark_clean-IsPool :
      (bp : BufferPool F) (n : ℕ) (k : PageKey) (f : ℕ)
      → IsPool bp n
      → lookup k bp.page_table ≡ some f
      → IsPool (mark_clean f bp) n
  unfolding mark_clean
  mark_clean-IsPool bp n k f v found =
      let present = resident_key bp n k f v found in
      let lt = (v.held k f found).0 in
      update-IsPool bp n f _ _ v lt present refl v.replacer_agrees
        (λ g. ground (arith, present, v.idle f lt))

  -- Another replacer that tracks the same frames.
  pub replacer-IsPool :
      (bp : BufferPool F) (n : ℕ) (r : Lru) (files : List F)
      → IsPool bp n
      → Agrees r
      → ((g : ℕ) → tracks g r ≡ tracks g bp.replacer)
      → length files ≡ length bp.files
      → IsPool (record bp { replacer = r; files = files }) n
  unfolding resident
  replacer-IsPool bp n r files v agrees same same_files = record {
    frame_count = v.frame_count;
    meta_count = v.meta_count;
    replacer_agrees = agrees;
    held = λ k f found.
        let (lt, named, opened) = v.held k f found in (lt, named, rw same_files opened);
    free_once = v.free_once;
    free_in_range = v.free_in_range;
    idle_in_range = λ f t. v.idle_in_range f (sym (same f) ∙ t);
    free_or_resident = v.free_or_resident;
    idle = λ f lt. same f ∙ v.idle f lt;
  }
