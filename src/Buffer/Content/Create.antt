-- ===== src/Buffer/Content/Create.antt =====
-- NewPage adds a page of zeros, pinned once, and shows every other page as it was.
use mathlib.Core.Path.{subst}
use mini_db.Base.{
  ℕ, ◌+◌, ◌<◌, ◌≡◌, ◌≢◌, refl, sym, ap, ◌∙◌, ◌⊎◌, inl, inr, List, [], ◌∷◌, ◌++◌, none, some, length,
  length-set, length-append, replicate, set, get_elem?, get_elem?-set_self, some-length,
  Option-cases, arith,
}
use mini_db.Base.Outcome.{Outcome, ok, err}
use mini_db.Page.{new_page as zero_frame}
use mini_db.Disk.{DiskManager, DiskError, allocate_page, zero_page}
use mini_db.Disk.Pages.{page_of}
use mini_db.Page.Slotted.Reads.{get_elem?-append_left, get_elem?-snoc}
use mini_db.Disk.Laws.{zero_page-length}
use mini_db.Disk.Effects.{IsGrown, allocate_page-IsGrown}
use mini_db.Buffer.Backing.{disk_file, disk_file-Returns}
use mini_db.Buffer.Lru.Queue.{member}
use mini_db.Buffer.Pool.{
  PoolError, allocate_error, page_key, bytes_of, release, bind_frame, clear_frame, allocate_into,
  allocate_page_in,
}
use mini_db.Buffer.Pool.Invariant.{pins_of, IsPool, frames-IsPool}
use mini_db.Buffer.Pool.Binding.{bind_frame-IsPool}
use mini_db.Buffer.Pool.Acquire.{acquire_frame-Acquires, on_file_open, refiled}
use mini_db.Buffer.Content.{Pool, pins_at, key_at, frame_of, content, pinned, IsShown, IsSame}
use mini_db.Buffer.Content.Moves.{moved-IsShown}
use mini_db.Buffer.Content.Kept.{kept-IsShown}
use mini_db.Buffer.Content.Bound.{with_frame, bind_frame-IsShown, bind_frame-IsBound}
use mini_db.Buffer.Content.Fetch.{IsSame-trans}

pub record IsCreated (file f : ℕ) (bp bp' : Pool) (d d' : DiskManager) : Type 0 where
  pub here : frame_of file bp' d.num_pages ≡ some f
  pub one_more : d'.num_pages ≡ d.num_pages + 1
  pub zeroed : content file bp' d' d.num_pages ≡ zero_frame
  pub same_content : (q : ℕ) → q < d.num_pages → content file bp' d' q ≡ content file bp d q
  pub pins_here : pinned file bp' d.num_pages ≡ 1
  pub pins_others : (q : ℕ) → q ≢ d.num_pages → pinned file bp' q ≡ pinned file bp q
  pub keeps :
      (q g : ℕ) → frame_of file bp q ≡ some g → 0 < pins_of bp g → frame_of file bp' q ≡ some g

IsCreated-after :
    {file f : ℕ} {a b c : Pool} {x y z : DiskManager}
    → IsSame file a b x y
    → IsCreated file f b c y z
    → IsCreated file f a c x z
IsCreated-after {file} {f} {a} {b} {c} {x} {y} {z} k l = record {
  here = subst (λ m. frame_of file c m ≡ some f) k.same_count l.here;
  one_more = l.one_more ∙ ap (λ m. m + 1) k.same_count;
  zeroed = subst (λ m. content file c z m ≡ zero_frame) k.same_count l.zeroed;
  same_content =
      λ q h. l.same_content q (subst (λ m. q < m) (sym k.same_count) h) ∙ k.same_content q h;
  pins_here = subst (λ m. pinned file c m ≡ 1) k.same_count l.pins_here;
  pins_others = λ q o. l.pins_others q (λ e. o (e ∙ k.same_count)) ∙ k.same_pins q;
  keeps = λ q g e used.
      let e' = k.keeps q g e used in
      let pins = sym (ap (λ o. pins_at o b) e') ∙ (k.same_pins q ∙ ap (λ o. pins_at o a) e) in
      l.keeps q g e' (omega (arith, used, pins));
}

-- The last page of the file is below the count.
pub beyond :
    (file n : ℕ) (said : List (List ℕ)) (bp : Pool) (d : DiskManager)
    → IsShown file said n bp d
    → frame_of file bp d.num_pages ≡ none
beyond file n said bp d s = elim (Option-cases (frame_of file bp d.num_pages)) [
  | inl absent ↦ absent
  | inr (g, found) ↦ absurd (omega (arith, s.in_file d.num_pages g found))
]

refiled-IsPool :
    (bp : Pool) (n f i : ℕ) (d : DiskManager)
    → IsPool (release f bp) n
    → IsPool (release f (refiled i d bp)) n
unfolding release
refiled-IsPool bp n f i d v =
    frames-IsPool (release f bp) n bp.frames (set bp.files i d) v.frame_count
      (length-set bp.files i d) v

module _ (file n : ℕ) (said : List (List ℕ)) where
  abbrev wider : List (List ℕ)
  wider = said ++ zero_frame ∷ []

  -- What NewPage can do.
  abbrev pub Creates : Pool → DiskManager → Pool × Outcome (PoolError DiskError) (ℕ × ℕ) → Type 0
  Creates bp d r =
      ((f : ℕ) × (bp' : Pool) × (d' : DiskManager) × (r ≡ (bp', ok (f, d.num_pages)))
        × IsPool bp' n
        × IsShown file (said ++ zero_frame ∷ []) n bp' d'
        × IsCreated file f bp bp' d d')
      ⊎ ((e : PoolError DiskError) × (bp' : Pool) × (d' : DiskManager) × (r ≡ (bp', err e))
          × IsPool bp' n
          × IsShown file said n bp' d'
          × IsSame file bp bp' d d')

  -- The file grows below the frame f, which the pool gave up.
  module _ (bp : Pool) (d : DiskManager) (f : ℕ) (s : IsShown file said n bp d)
      (v : IsPool (release f bp) n) where
    abbrev grown_file : DiskManager × Outcome DiskError ℕ
    grown_file = allocate_page d

    abbrev blank : List ℕ
    blank = replicate (length (bytes_of bp f)) 0

    abbrev cleared : Pool
    cleared = with_frame f blank (set bp.files file grown_file.0) bp

    grows : IsGrown d grown_file
    grows = allocate_page-IsGrown d s.sound

    blank-zero : blank ≡ zero_frame
    unfolding release zero_frame
    blank-zero =
        ap (λ m. replicate m 0) (s.sized f (v.free_in_range f (unfold member in ground arith)))

    blank-zero_page : blank ≡ zero_page
    unfolding release zero_page
    blank-zero_page =
        ap (λ m. replicate m 0) (s.sized f (v.free_in_range f (unfold member in ground arith)))

    cleared-IsPool : IsPool (release f cleared) n
    unfolding release
    cleared-IsPool =
        frames-IsPool (release f bp) n cleared.frames cleared.files
          (length-set bp.frames f blank ∙ v.frame_count) (length-set bp.files file grown_file.0) v

    filed : get_elem? (set bp.files file grown_file.0) file ≡ some grown_file.0
    filed = get_elem?-set_self bp.files file grown_file.0 (some-length bp.files file d s.filed)

    allocated :
        (pid : ℕ)
        → grown_file.1 ≡ ok pid
        → allocate_into {E = DiskError} file f bp
          ≡ (bind_frame f (key_at file pid) cleared, ok (f, pid))
    unfolding allocate_into clear_frame
    allocated pid fine =
        ground (arith, on_file_open file allocate_page allocate_error bp d s.filed, fine)

    not_allocated :
        (e : DiskError)
        → grown_file.1 ≡ err e
        → allocate_into file f bp
          ≡ (release f (refiled file grown_file.0 bp), err (allocate_error e))
    unfolding allocate_into
    not_allocated e failed =
        ground (arith, on_file_open file allocate_page allocate_error bp d s.filed, failed)

    page-IsCreated :
        grown_file.1 ≡ ok d.num_pages
        → grown_file.0.num_pages ≡ d.num_pages + 1
        → page_of grown_file.0 d.num_pages ≡ zero_page
        → IsShown file wider n (bind_frame f (key_at file d.num_pages) cleared) grown_file.0
          × IsCreated file f bp (bind_frame f (key_at file d.num_pages) cleared) d grown_file.0
    page-IsCreated fine count zeros =
        let absent = beyond file n said bp d s in
        let files = set bp.files file grown_file.0 in
        let whole : length blank ≡ 8192 = ap length blank-zero_page ∙ zero_page-length in
        let size : length wider ≡ grown_file.0.num_pages =
          omega (arith, length-append said (zero_frame ∷ []), s.said_count, count) in
        let told : get_elem? wider d.num_pages ≡ some blank =
          ap (get_elem? wider) (sym s.said_count)
          ∙ (get_elem?-snoc said zero_frame ∙ ap some (sym blank-zero)) in
        let old = λ (q : ℕ) (l : q < d.num_pages) (o : q ≢ d.num_pages).
          get_elem?-append_left said (zero_frame ∷ []) q (omega (arith, l, s.said_count)) in
        let shows =
          bind_frame-IsShown file n d.num_pages f blank said wider files bp d grown_file.0 s
            cleared-IsPool absent filed grows.sound whole size (omega (arith, count))
            (omega (arith, count)) (λ q l o. omega (arith, l, count, o)) old grows.others told
            (zeros ∙ sym blank-zero_page) in
        let bound =
          bind_frame-IsBound file n d.num_pages f blank said wider files bp d grown_file.0 s
            cleared-IsPool absent filed grows.sound whole size (omega (arith, count))
            (omega (arith, count)) (λ q l o. omega (arith, l, count, o)) old grows.others told
            (zeros ∙ sym blank-zero_page) in
        (
          shows,
          record {
            here = bound.here;
            one_more = count;
            zeroed = bound.content_here ∙ blank-zero;
            same_content = λ q l. bound.content_others q l (λ e. omega (arith, l, e));
            pins_here = bound.pins_here;
            pins_others = bound.pins_others;
            keeps = λ q g e used. bound.keeps q g e;
          },
        )

    page_refused :
        grown_file.0.num_pages ≡ d.num_pages
        → IsShown file said n (release f (refiled file grown_file.0 bp)) grown_file.0
          × IsSame file bp (release f (refiled file grown_file.0 bp)) d grown_file.0
    page_refused count =
        kept-IsShown file said n bp d s (release f (refiled file grown_file.0 bp)) grown_file.0
          (unfold release in refl) (unfold release in refl) (unfold release in refl)
          (unfold release in filed) grows.sound count (λ q l c. grows.others q l)

  pub allocate_page_in-IsShown :
      (bp : Pool) (d : DiskManager)
      → IsPool bp n
      → IsShown file said n bp d
      → Creates bp d (allocate_page_in file bp)
  allocate_page_in-IsShown bp d v s = elim (acquire_frame-Acquires disk_file-Returns bp n v) [
    | inr (e, bp', full, v', moved) ↦
        let (d', shows, same) = moved-IsShown file said n bp d s bp' v moved in
        inr (e, bp', d', unfold allocate_page_in in ground (arith, full), v', shows, same)
    | inl (f, bp', got, a, moved) ↦
        let (d', shows, same) = moved-IsShown file said n bp d s bp' v moved in
        let g = (grows bp' d' f shows a.owned).ended in
        let count = same.same_count in
        elim g [
          | inl (fine, more, zeros) ↦
              let (final, created) = page-IsCreated bp' d' f shows a.owned fine more zeros in
              inl (
                f,
                bind_frame f (key_at file d'.num_pages) (cleared bp' d' f shows a.owned),
                (allocate_page d').0,
                unfold allocate_page_in in
                    ground (arith, got, allocated bp' d' f shows a.owned d'.num_pages fine, count),
                bind_frame-IsPool (cleared bp' d' f shows a.owned) n f (key_at file d'.num_pages)
                    (cleared-IsPool bp' d' f shows a.owned) (beyond file n said bp' d' shows)
                    (some-length (cleared bp' d' f shows a.owned).files file (allocate_page d').0
                      (filed bp' d' f shows a.owned)),
                final,
                IsCreated-after same created,
              )
          | inr (e, failed, unchanged) ↦
              let (final, back) = page_refused bp' d' f shows a.owned unchanged in
              inr (
                allocate_error e,
                release f (refiled file (allocate_page d').0 bp'),
                (allocate_page d').0,
                unfold allocate_page_in in
                    ground (arith, got, not_allocated bp' d' f shows a.owned e failed),
                refiled-IsPool bp' n f file (allocate_page d').0 a.owned,
                final,
                IsSame-trans same back,
              )
        ]
  ]
