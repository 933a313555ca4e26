-- ===== src/Buffer/Content/Fetch.antt =====
-- FetchPage shows every page as it was, and gives the page that it is for one pin more.
use native.Mathlib.Decide.{ℕ_discrete}
use mathlib.Core.Path.{subst}
use mini_db.Base.{
  ℕ, ◌+◌, ◌*◌, ◌<◌, ◌≡◌, ◌≢◌, refl, sym, ap, ◌∙◌, ◌⊎◌, inl, inr, List, none, some, length, set,
  get_elem?, get_elem?-set_self, some-length, Option-cases, arith,
}
use mini_db.Base.Copy.{slice}
use mini_db.Base.Outcome.{Outcome, ok, err, returned}
use mini_db.Disk.{DiskManager, DiskError, read_page}
use mini_db.Disk.Pages.{page_of, IsDisk}
use mini_db.Disk.Effects.{IsRead, read_page-IsRead}
use mini_db.Buffer.Backing.{disk_file, disk_file-Returns}
use mini_db.Buffer.Lru.Queue.{member}
use mini_db.Buffer.Pool.{
  PoolError, load_error, page_key, bytes_of, release, fetch, pin_frame, bind_frame,
}
use mini_db.Buffer.Pool.Invariant.{pins_of, IsPool, pin_frame-IsPool}
use mini_db.Buffer.Pool.Binding.{bind_frame-IsPool}
use mini_db.Buffer.Pool.Acquire.{acquire_frame-Acquires}
use mini_db.Buffer.Pool.Laws.{loaded, loaded-IsPool, install_ok, install_err}
use mini_db.Buffer.Content.{
  Pool, shown, pins_at, key_at, frame_of, content, pinned, IsShown, IsSame,
}
use mini_db.Buffer.Content.Moves.{moved-IsShown}
use mini_db.Buffer.Content.Bound.{bind_frame-IsShown, bind_frame-IsBound}
use mini_db.Buffer.Content.Labels.{
  labelled-content, labelled-pins, labelled-pins_others, labelled-IsShown,
}
use mini_db.Buffer.Content.Lent.{lent-IsShown, lent-IsSame}

pub record IsFetched (file pid f : ℕ) (bp bp' : Pool) (d d' : DiskManager) : Type 0 where
  pub here : frame_of file bp' pid ≡ some f
  pub same_count : d'.num_pages ≡ d.num_pages
  pub same_content : (q : ℕ) → q < d.num_pages → content file bp' d' q ≡ content file bp d q
  pub pins_here : pinned file bp' pid ≡ pinned file bp pid + 1
  pub pins_others : (q : ℕ) → q ≢ pid → pinned file bp' q ≡ pinned file bp q
  pub keeps :
      (q g : ℕ) → frame_of file bp q ≡ some g → 0 < pins_of bp g → frame_of file bp' q ≡ some g

pub IsSame-trans :
    {file : ℕ} {a b c : Pool} {x y z : DiskManager}
    → IsSame file a b x y
    → IsSame file b c y z
    → IsSame file a c x z
IsSame-trans {file} {a} {b} k l = record {
  same_count = l.same_count ∙ k.same_count;
  same_content =
      λ q h. l.same_content q (subst (λ m. q < m) (sym k.same_count) h) ∙ k.same_content q h;
  same_pins = λ q. l.same_pins q ∙ k.same_pins q;
  keeps = λ q f e used.
      let e' = k.keeps q f e used in
      let pins = sym (ap (λ o. pins_at o b) e') ∙ (k.same_pins q ∙ ap (λ o. pins_at o a) e) in
      l.keeps q f e' (omega (arith, used, pins));
}

IsFetched-after :
    {file pid f : ℕ} {a b c : Pool} {x y z : DiskManager}
    → IsSame file a b x y
    → IsFetched file pid f b c y z
    → IsFetched file pid f a c x z
IsFetched-after {file} {pid} {f} {a} {b} k l = record {
  here = l.here;
  same_count = l.same_count ∙ k.same_count;
  same_content =
      λ q h. l.same_content q (subst (λ m. q < m) (sym k.same_count) h) ∙ k.same_content q h;
  pins_here = l.pins_here ∙ ap (λ z. z + 1) (k.same_pins pid);
  pins_others = λ q o. l.pins_others q o ∙ k.same_pins q;
  keeps = λ q g e used.
      let e' = k.keeps q g e used in
      let pins = sym (ap (λ o. pins_at o b) e') ∙ (k.same_pins q ∙ ap (λ o. pins_at o a) e) in
      l.keeps q g e' (omega (arith, used, pins));
}

module _ (file n pid : ℕ) (said : List (List ℕ)) where
  -- What FetchPage can do.
  abbrev pub Fetches : Pool → DiskManager → Pool × Outcome (PoolError DiskError) ℕ → Type 0
  Fetches bp d r =
      ((f : ℕ) × (bp' : Pool) × (d' : DiskManager) × (r ≡ (bp', ok f))
        × IsPool bp' n
        × IsShown file said n bp' d'
        × IsFetched file pid f bp bp' d d')
      ⊎ ((e : PoolError DiskError) × (bp' : Pool) × (d' : DiskManager) × (r ≡ (bp', err e))
          × IsPool bp' n
          × IsShown file said n bp' d'
          × IsSame file bp bp' d d')

  hit :
      (bp : Pool) (d : DiskManager) (f : ℕ)
      → IsPool bp n
      → IsShown file said n bp d
      → frame_of file bp pid ≡ some f
      → IsShown file said n (pin_frame f bp) d × IsFetched file pid f bp (pin_frame f bp) d d
  unfolding pin_frame
  hit bp d f v s found = (
    labelled-IsShown file n pid f _ _ said said bp d v s found refl (λ q a. refl)
        (λ c. s.clean pid f found c) (λ c. absurd (omega (arith, c))),
    record {
      here = found;
      same_count = refl;
      same_content = λ q l. labelled-content file f q _ _ bp d;
      pins_here =
          labelled-pins file n pid f _ _ said said bp d v s found
          ∙ ap (λ o. pins_at o bp + 1) (sym found);
      pins_others = labelled-pins_others file n pid f _ _ said said bp d v s found;
      keeps = λ q g e used. e;
    },
  )

  -- The page was read into the frame f, which the pool gave up.
  module _ (bp : Pool) (d : DiskManager) (f : ℕ) (absent : frame_of file bp pid ≡ none)
      (s : IsShown file said n bp d) (v : IsPool (release f bp) n) where
    abbrev reading : (DiskManager × List ℕ) × Outcome DiskError (Unit {0})
    reading = read_page pid (d, bytes_of bp f)

    abbrev filled : Pool
    filled = loaded (key_at file pid) f reading.0 bp

    whole : length (bytes_of bp f) ≡ 8192
    unfolding release
    whole = s.sized f (v.free_in_range f (unfold member in ground arith))

    reads : IsRead pid d (bytes_of bp f) reading
    reads = read_page-IsRead d pid (bytes_of bp f) s.sound whole

    filled-IsPool : IsPool (release f filled) n
    filled-IsPool = loaded-IsPool bp n (key_at file pid) f reading.0 v

    filed : get_elem? (set bp.files file reading.0.0) file ≡ some reading.0.0
    filed = get_elem?-set_self bp.files file reading.0.0 (some-length bp.files file d s.filed)

    same_page : (q : ℕ) → page_of reading.0.0 q ≡ page_of d q
    unfolding page_of
    same_page q = ap (λ z. slice (q * 8192) 8192 z) reads.same_file

    still-IsDisk : IsDisk reading.0.0
    still-IsDisk = record {
      backed = omega (arith, s.sound.backed, reads.same_count, ap length reads.same_file);
      countable = omega (arith, s.sound.countable, reads.same_count);
    }

    page_read :
        (a : Unit {0})
        → reading.1 ≡ ok a
        → IsShown file said n (bind_frame f (key_at file pid) filled) reading.0.0
          × IsFetched file pid f bp (bind_frame f (key_at file pid) filled) d reading.0.0
    page_read a fine =
        let (inside, content_same) = reads.filled fine in
        let here = s.absent pid inside absent in
        let count = reads.same_count in
        let shows =
          bind_frame-IsShown file n pid f reading.0.1 said said (set bp.files file reading.0.0) bp d
            reading.0.0 s filled-IsPool absent filed still-IsDisk (reads.same_size ∙ whole)
            (s.said_count ∙ sym count) (omega (arith, inside, count)) (omega (arith, count))
            (λ q l o. omega (arith, l, count)) (λ q l o. refl) (λ q l. same_page q)
            (here ∙ ap some (sym content_same)) (same_page pid ∙ sym content_same) in
        let bound =
          bind_frame-IsBound file n pid f reading.0.1 said said (set bp.files file reading.0.0) bp d
            reading.0.0 s filled-IsPool absent filed still-IsDisk (reads.same_size ∙ whole)
            (s.said_count ∙ sym count) (omega (arith, inside, count)) (omega (arith, count))
            (λ q l o. omega (arith, l, count)) (λ q l o. refl) (λ q l. same_page q)
            (here ∙ ap some (sym content_same)) (same_page pid ∙ sym content_same) in
        (
          shows,
          record {
            here = bound.here;
            same_count = count;
            same_content = λ q l. elim (ℕ_discrete q pid) [
              | yes same ↦
                  subst
                    (λ z.
                      content file (bind_frame f (key_at file pid) filled) reading.0.0 z
                      ≡ content file bp d z)
                    (sym same)
                    (bound.content_here ∙ (content_same ∙ sym (ap (λ o. shown o bp d pid) absent)))
              | no other ↦ bound.content_others q l other
            ];
            pins_here = bound.pins_here ∙ ap (λ o. pins_at o bp + 1) (sym absent);
            pins_others = bound.pins_others;
            keeps = λ q g e used. bound.keeps q g e;
          },
        )

    page_not_read :
        IsShown file said n (release f filled) reading.0.0
        × IsSame file bp (release f filled) d reading.0.0
    page_not_read = (
      lent-IsShown file n pid f reading.0.1 said (set bp.files file reading.0.0) bp d reading.0.0 s
          filled-IsPool absent filed still-IsDisk (reads.same_size ∙ whole) reads.same_count
          same_page,
      lent-IsSame file n pid f reading.0.1 said (set bp.files file reading.0.0) bp d reading.0.0 s
          filled-IsPool absent filed still-IsDisk (reads.same_size ∙ whole) reads.same_count
          same_page,
    )

  pub fetch-IsShown :
      (bp : Pool) (d : DiskManager)
      → IsPool bp n
      → IsShown file said n bp d
      → Fetches bp d (fetch (key_at file pid) bp)
  fetch-IsShown bp d v s = elim (Option-cases (frame_of file bp pid)) [
    | inr (f, found) ↦
        let (shows, fetched) = hit bp d f v s found in
        inl (
          f,
          pin_frame f bp,
          d,
          unfold fetch in ground (arith, found),
          pin_frame-IsPool bp n (key_at file pid) f v found,
          shows,
          fetched,
        )
    | inl absent ↦ elim (acquire_frame-Acquires disk_file-Returns bp n v) [
      | inr (e, bp', full, v', moved) ↦
          let (d', shows, same) = moved-IsShown file said n bp d s bp' v moved in
          inr (e, bp', d', unfold fetch in ground (arith, absent, full), v', shows, same)
      | inl (f, bp', got, a, moved) ↦
          let (d', shows, same) = moved-IsShown file said n bp d s bp' v moved in
          let gone = a.forgets (key_at file pid) absent in
          let r = reading bp' d' f gone shows a.owned in
          let now = filled bp' d' f gone shows a.owned in
          let v' = filled-IsPool bp' d' f gone shows a.owned in
          elim (returned r.1 (disk_file-Returns.reads pid d' (bytes_of bp' f))) [
            | inl (u, fine) ↦
                let (final, fetched) = page_read bp' d' f gone shows a.owned u fine in
                inl (
                  f,
                  bind_frame f (key_at file pid) now,
                  r.0.0,
                  unfold fetch in
                      ground (
                        arith,
                        absent,
                        got,
                        install_ok bp' (key_at file pid) f d' shows.filed u fine,
                      ),
                  bind_frame-IsPool now n f (key_at file pid) v' gone
                      (some-length now.files file r.0.0 (filed bp' d' f gone shows a.owned)),
                  final,
                  IsFetched-after same fetched,
                )
            | inr (e, failed) ↦
                let (final, back) = page_not_read bp' d' f gone shows a.owned in
                inr (
                  load_error e,
                  release f now,
                  r.0.0,
                  unfold fetch in
                      ground (
                        arith,
                        absent,
                        got,
                        install_err bp' (key_at file pid) f d' shows.filed e failed,
                      ),
                  v',
                  final,
                  IsSame-trans same back,
                )
          ]
    ]
  ]
