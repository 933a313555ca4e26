-- ===== src/Buffer/Content/Labels.antt =====
-- The record of a resident page's frame changes, or its holder writes the frame.
use native.Mathlib.Decide.{ℕ_discrete}
use mathlib.Core.Option.{some-injective}
use mathlib.Core.Path.{subst}
use mini_db.Base.{
  ℕ, ◌≡◌, ◌≢◌, refl, sym, ap, ◌∙◌, false, List, [], Option, none, some, length, set, get_or-set,
  get_elem?, if◌then◌else◌, ◌==◌, arith,
}
use mini_db.Disk.{DiskManager}
use mini_db.Disk.Pages.{page_of}
use mini_db.Buffer.Lru.{Lru}
use mini_db.Buffer.Pool.{FrameMeta, no_meta, meta_of, bytes_of, write_frame}
use mini_db.Buffer.Pool.Invariant.{pins_of, IsPool}
use mini_db.Buffer.Content.{Pool, shown, pins_at, key_at, frame_of, content, pinned, IsShown}

abbrev pub labelled : ℕ → FrameMeta → Lru → Pool → Pool
labelled f m r bp = record bp { meta = set bp.meta f m; replacer = r }

pub labelled-content :
    (file f q : ℕ) (m : FrameMeta) (r : Lru) (bp : Pool) (d : DiskManager)
    → content file (labelled f m r bp) d q ≡ content file bp d q
labelled-content file f q m r bp d = shows (frame_of file bp q)
  where
    shows : (o : Option ℕ) → shown o (labelled f m r bp) d q ≡ shown o bp d q
    shows none = refl
    shows (some g) = refl

-- Two pages are not in one frame.
pub same_page_lem :
    (file n : ℕ) (bp : Pool) (p q f : ℕ)
    → IsPool bp n
    → frame_of file bp p ≡ some f
    → frame_of file bp q ≡ some f
    → p ≡ q
same_page_lem file n bp p q f v e h =
    ap (λ k. k.pid) (sym (v.held (key_at file p) f e).1 ∙ (v.held (key_at file q) f h).1)

module _ (file n pid f : ℕ) (m : FrameMeta) (r : Lru) (said said' : List (List ℕ)) (bp : Pool)
    (d : DiskManager) (v : IsPool bp n) (s : IsShown file said n bp d)
    (found : frame_of file bp pid ≡ some f) where
  meta_at : (g : ℕ) → meta_of (labelled f m r bp) g ≡ (if f == g then m else meta_of bp g)
  meta_at g =
      get_or-set bp.meta f g m no_meta
        (omega (arith, (v.held (key_at file pid) f found).0, v.meta_count))

  meta_other :
      (q g : ℕ)
      → q ≢ pid
      → frame_of file bp q ≡ some g
      → meta_of (labelled f m r bp) g ≡ meta_of bp g
  meta_other q g apart e = elim (ℕ_discrete f g) [
    | yes same ↦ absurd (apart (same_page_lem file n bp q pid f v (e ∙ ap some (sym same)) found))
    | no other ↦ ground (arith, meta_at g, other)
  ]

  pub labelled-pins : pinned file (labelled f m r bp) pid ≡ m.pin_count
  labelled-pins =
      ap (λ o. pins_at o (labelled f m r bp)) found
      ∙ (ap (λ x. x.pin_count) (meta_at f) ∙ ground arith)

  pub labelled-pins_others :
      (q : ℕ) → q ≢ pid → pinned file (labelled f m r bp) q ≡ pinned file bp q
  labelled-pins_others q apart = pins (frame_of file bp q) refl
    where
      pins : (o : Option ℕ) → frame_of file bp q ≡ o → pins_at o (labelled f m r bp) ≡ pins_at o bp
      pins none e = refl
      pins (some g) e = ap (λ x. x.pin_count) (meta_other q g apart e)

  -- What is declared may change for this page, when its record says so.
  pub labelled-IsShown :
      length said' ≡ length said
      → ((q : ℕ) → q ≢ pid → get_elem? said' q ≡ get_elem? said q)
      → (m.dirty ≡ false → get_elem? said' pid ≡ some (page_of d pid))
      → (m.pin_count ≡ 0 → get_elem? said' pid ≡ some (bytes_of bp f))
      → IsShown file said' n (labelled f m r bp) d
  labelled-IsShown size same_said told rest = record {
    filed = s.filed;
    sound = s.sound;
    sized = s.sized;
    in_file = s.in_file;
    said_count = size ∙ s.said_count;
    absent = λ q l e. elim (ℕ_discrete q pid) [
      | yes same ↦ absurd (ground (arith, found, subst (λ z. frame_of file bp z ≡ none) same e))
      | no other ↦ same_said q other ∙ s.absent q l e
    ];
    clean = λ q g e c. elim (ℕ_discrete q pid) [
      | yes same ↦
          let at_f : g ≡ f = some-injective g f (sym e ∙ (ap (frame_of file bp) same ∙ found)) in
          subst (λ z. get_elem? said' z ≡ some (page_of d z)) (sym same)
            (told (ap (λ x. x.dirty) (sym (label g at_f)) ∙ c))
      | no other ↦
          same_said q other ∙ s.clean q g e (ap (λ x. x.dirty) (sym (meta_other q g other e)) ∙ c)
    ];
    rested = λ q g e c. elim (ℕ_discrete q pid) [
      | yes same ↦
          let at_f : g ≡ f = some-injective g f (sym e ∙ (ap (frame_of file bp) same ∙ found)) in
          ap (get_elem? said') same
          ∙ (rest (ap (λ x. x.pin_count) (sym (label g at_f)) ∙ c)
              ∙ ap (λ x. some (bytes_of bp x)) (sym at_f))
      | no other ↦
          same_said q other
          ∙ s.rested q g e (ap (λ x. x.pin_count) (sym (meta_other q g other e)) ∙ c)
    ];
  }
    where
      label : (g : ℕ) → g ≡ f → meta_of (labelled f m r bp) g ≡ m
      label g at_f = meta_at g ∙ ground (arith, at_f)

module _ (file n pid f : ℕ) (b : List ℕ) (said : List (List ℕ)) (bp : Pool) (d : DiskManager)
    (v : IsPool bp n) (s : IsShown file said n bp d) (found : frame_of file bp pid ≡ some f)
    (used : pins_of bp f ≢ 0) (whole : length b ≡ 8192) where
  bytes_at : (g : ℕ) → bytes_of (write_frame f b bp) g ≡ (if f == g then b else bytes_of bp g)
  unfolding write_frame
  bytes_at g =
      get_or-set bp.frames f g b []
        (omega (arith, (v.held (key_at file pid) f found).0, v.frame_count))

  bytes_other :
      (q g : ℕ)
      → q ≢ pid
      → frame_of file bp q ≡ some g
      → bytes_of (write_frame f b bp) g ≡ bytes_of bp g
  bytes_other q g apart e = elim (ℕ_discrete f g) [
    | yes same ↦ absurd (apart (same_page_lem file n bp q pid f v (e ∙ ap some (sym same)) found))
    | no other ↦ ground (arith, bytes_at g, other)
  ]

  pub write_frame-IsShown : IsShown file said n (write_frame f b bp) d
  write_frame-IsShown = record {
    filed = unfold write_frame in s.filed;
    sound = s.sound;
    sized = λ g l. elim (ℕ_discrete f g) [
      | yes same ↦ ground (arith, ap length (bytes_at g), same, whole)
      | no other ↦ ground (arith, ap length (bytes_at g), other, s.sized g l)
    ];
    in_file = unfold write_frame in s.in_file;
    said_count = s.said_count;
    absent = unfold write_frame in s.absent;
    clean = unfold write_frame in s.clean;
    rested = λ q g e c.
        let old : frame_of file bp q ≡ some g = unfold write_frame in e in
        let idle : pins_of bp g ≡ 0 = unfold write_frame in c in
        elim (ℕ_discrete q pid) [
          | yes same ↦
              let at_f : g ≡ f =
                some-injective g f (sym old ∙ (ap (frame_of file bp) same ∙ found)) in
              absurd (used (sym (ap (pins_of bp) at_f) ∙ idle))
          | no other ↦ s.rested q g old idle ∙ ap some (sym (bytes_other q g other old))
        ];
  }

  pub write_frame-content : content file (write_frame f b bp) d pid ≡ b
  write_frame-content =
      let same : frame_of file (write_frame f b bp) pid ≡ some f = unfold write_frame in found in
      ap (λ o. shown o (write_frame f b bp) d pid) same ∙ (bytes_at f ∙ ground arith)

  pub write_frame-content_others :
      (q : ℕ) → q ≢ pid → content file (write_frame f b bp) d q ≡ content file bp d q
  write_frame-content_others q apart = unfold write_frame in shows (frame_of file bp q) refl
    where
      shows :
          (o : Option ℕ)
          → frame_of file bp q ≡ o
          → shown o (write_frame f b bp) d q ≡ shown o bp d q
      shows none e = refl
      shows (some g) e = bytes_other q g apart e
