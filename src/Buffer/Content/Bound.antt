-- ===== src/Buffer/Content/Bound.antt =====
-- A page takes a frame that nobody holds.
use native.Mathlib.Decide.{ℕ_discrete}
use mathlib.Core.Option.{some-injective}
use mathlib.Core.Path.{subst}
use mini_db.Base.{
  ℕ, ◌≤◌, ◌<◌, ◌≡◌, ◌≢◌, refl, sym, ap, ◌∙◌, inl, inr, List, [], Option, none, some, length, set,
  length-set, get_or-set, get_elem?, if◌then◌else◌, Bool-cases, ◌==◌, arith,
}
use mini_db.Base.Maps.{◌=?◌}
use mini_db.Disk.{DiskManager}
use mini_db.Disk.Pages.{page_of, IsDisk}
use mini_db.Buffer.Pool.{page_key, same_key_iff, meta_of, bytes_of, release, bind_frame}
use mini_db.Buffer.Pool.Invariant.{pins_of, IsPool}
use mini_db.Buffer.Pool.Binding.{acquired, unheld, bound, metas, entries}
use mini_db.Buffer.Content.{Pool, shown, pins_at, key_at, frame_of, content, pinned, IsShown}

-- The pages after frame f took page pid, with the bytes b.
pub record IsBound (file pid f : ℕ) (b : List ℕ) (bp bp' : Pool) (d d' : DiskManager) : Type 0 where
  pub here : frame_of file bp' pid ≡ some f
  pub content_here : content file bp' d' pid ≡ b
  pub pins_here : pinned file bp' pid ≡ 1
  pub content_others :
      (q : ℕ) → q < d.num_pages → q ≢ pid → content file bp' d' q ≡ content file bp d q
  pub pins_others : (q : ℕ) → q ≢ pid → pinned file bp' q ≡ pinned file bp q
  pub keeps : (q g : ℕ) → frame_of file bp q ≡ some g → frame_of file bp' q ≡ some g

-- The pool whose frame f and files are these.
abbrev pub with_frame : ℕ → List ℕ → List DiskManager → Pool → Pool
with_frame f b files bp = record bp { files = files; frames = set bp.frames f b }

module _ (file n pid f : ℕ) (b : List ℕ) (said said' : List (List ℕ)) (files : List DiskManager)
    (bp : Pool) (d d' : DiskManager) (s : IsShown file said n bp d)
    (v : IsPool (release f (with_frame f b files bp)) n) (absent : frame_of file bp pid ≡ none)
    (filed : get_elem? files file ≡ some d') (sound : IsDisk d') (whole : length b ≡ 8192)
    (said_count : length said' ≡ d'.num_pages) (inside : pid < d'.num_pages)
    (more : d.num_pages ≤ d'.num_pages)
    (only : (q : ℕ) → q < d'.num_pages → q ≢ pid → q < d.num_pages)
    (same_said : (q : ℕ) → q < d.num_pages → q ≢ pid → get_elem? said' q ≡ get_elem? said q)
    (same_page : (q : ℕ) → q < d.num_pages → page_of d' q ≡ page_of d q)
    (said_here : get_elem? said' pid ≡ some b) (page_here : page_of d' pid ≡ b) where
  abbrev mid : Pool
  mid = with_frame f b files bp

  abbrev after : Pool
  after = bind_frame f (key_at file pid) mid

  in_frames : f < length bp.frames
  unfolding release
  in_frames =
      omega (
        arith,
        acquired mid n f (key_at file pid) v absent,
        v.frame_count,
        length-set bp.frames f b,
      )

  bytes : (g : ℕ) → bytes_of after g ≡ (if f == g then b else bytes_of bp g)
  unfolding bind_frame
  bytes g = get_or-set bp.frames f g b [] in_frames

  at_pid : frame_of file after pid ≡ some f
  at_pid = ground (
    arith,
    entries mid n f (key_at file pid) v absent (key_at file pid),
    same_key_iff (key_at file pid) (key_at file pid),
  )

  meta_at :
      (g : ℕ)
      → meta_of after g
        ≡ (if f == g then bound mid n f (key_at file pid) v absent else meta_of bp g)
  meta_at g = metas mid n f (key_at file pid) v absent g

  pins_f : pins_of after f ≡ 1
  pins_f = ap (λ m. m.pin_count) (meta_at f) ∙ ground arith

  elsewhere : (q : ℕ) → q ≢ pid → frame_of file after q ≡ frame_of file bp q
  elsewhere q apart = elim (Bool-cases (key_at file pid =? key_at file q)) [
    | inl same ↦
        absurd
          (apart (sym (ap (λ k. k.pid) ((same_key_iff (key_at file pid) (key_at file q)).0 same))))
    | inr other ↦ ground (arith, entries mid n f (key_at file pid) v absent (key_at file q), other)
  ]

  not_f : (q g : ℕ) → frame_of file bp q ≡ some g → f ≢ g
  not_f q g e same =
      unheld mid n f (key_at file pid) v absent (key_at file q) (e ∙ ap some (sym same))

  bytes_kept : (q g : ℕ) → frame_of file bp q ≡ some g → bytes_of after g ≡ bytes_of bp g
  bytes_kept q g e = ground (arith, bytes g, not_f q g e)

  meta_kept : (q g : ℕ) → frame_of file bp q ≡ some g → meta_of after g ≡ meta_of bp g
  meta_kept q g e = ground (arith, meta_at g, not_f q g e)

  pub bind_frame-IsShown : IsShown file said' n after d'
  bind_frame-IsShown = record {
    filed = unfold bind_frame in filed;
    sound = sound;
    sized = λ g l. elim (ℕ_discrete f g) [
      | yes same ↦ ground (arith, ap length (bytes g), same, whole)
      | no other ↦ ground (arith, ap length (bytes g), other, s.sized g l)
    ];
    in_file = λ q g e. elim (ℕ_discrete q pid) [
      | yes same ↦ subst (λ z. z < d'.num_pages) (sym same) inside
      | no other ↦ omega (arith, s.in_file q g (sym (elsewhere q other) ∙ e), more)
    ];
    said_count = said_count;
    absent = λ q l e. elim (ℕ_discrete q pid) [
      | yes same ↦ absurd (ground (arith, at_pid, subst (λ z. frame_of file after z ≡ none) same e))
      | no other ↦
          let old = sym (elsewhere q other) ∙ e in
          let l' = only q l other in
          same_said q l' other ∙ (s.absent q l' old ∙ ap some (sym (same_page q l')))
    ];
    clean = λ q g e c. elim (ℕ_discrete q pid) [
      | yes same ↦
          subst (λ z. get_elem? said' z ≡ some (page_of d' z)) (sym same)
            (said_here ∙ ap some (sym page_here))
      | no other ↦
          let old = sym (elsewhere q other) ∙ e in
          let l' = s.in_file q g old in
          same_said q l' other
          ∙ (s.clean q g old (ap (λ m. m.dirty) (sym (meta_kept q g old)) ∙ c)
              ∙ ap some (sym (same_page q l')))
    ];
    rested = λ q g e c. elim (ℕ_discrete q pid) [
      | yes same ↦
          let at_f : g ≡ f =
            some-injective g f (sym e ∙ (ap (frame_of file after) same ∙ at_pid)) in
          absurd (omega (arith, sym (ap (pins_of after) at_f) ∙ c, pins_f))
      | no other ↦
          let old = sym (elsewhere q other) ∙ e in
          same_said q (s.in_file q g old) other
          ∙ (s.rested q g old (ap (λ m. m.pin_count) (sym (meta_kept q g old)) ∙ c)
              ∙ ap some (sym (bytes_kept q g old)))
    ];
  }

  pub bind_frame-IsBound : IsBound file pid f b bp after d d'
  bind_frame-IsBound = record {
    here = at_pid;
    content_here = ap (λ o. shown o after d' pid) at_pid ∙ ground (arith, bytes f);
    pins_here = ap (λ o. pins_at o after) at_pid ∙ pins_f;
    content_others = λ q l apart.
        ap (λ o. shown o after d' q) (elsewhere q apart) ∙ shows q l (frame_of file bp q) refl;
    pins_others =
        λ q apart. ap (λ o. pins_at o after) (elsewhere q apart) ∙ pins q (frame_of file bp q) refl;
    keeps = λ q g e. elim (ℕ_discrete q pid) [
      | yes same ↦ absurd (ground (arith, absent, subst (λ z. frame_of file bp z ≡ some g) same e))
      | no other ↦ elsewhere q other ∙ e
    ];
  }
    where
      shows :
          (q : ℕ)
          → q < d.num_pages
          → (o : Option ℕ) → frame_of file bp q ≡ o
          → shown o after d' q ≡ shown o bp d q
      shows q l none e = same_page q l
      shows q l (some g) e = bytes_kept q g e

      pins : (q : ℕ) (o : Option ℕ) → frame_of file bp q ≡ o → pins_at o after ≡ pins_at o bp
      pins q none e = refl
      pins q (some g) e = ap (λ m. m.pin_count) (meta_kept q g e)
