-- ===== src/Buffer/Content/Lent.antt =====
-- A frame that nobody holds is filled, and no page takes it.
use native.Mathlib.Decide.{ℕ_discrete}
use mini_db.Base.{
  ℕ, ◌<◌, ◌≡◌, refl, sym, ap, ◌∙◌, List, [], Option, none, some, length, length-set, get_or-set,
  get_elem?, if◌then◌else◌, ◌==◌, arith,
}
use mathlib.Core.Path.{subst}
use mini_db.Disk.{DiskManager}
use mini_db.Disk.Pages.{page_of, IsDisk}
use mini_db.Buffer.Pool.{bytes_of, release}
use mini_db.Buffer.Pool.Invariant.{IsPool}
use mini_db.Buffer.Pool.Binding.{acquired, unheld}
use mini_db.Buffer.Content.{Pool, shown, pins_at, key_at, frame_of, IsShown, IsSame}
use mini_db.Buffer.Content.Bound.{with_frame}

module _ (file n pid f : ℕ) (b : List ℕ) (said : List (List ℕ)) (files : List DiskManager)
    (bp : Pool) (d d' : DiskManager) (s : IsShown file said n bp d)
    (v : IsPool (release f (with_frame f b files bp)) n) (absent : frame_of file bp pid ≡ none)
    (filed : get_elem? files file ≡ some d') (sound : IsDisk d') (whole : length b ≡ 8192)
    (count : d'.num_pages ≡ d.num_pages) (same_page : (q : ℕ) → page_of d' q ≡ page_of d q) where
  abbrev mid : Pool
  mid = with_frame f b files bp

  in_frames : f < length bp.frames
  unfolding release
  in_frames =
      omega (
        arith,
        acquired mid n f (key_at file pid) v absent,
        v.frame_count,
        length-set bp.frames f b,
      )

  bytes : (g : ℕ) → bytes_of mid g ≡ (if f == g then b else bytes_of bp g)
  bytes g = get_or-set bp.frames f g b [] in_frames

  bytes_kept : (q g : ℕ) → frame_of file bp q ≡ some g → bytes_of mid g ≡ bytes_of bp g
  bytes_kept q g e = elim (ℕ_discrete f g) [
    | yes same ↦
        absurd (unheld mid n f (key_at file pid) v absent (key_at file q) (e ∙ ap some (sym same)))
    | no other ↦ ground (arith, bytes g, other)
  ]

  pub lent-IsShown : IsShown file said n (release f mid) d'
  unfolding release
  lent-IsShown = record {
    filed = filed;
    sound = sound;
    sized = λ g l. elim (ℕ_discrete f g) [
      | yes same ↦ ground (arith, ap length (bytes g), same, whole)
      | no other ↦ ground (arith, ap length (bytes g), other, s.sized g l)
    ];
    in_file = λ q g e. subst (λ z. q < z) (sym count) (s.in_file q g e);
    said_count = s.said_count ∙ sym count;
    absent = λ q l e. s.absent q (subst (λ z. q < z) count l) e ∙ ap some (sym (same_page q));
    clean = λ q g e c. s.clean q g e c ∙ ap some (sym (same_page q));
    rested = λ q g e c. s.rested q g e c ∙ ap some (sym (bytes_kept q g e));
  }

  pub lent-IsSame : IsSame file bp (release f mid) d d'
  unfolding release
  lent-IsSame = record {
    same_count = count;
    same_content = λ q l. shows q (frame_of file bp q) refl;
    same_pins = λ q. pins (frame_of file bp q);
    keeps = λ q g e used. e;
  }
    where
      shows :
          (q : ℕ) (o : Option ℕ)
          → frame_of file bp q ≡ o
          → shown o (release f mid) d' q ≡ shown o bp d q
      shows q none e = same_page q
      shows q (some g) e = unfold release in bytes_kept q g e

      pins : (o : Option ℕ) → pins_at o (release f mid) ≡ pins_at o bp
      pins none = refl
      pins (some g) = unfold release in refl
