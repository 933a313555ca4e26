-- ===== src/Buffer/Content/Kept.antt =====
-- The disk changes below the dirty frames, and no page leaves the pool.
use mathlib.Core.Option.{some-injective}
use mathlib.Core.Path.{subst}
use mini_db.Base.{
  ℕ, ◌<◌, ◌≡◌, refl, sym, ap, ◌∙◌, false, List, Option, none, some, length, get_or, [], get_elem?,
  arith,
}
use mini_db.Base.Maps.{lookup}
use mini_db.Disk.{DiskManager}
use mini_db.Disk.Pages.{page_of, IsDisk}
use mini_db.Buffer.Backing.{disk_file}
use mini_db.Buffer.Pool.{page_key, no_meta, meta_of, bytes_of}
use mini_db.Buffer.Content.{Pool, shown, pins_at, key_at, frame_of, IsShown, IsSame}

pub shown-same :
    (bp bp' : Pool) (d d' : DiskManager) (q : ℕ)
    → ((f : ℕ) → bytes_of bp' f ≡ bytes_of bp f)
    → (o : Option ℕ) → (o ≡ none → page_of d' q ≡ page_of d q)
    → shown o bp' d' q ≡ shown o bp d q
shown-same bp bp' d d' q bytes none same = same refl
shown-same bp bp' d d' q bytes (some f) same = bytes f

pub pins-same :
    (bp bp' : Pool)
    → ((f : ℕ) → meta_of bp' f ≡ meta_of bp f)
    → (o : Option ℕ) → pins_at o bp' ≡ pins_at o bp
pins-same bp bp' metas none = refl
pins-same bp bp' metas (some f) = ap (λ m. m.pin_count) (metas f)

module _ (file : ℕ) (said : List (List ℕ)) (n : ℕ) (bp : Pool) (d : DiskManager)
    (s : IsShown file said n bp d) where
  -- No page left, and the disk has what it had of the pages that are not in a dirty frame.
  pub kept-IsShown :
      (bp' : Pool) (d' : DiskManager)
      → bp'.meta ≡ bp.meta
      → bp'.frames ≡ bp.frames
      → bp'.page_table ≡ bp.page_table
      → get_elem? bp'.files file ≡ some d'
      → IsDisk d'
      → d'.num_pages ≡ d.num_pages
      → ((q : ℕ)
          → q < d.num_pages
          → ((f : ℕ) → frame_of file bp q ≡ some f → (meta_of bp f).dirty ≡ false)
          → page_of d' q ≡ page_of d q)
      → IsShown file said n bp' d' × IsSame file bp bp' d d'
  kept-IsShown bp' d' meta frames table filed sound count others = (
    record {
      filed = filed;
      sound = sound;
      sized = λ f l. ap length (bytes f) ∙ s.sized f l;
      in_file = λ q f e. subst (λ m. q < m) (sym count) (s.in_file q f (sym (entry q) ∙ e));
      said_count = s.said_count ∙ sym count;
      absent = λ q l e.
          let old = sym (entry q) ∙ e in
          let l' = subst (λ m. q < m) count l in
          s.absent q l' old ∙ ap some (sym (others q l' (λ f h. absurd (ground (arith, old, h)))));
      clean = λ q f e c.
          let old = sym (entry q) ∙ e in
          let c' = ap (λ m. m.dirty) (sym (metas f)) ∙ c in
          s.clean q f old c'
          ∙ ap some (
              sym (
                others q (s.in_file q f old) (λ g h.
                  subst (λ i. (meta_of bp i).dirty ≡ false) (some-injective f g (sym old ∙ h))
                    c')));
      rested = λ q f e c.
          s.rested q f (sym (entry q) ∙ e) (ap (λ m. m.pin_count) (sym (metas f)) ∙ c)
          ∙ ap some (sym (bytes f));
    },
    record {
      same_count = count;
      same_content = λ q l.
          ap (λ o. shown o bp' d' q) (entry q)
          ∙ shown-same bp bp' d d' q bytes (frame_of file bp q)
              (λ e. others q l (λ f h. absurd (ground (arith, e, h))));
      same_pins =
          λ q. ap (λ o. pins_at o bp') (entry q) ∙ pins-same bp bp' metas (frame_of file bp q);
      keeps = λ q f e used. entry q ∙ e;
    },
  )
    where
      bytes : (f : ℕ) → bytes_of bp' f ≡ bytes_of bp f
      bytes f = ap (λ z. get_or z f []) frames

      metas : (f : ℕ) → meta_of bp' f ≡ meta_of bp f
      metas f = ap (λ z. get_or z f no_meta) meta

      entry : (q : ℕ) → frame_of file bp' q ≡ frame_of file bp q
      entry q = ap (lookup (key_at file q)) table
