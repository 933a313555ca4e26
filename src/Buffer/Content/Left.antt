-- ===== src/Buffer/Content/Left.antt =====
-- An idle page leaves the pool.
use mathlib.Core.Option.{some-injective}
use mathlib.Core.Path.{subst}
use mini_db.Base.{
  ℕ, ◌<◌, ◌≡◌, ◌≢◌, sym, ap, ◌∙◌, ◌⊎◌, inl, inr, List, none, some, length, get_or, [], get_elem?,
  if◌then◌else◌, Bool-cases, arith,
}
use mini_db.Base.Maps.{lookup, remove, lookup-remove, ◌=?◌}
use mini_db.Disk.{DiskManager}
use mini_db.Disk.Pages.{page_of, IsDisk}
use mini_db.Buffer.Backing.{disk_file}
use mini_db.Buffer.Pool.{page_key, same_key_iff, no_meta, meta_of, bytes_of}
use mini_db.Buffer.Pool.Invariant.{key_of, pins_of}
use mini_db.Buffer.Content.{
  Pool, shown, pins_at, key_at, frame_of, content, pinned, IsShown, IsSame,
}
use mini_db.Buffer.Content.Kept.{shown-same, pins-same}

module _ (file : ℕ) (said : List (List ℕ)) (n : ℕ) (bp : Pool) (d : DiskManager)
    (s : IsShown file said n bp d) where
  -- The page of the idle frame x left, and the disk has what it showed.
  pub dropped-IsShown :
      (x : ℕ) (bp' : Pool) (d' : DiskManager)
      → lookup (key_of bp x) bp.page_table ≡ some x
      → pins_of bp x ≡ 0
      → bp'.meta ≡ bp.meta
      → bp'.frames ≡ bp.frames
      → bp'.page_table ≡ remove (key_of bp x) bp.page_table
      → get_elem? bp'.files file ≡ some d'
      → IsDisk d'
      → d'.num_pages ≡ d.num_pages
      → ((q : ℕ) → q < d.num_pages → key_at file q ≢ key_of bp x → page_of d' q ≡ page_of d q)
      → ((q : ℕ) → key_at file q ≡ key_of bp x → page_of d' q ≡ bytes_of bp x)
      → IsShown file said n bp' d' × IsSame file bp bp' d d'
  dropped-IsShown x bp' d' holder idle meta frames table filed sound count others here = (
    record {
      filed = filed;
      sound = sound;
      sized = λ f l. ap length (bytes f) ∙ s.sized f l;
      in_file = λ q f e. subst (λ m. q < m) (sym count) (s.in_file q f (older q f e));
      said_count = s.said_count ∙ sym count;
      absent = λ q l e. gone_page q (subst (λ m. q < m) count l) e;
      clean = λ q f e c.
          let old = older q f e in
          s.clean q f old (ap (λ m. m.dirty) (sym (metas f)) ∙ c)
          ∙ ap some (sym (others q (s.in_file q f old) (apart q f e)));
      rested = λ q f e c.
          s.rested q f (older q f e) (ap (λ m. m.pin_count) (sym (metas f)) ∙ c)
          ∙ ap some (sym (bytes f));
    },
    record { same_count = count; same_content = contents; same_pins = pins; keeps = stays_there },
  )
    where
      bytes : (f : ℕ) → bytes_of bp' f ≡ bytes_of bp f
      bytes f = ap (λ z. get_or z f []) frames

      metas : (f : ℕ) → meta_of bp' f ≡ meta_of bp f
      metas f = ap (λ z. get_or z f no_meta) meta

      entry :
          (q : ℕ)
          → ((key_at file q ≡ key_of bp x)
              × (frame_of file bp q ≡ some x)
              × (frame_of file bp' q ≡ none))
            ⊎ ((key_at file q ≢ key_of bp x) × (frame_of file bp' q ≡ frame_of file bp q))
      entry q =
          let after : frame_of file bp' q
              ≡ (if key_of bp x =? key_at file q then none else frame_of file bp q) =
            ap (lookup (key_at file q)) table
            ∙ lookup-remove (key_of bp x) (key_at file q) bp.page_table in
          elim (Bool-cases (key_of bp x =? key_at file q)) [
            | inl same ↦
                let e : key_of bp x ≡ key_at file q =
                  (same_key_iff (key_of bp x) (key_at file q)).0 same in
                inl (
                  sym e,
                  subst (λ k. lookup k bp.page_table ≡ some x) e holder,
                  ground (arith, after, same),
                )
            | inr other ↦ inr (
              λ e. ground (arith, other, same_key_iff (key_of bp x) (key_at file q), e),
              ground (arith, after, other),
            )
          ]

      older : (q f : ℕ) → frame_of file bp' q ≡ some f → frame_of file bp q ≡ some f
      older q f e = elim (entry q) [
        | inl (k, old, gone) ↦ absurd (ground (arith, gone, e))
        | inr (k, same) ↦ sym same ∙ e
      ]

      apart : (q f : ℕ) → frame_of file bp' q ≡ some f → key_at file q ≢ key_of bp x
      apart q f e = elim (entry q) [
        | inl (k, old, gone) ↦ absurd (ground (arith, gone, e))
        | inr (k, same) ↦ k
      ]

      gone_page :
          (q : ℕ)
          → q < d.num_pages
          → frame_of file bp' q ≡ none
          → get_elem? said q ≡ some (page_of d' q)
      gone_page q l e = elim (entry q) [
        | inl (k, old, gone) ↦ s.rested q x old idle ∙ ap some (sym (here q k))
        | inr (k, same) ↦ s.absent q l (sym same ∙ e) ∙ ap some (sym (others q l k))
      ]

      contents : (q : ℕ) → q < d.num_pages → content file bp' d' q ≡ content file bp d q
      contents q l = elim (entry q) [
        | inl (k, old, gone) ↦
            ap (λ o. shown o bp' d' q) gone ∙ (here q k ∙ sym (ap (λ o. shown o bp d q) old))
        | inr (k, same) ↦
            ap (λ o. shown o bp' d' q) same
            ∙ shown-same bp bp' d d' q bytes (frame_of file bp q) (λ e. others q l k)
      ]

      pins : (q : ℕ) → pinned file bp' q ≡ pinned file bp q
      pins q = elim (entry q) [
        | inl (k, old, gone) ↦
            ap (λ o. pins_at o bp') gone ∙ (sym idle ∙ sym (ap (λ o. pins_at o bp) old))
        | inr (k, same) ↦ ap (λ o. pins_at o bp') same ∙ pins-same bp bp' metas (frame_of file bp q)
      ]

      stays_there :
          (q f : ℕ) → frame_of file bp q ≡ some f → 0 < pins_of bp f → frame_of file bp' q ≡ some f
      stays_there q f e used = elim (entry q) [
        | inl (k, old, gone) ↦
            let at_x : x ≡ f = some-injective x f (sym old ∙ e) in
            absurd (omega (arith, used, idle, ap (pins_of bp) at_x))
        | inr (k, same) ↦ same ∙ e
      ]
