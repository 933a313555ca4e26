-- ===== src/Buffer/Content/Writes.antt =====
-- One page of one of the files is written.
use native.Mathlib.Decide.{ℕ_discrete}
use mathlib.Core.Option.{some-injective}
use mathlib.Core.Path.{subst}
use mini_db.Base.{
  some-length, ℕ, ◌<◌, ◌≡◌, ◌≢◌, refl, sym, ap, ◌∙◌, List, some, length, set, get_elem?,
  get_elem?-set_self, get_elem?-set_ne, arith,
}
use mini_db.Base.Outcome.{ok}
use mini_db.Disk.{DiskManager, write_page}
use mini_db.Disk.Pages.{page_of, IsDisk, write_page-others}
use mini_db.Disk.Effects.{write_page_effect}
use mini_db.Buffer.Backing.{disk_file}
use mini_db.Buffer.Pool.{PageKey, page_key}
use mini_db.Buffer.Content.{key_at}

-- The file after page k of some file was written with b.
pub record IsWritten (file : ℕ) (k : PageKey) (b : List ℕ) (files : List DiskManager)
    (dx d d' : DiskManager) : Type 0 where
  pub filed : get_elem? (set files k.file (write_page k.pid b dx).0) file ≡ some d'
  pub sound : IsDisk d'
  pub same_count : d'.num_pages ≡ d.num_pages
  pub others : (q : ℕ) → q < d.num_pages → key_at file q ≢ k → page_of d' q ≡ page_of d q
  pub here : (write_page k.pid b dx).1 ≡ ok tt → (q : ℕ) → key_at file q ≡ k → page_of d' q ≡ b

pub write-IsWritten :
    (file : ℕ) (k : PageKey) (b : List ℕ) (files : List DiskManager) (dx d : DiskManager)
    → length b ≡ 8192
    → (k.file ≡ file → k.pid < d.num_pages)
    → get_elem? files k.file ≡ some dx
    → get_elem? files file ≡ some d
    → IsDisk d
    → (d' : DiskManager) × IsWritten file k b files dx d d'
write-IsWritten file k b files dx d whole inside there filed sound = elim (ℕ_discrete k.file file) [
  | no other ↦ (
    d,
    record {
      filed = get_elem?-set_ne files k.file file _ other ∙ filed;
      sound = sound;
      same_count = refl;
      others = λ q l a. refl;
      here = λ done q e. absurd (other (sym (ap (λ z. z.file) e)));
    },
  )
  | yes same ↦
      let dx_same : dx ≡ d =
        some-injective dx d (sym there ∙ (ap (λ i. get_elem? files i) same ∙ filed)) in
      let (count, kept, stored) = write_page_effect d k.pid b sound whole (inside same) in
      let d' = (write_page k.pid b d).0 in
      (
        d',
        subst (λ x. IsWritten file k b files x d d') (sym dx_same)
            (record {
              filed =
                  subst (λ i. get_elem? (set files k.file d') i ≡ some d') same
                    (get_elem?-set_self files k.file d' (some-length files k.file dx there));
              sound = kept;
              same_count = count;
              others = λ q l a.
                  (write_page-others d k.pid q b sound l (λ e. a (ground (arith, e, same)))).0;
              here = λ done q e. ap (λ z. page_of d' z.pid) e ∙ stored done;
            }),
      )
]
