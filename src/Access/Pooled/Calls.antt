-- ===== src/Access/Pooled/Calls.antt =====
-- What the operations of the pager are over a pool that shows its file.
use mathlib.Core.Path.{subst}
use mini_db.Base.{
  ℕ, ◌+◌, ◌<◌, ◌≡◌, ◌≢◌, refl, sym, ap, ◌∙◌, Bool, List, some, length, length-set, set, get_elem?,
  arith,
}
use mini_db.Base.Outcome.{ok}
use mini_db.Buffer.Backing.{disk_file}
use mini_db.Buffer.Pool.{page_key, bytes_of, fetch, allocate_page_in, write_frame}
use mini_db.Buffer.Pool.Invariant.{pins_of, frames-IsPool}
use mini_db.Buffer.Content.{shown, pins_at, key_at, frame_of, content, pinned}
use mini_db.Buffer.Content.Fetch.{Fetches, fetch-IsShown}
use mini_db.Buffer.Content.Create.{Creates, allocate_page_in-IsShown}
use mini_db.Buffer.Content.Labels.{
  labelled-pins, labelled-pins_others, write_frame-IsShown, write_frame-content,
  write_frame-content_others,
}
use mini_db.Access.Pooled.{Pooled, frame_bytes, with_dirty, pool_pager, pages_of, IsBacked, IsHeld}
use mini_db.Access.Pooled.Listing.{upto, length-upto, get_elem?-upto, upto_congr, set-upto}
use mini_db.Access.Pooled.Release.{let_go, unpin_page-let_go}

module _ (file : ℕ) where
  abbrev pub pages : Pooled → List (List ℕ)
  pages s = pages_of file (get_elem? s.bp.files file) s.bp

  pub pages-upto :
      (s : Pooled) (v : IsBacked file s)
      → pages s ≡ upto v.disk.num_pages (content file s.bp v.disk)
  pages-upto s v = ap (λ o. pages_of file o s.bp) v.shows.filed

  pub length-pages : (s : Pooled) (v : IsBacked file s) → length (pages s) ≡ v.disk.num_pages
  length-pages s v = ap length (pages-upto s v) ∙ length-upto _ _

  pub used : (s : Pooled) (p pid : ℕ) → IsHeld file p pid s → 0 < pins_of s.bp p
  used s p pid h = subst (λ m. 0 < m) (ap (λ o. pins_at o s.bp) h.0) h.1

  pub page_held :
      (s : Pooled) (p pid : ℕ) (v : IsBacked file s)
      → IsHeld file p pid s
      → get_elem? (pages s) pid ≡ some (bytes_of s.bp p)
  page_held s p pid v h =
      ap (λ z. get_elem? z pid) (pages-upto s v)
      ∙ (get_elem?-upto v.disk.num_pages pid (content file s.bp v.disk) (v.shows.in_file pid p h.0)
          ∙ ap (λ o. some (shown o s.bp v.disk pid)) h.0)

  pub same_pages :
      (s t : Pooled) (v : IsBacked file s) (w : IsBacked file t)
      → w.disk.num_pages ≡ v.disk.num_pages
      → ((q : ℕ) → q < v.disk.num_pages → content file t.bp w.disk q ≡ content file s.bp v.disk q)
      → pages t ≡ pages s
  same_pages s t v w count same =
      pages-upto t w
      ∙ (ap (λ m. upto m (content file t.bp w.disk)) count
          ∙ (upto_congr _ _ _ same ∙ sym (pages-upto s v)))

  pub fetched :
      (pid : ℕ) (s : Pooled) (v : IsBacked file s)
      → Fetches file v.size pid s.said s.bp v.disk (fetch (key_at file pid) s.bp)
  fetched pid s v = fetch-IsShown file v.size pid s.said s.bp v.disk v.whole v.shows

  pub created :
      (s : Pooled) (v : IsBacked file s)
      → Creates file v.size s.said s.bp v.disk (allocate_page_in file s.bp)
  created s v = allocate_page_in-IsShown file v.size s.said s.bp v.disk v.whole v.shows

  -- A held page that one more operation keeps.
  pub still-IsHeld :
      (s t : Pooled) (p pid : ℕ)
      → IsHeld file p pid s
      → ((q g : ℕ)
          → frame_of file s.bp q ≡ some g
          → 0 < pins_of s.bp g
          → frame_of file t.bp q ≡ some g)
      → 0 < pinned file t.bp pid
      → IsHeld file p pid t
  still-IsHeld s t p pid h keeps more = (keeps pid p h.0 (used s p pid h), more)

  module _ (s : Pooled) (p pid : ℕ) (b : List ℕ) (v : IsBacked file s) (h : IsHeld file p pid s)
      (whole : length b ≡ 8192) where
    pub stored-IsBacked : IsBacked file ((pool_pager file).store p b s)
    stored-IsBacked = record {
      size = v.size;
      disk = v.disk;
      whole =
          unfold write_frame in
          frames-IsPool s.bp v.size (set s.bp.frames p b) s.bp.files
            (length-set s.bp.frames p b ∙ v.whole.frame_count) refl v.whole;
      shows =
          write_frame-IsShown file v.size pid p b s.said s.bp v.disk v.whole v.shows h.0
            (λ e. omega (arith, used s p pid h, e)) whole;
    }

    pub pages-store : pages ((pool_pager file).store p b s) ≡ set (pages s) pid b
    unfolding stored-IsBacked
    pages-store =
        pages-upto ((pool_pager file).store p b s) stored-IsBacked
        ∙ (set-upto v.disk.num_pages pid b (content file s.bp v.disk) _ (v.shows.in_file pid p h.0)
              (write_frame-content file v.size pid p b s.said s.bp v.disk v.whole v.shows h.0
                (λ e. omega (arith, used s p pid h, e)) whole)
              (λ j l o.
                write_frame-content_others file v.size pid p b s.said s.bp v.disk v.whole v.shows
                  h.0 (λ e. omega (arith, used s p pid h, e)) whole j o)
            ∙ ap (λ z. set z pid b) (sym (pages-upto s v)))

  module _ (s : Pooled) (p pid : ℕ) (dirty : Bool) (v : IsBacked file s)
      (h : IsHeld file p pid s) where
    pub some_pin : pins_of s.bp p ≢ 0
    some_pin e = omega (arith, used s p pid h, e)

    abbrev pub told : List (List ℕ)
    told = with_dirty dirty pid (bytes_of s.bp p) s.said

    abbrev pub gone : Pooled
    gone = record { bp = let_go s.bp p dirty; said = told }

    pub let_go_run : (pool_pager file).unpin_page pid dirty s ≡ (gone, ok tt)
    let_go_run =
        ap
          (λ r. (
            record {
              bp = r.0;
              said = with_dirty dirty pid (frame_bytes (frame_of file s.bp pid) s.bp) s.said;
            },
            r.1,
          ))
          (unpin_page-let_go s.bp v.size (key_at file pid) p dirty v.whole h.0 some_pin)
        ∙ ap
            (λ o. (
              record {
                bp = let_go s.bp p dirty;
                said = with_dirty dirty pid (frame_bytes o s.bp) s.said;
              },
              ok tt,
            ))
            h.0

    pub let_go_pins :
        (pinned file s.bp pid ≡ pinned file gone.bp pid + 1)
        × ((q : ℕ) → q ≢ pid → pinned file gone.bp q ≡ pinned file s.bp q)
    let_go_pins = (
      omega (
        arith,
        ap (λ o. pins_at o s.bp) h.0,
        labelled-pins file v.size pid p _ _ s.said s.said s.bp v.disk v.whole v.shows h.0,
        used s p pid h,
      ),
      labelled-pins_others file v.size pid p _ _ s.said s.said s.bp v.disk v.whole v.shows h.0,
    )
