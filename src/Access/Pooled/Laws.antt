-- ===== src/Access/Pooled/Laws.antt =====
-- Each operation of the pager over a pool that shows its file leaves one that does.
use mathlib.Core.Path.{subst}
use mini_db.Base.{
  ℕ, ◌≡◌, refl, sym, ap, ap₂, ◌∙◌, ◌⊎◌, inl, inr, Bool, true, false, [], ◌∷◌, ◌++◌, length,
  length-set, get_elem?, get_elem?-set_self, get_elem?-set_ne, arith,
}
use mini_db.Base.Outcome.{ok, err}
use mini_db.Page.{new_page as zero_frame}
use mini_db.Disk.{DiskError}
use mini_db.Buffer.Backing.{disk_file}
use mini_db.Buffer.Pool.{PoolError, page_key, bytes_of, pages_in}
use mini_db.Buffer.Content.{key_at, content, IsSame}
use mini_db.Buffer.Content.Fetch.{IsFetched}
use mini_db.Buffer.Content.Create.{IsCreated}
use mini_db.Buffer.Content.Labels.{labelled-content, labelled-IsShown}
use mini_db.Access.Pager.{Pager}
use mini_db.Access.Pooled.{Pooled, with_created, pool_pager, IsBacked, IsHeld}
use mini_db.Access.Pooled.Listing.{upto, upto_congr, upto-next}
use mini_db.Access.Pooled.Release.{let_go, let_go-IsPool}
use mini_db.Access.Pooled.Calls.{
  pages, pages-upto, length-pages, page_held, same_pages, fetched, created, some_pin, gone,
}

module _ (file : ℕ) where
  abbrev pager : Pager Pooled ℕ (PoolError DiskError)
  pager = pool_pager file

  pub count : (s : Pooled) (v : IsBacked file s) → pager.num_pages s ≡ length (pages file s)
  count s v = unfold pages_in in ground (arith, v.shows.filed) ∙ sym (length-pages file s v)

  pub fetch_law :
      (pid : ℕ) (s : Pooled) (v : IsBacked file s)
      → ((p : ℕ) × (t : Pooled) × (pager.fetch_page pid s ≡ (t, ok p))
          × (w : IsBacked file t) × IsHeld file p pid t
          × (pages file t ≡ pages file s)
          × (t.said ≡ s.said)
          × IsFetched file pid p s.bp t.bp v.disk w.disk)
        ⊎ ((e : PoolError DiskError) × (t : Pooled) × (pager.fetch_page pid s ≡ (t, err e))
            × (w : IsBacked file t) × (pages file t ≡ pages file s)
            × (t.said ≡ s.said)
            × IsSame file s.bp t.bp v.disk w.disk)
  fetch_law pid s v = elim (fetched file pid s v) [
    | inl (f, bp', d', run, whole, shows, got) ↦
        let t : Pooled = record { bp = bp'; said = s.said } in
        let w : IsBacked file t = record {
          size = v.size;
          disk = d';
          whole = whole;
          shows = shows;
        } in
        inl (
          f,
          t,
          ap (λ r. (record { bp = r.0; said = s.said }, r.1)) run,
          w,
          (got.here, omega (arith, got.pins_here)),
          same_pages file s t v w got.same_count got.same_content,
          refl,
          got,
        )
    | inr (e, bp', d', run, whole, shows, same) ↦
        let t : Pooled = record { bp = bp'; said = s.said } in
        let w : IsBacked file t = record {
          size = v.size;
          disk = d';
          whole = whole;
          shows = shows;
        } in
        inr (
          e,
          t,
          ap (λ r. (record { bp = r.0; said = s.said }, r.1)) run,
          w,
          same_pages file s t v w same.same_count same.same_content,
          refl,
          same,
        )
  ]

  pub new_law :
      (s : Pooled) (v : IsBacked file s)
      → ((p : ℕ) × (t : Pooled) × (pager.new_page s ≡ (t, ok (p, length (pages file s))))
          × (w : IsBacked file t) × IsHeld file p (length (pages file s)) t
          × (pages file t ≡ pages file s ++ zero_frame ∷ [])
          × (t.said ≡ s.said ++ zero_frame ∷ [])
          × IsCreated file p s.bp t.bp v.disk w.disk)
        ⊎ ((e : PoolError DiskError) × (t : Pooled) × (pager.new_page s ≡ (t, err e))
            × (w : IsBacked file t) × (pages file t ≡ pages file s)
            × (t.said ≡ s.said)
            × IsSame file s.bp t.bp v.disk w.disk)
  new_law s v = elim (created file s v) [
    | inl (f, bp', d', run, whole, shows, got) ↦
        let t : Pooled = record { bp = bp'; said = s.said ++ zero_frame ∷ [] } in
        let w : IsBacked file t = record {
          size = v.size;
          disk = d';
          whole = whole;
          shows = shows;
        } in
        let num = length-pages file s v in
        inl (
          f,
          t,
          ap (λ r. (record { bp = r.0; said = with_created r.1 s.said }, r.1)) run
              ∙ ap (λ m. (t, ok (f, m))) (sym num),
          w,
          subst (λ m. IsHeld file f m t) (sym num) (got.here, omega (arith, got.pins_here)),
          pages-upto file t w
              ∙ (ap (λ m. upto m (content file bp' d')) got.one_more
                  ∙ (upto-next v.disk.num_pages (content file bp' d')
                      ∙ ap₂ (λ xs x. xs ++ x ∷ [])
                          (upto_congr v.disk.num_pages (content file bp' d')
                              (content file s.bp v.disk) got.same_content
                            ∙ sym (pages-upto file s v))
                          got.zeroed)),
          refl,
          got,
        )
    | inr (e, bp', d', run, whole, shows, same) ↦
        let t : Pooled = record { bp = bp'; said = s.said } in
        let w : IsBacked file t = record {
          size = v.size;
          disk = d';
          whole = whole;
          shows = shows;
        } in
        inr (
          e,
          t,
          ap (λ r. (record { bp = r.0; said = with_created r.1 s.said }, r.1)) run,
          w,
          same_pages file s t v w same.same_count same.same_content,
          refl,
          same,
        )
  ]

  pub gone_pages :
      (s : Pooled) (p pid : ℕ) (dirty : Bool) (v : IsBacked file s) (h : IsHeld file p pid s)
      → (w : IsBacked file (gone file s p pid dirty v h)) → w.disk ≡ v.disk
      → pages file (gone file s p pid dirty v h) ≡ pages file s
  gone_pages s p pid dirty v h w same =
      same_pages file s (gone file s p pid dirty v h) v w (ap (λ d. d.num_pages) same) (λ q l.
        ap (λ d. content file (let_go s.bp p dirty) d q) same
        ∙ labelled-content file p q _ _ s.bp v.disk)

  pub dirty-IsBacked :
      (s : Pooled) (p pid : ℕ) (v : IsBacked file s) (h : IsHeld file p pid s)
      → (w : IsBacked file (gone file s p pid true v h)) × (w.disk ≡ v.disk)
  dirty-IsBacked s p pid v h =
      let inside = v.shows.in_file pid p h.0 in
      (
        record {
          size = v.size;
          disk = v.disk;
          whole =
              let_go-IsPool s.bp v.size (key_at file pid) p true v.whole h.0
                (some_pin file s p pid true v h);
          shows =
              labelled-IsShown file v.size pid p _ _ s.said _ s.bp v.disk v.whole v.shows h.0
                (length-set s.said pid (bytes_of s.bp p))
                (λ q o. get_elem?-set_ne s.said pid q (bytes_of s.bp p) (λ e. o (sym e)))
                (λ c. absurd (ground (arith, c)))
                (λ c.
                  get_elem?-set_self s.said pid (bytes_of s.bp p)
                    (omega (arith, inside, v.shows.said_count)));
        },
        refl,
      )

  pub clean-IsBacked :
      (s : Pooled) (p pid : ℕ) (v : IsBacked file s) (h : IsHeld file p pid s)
      → pages file s ≡ s.said
      → (w : IsBacked file (gone file s p pid false v h)) × (w.disk ≡ v.disk)
  clean-IsBacked s p pid v h settled = (
    record {
      size = v.size;
      disk = v.disk;
      whole =
          let_go-IsPool s.bp v.size (key_at file pid) p false v.whole h.0
            (some_pin file s p pid false v h);
      shows =
          labelled-IsShown file v.size pid p _ _ s.said s.said s.bp v.disk v.whole v.shows h.0 refl
            (λ q o. refl) (λ c. v.shows.clean pid p h.0 (ground (arith, c)))
            (λ c. ap (λ z. get_elem? z pid) (sym settled) ∙ page_held file s p pid v h);
    },
    refl,
  )
