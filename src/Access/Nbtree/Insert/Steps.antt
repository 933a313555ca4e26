-- ===== src/Access/Nbtree/Insert/Steps.antt =====
-- The arrival of insertInto at a page, and its departure from it.
use mini_db.Base.{
  some-length, get_elem?-set_ne, ℕ, ◌≤◌, ◌<◌, ◌≡◌, ◌≢◌, sym, ap, ◌∙◌, ◌⊎◌, inl, inr, false, List,
  length, set, some, get_elem?, length-set, arith,
}
use mini_db.Base.Outcome.{ok, err}
use mini_db.Access.Pager.{Pager, PagerLaws}
use mini_db.Access.Nbtree.Tree.Lookup.{IsQuiet}
use mini_db.Access.Places.{set-same}
use mini_db.Access.Nbtree.Insert.Solo.{Keeps, IsSolo}
use mini_db.Access.Nbtree.Insert.Outcomes.{Spared, Moves}

pub Spared-ne : (lo hi pid q : ℕ) (n : List ℕ) → 0 < pid → Spared lo hi pid q n → q ≢ pid
Spared-ne lo hi pid q n h (inl z) = λ e. omega arith
Spared-ne lo hi pid q n h (inr (ne, out)) = ne

module _ {S P E : Type 0} {pager : Pager S P E} (laws : PagerLaws pager) where
  -- Nothing changed.
  pub stays :
      (lo hi pid : ℕ) (s u : S)
      → 0 < pid
      → IsQuiet laws u
      → laws.pages u ≡ laws.pages s
      → Keeps laws s u (length (laws.pages s)) pid
      → Moves laws lo hi pid s u
  stays lo hi pid s u nonzero quiet same keeps = record {
    quiet = quiet;
    longer = omega (arith, ap length same);
    spares = λ q n at out. ap (λ z. get_elem? z q) same ∙ at;
    keeps = λ x q n held at out.
        keeps x q held (some-length (laws.pages s) q n at) (Spared-ne lo hi pid q n nonzero out);
  }

  -- Page pid changed, and pages came behind the others.
  pub changes :
      (lo hi pid : ℕ) (s u : S) (base : List (List ℕ)) (n : List ℕ)
      → 0 < pid
      → IsQuiet laws u
      → laws.pages u ≡ set base pid n
      → length (laws.pages s) ≤ length base
      → ((q : ℕ) (m : List ℕ) → get_elem? (laws.pages s) q ≡ some m → get_elem? base q ≡ some m)
      → Keeps laws s u (length (laws.pages s)) pid
      → Moves laws lo hi pid s u
  changes lo hi pid s u base n nonzero quiet now longer base_has keeps = record {
    quiet = quiet;
    longer = omega (arith, ap length now, length-set base pid n);
    spares = λ q m at out.
        ap (λ z. get_elem? z q) now
        ∙ (get_elem?-set_ne base pid q n (λ e. Spared-ne lo hi pid q m nonzero out (sym e))
            ∙ base_has q m at);
    keeps = λ x q m held at out.
        keeps x q held (some-length (laws.pages s) q m at) (Spared-ne lo hi pid q m nonzero out);
  }

  pub arrives :
      (s : S) (pid : ℕ) (n : List ℕ)
      → IsQuiet laws s
      → get_elem? (laws.pages s) pid ≡ some n
      → ((p : P) × (s₁ : S) × (pager.fetch_page pid s ≡ (s₁, ok p))
          × IsSolo laws s (length (laws.pages s)) s₁ (laws.pages s) p pid n)
        ⊎ ((e : E) × (u : S) × (pager.fetch_page pid s ≡ (u, err e))
            × IsQuiet laws u
            × (laws.pages u ≡ laws.pages s)
            × Keeps laws s u (length (laws.pages s)) pid)
  arrives s pid n quiet at = elim (laws.fetch_page_lem pid s quiet.valid) [
    | inr (e, u, failed, v, pages, declared) ↦ inr (
      e,
      u,
      failed,
      record { valid = v; settled = pages ∙ (quiet.settled ∙ sym declared) },
      pages,
      λ x xid held l a. laws.fetch_page_keeps s u x xid pid (err e) quiet.valid held failed,
    )
    | inl (p, s₁, got, v, held, pages, declared) ↦ inl (
      p,
      s₁,
      got,
      record {
        valid = v;
        held = held;
        inside = some-length (laws.pages s) pid n at;
        old = some-length (laws.pages s) pid n at;
        within = omega arith;
        pages = pages ∙ sym (set-same (laws.pages s) pid n at);
        declared = declared ∙ sym quiet.settled;
        keeps = λ x xid h l a. laws.fetch_page_keeps s s₁ x xid pid (ok p) quiet.valid h got;
      },
    )
  ]

  -- Let go as clean, where nothing is undeclared.
  pub leaves :
      (s : S) (p : P) (pid : ℕ)
      → IsQuiet laws s
      → laws.Held p pid s
      → (u : S) × (pager.unpin_page pid false s ≡ (u, ok tt))
        × IsQuiet laws u
        × (laws.pages u ≡ laws.pages s)
        × ((x : P) (xid : ℕ) → laws.Held x xid s → xid ≢ pid → laws.Held x xid u)
  leaves s p pid quiet held =
      let (u, run, v, pages, declared) =
        laws.unpin_clean_lem s p pid quiet.valid held quiet.settled in
      (
        u,
        run,
        record { valid = v; settled = pages ∙ (quiet.settled ∙ sym declared) },
        pages,
        λ x xid h a.
            laws.unpin_keeps s u x xid pid false (ok tt) quiet.valid h (λ e. a (sym e)) run,
      )

  pub solo-IsQuiet :
      (s₀ : S) (limit : ℕ) (s : S) (base : List (List ℕ)) (p : P) (pid : ℕ) (n : List ℕ)
      → IsSolo laws s₀ limit s base p pid n
      → get_elem? base pid ≡ some n
      → IsQuiet laws s × (laws.pages s ≡ base)
  solo-IsQuiet s₀ limit s base p pid n solo at =
      let same = solo.pages ∙ set-same base pid n at in
      (record { valid = solo.valid; settled = same ∙ sym solo.declared }, same)

  pub Moves-trans :
      (lo hi pid : ℕ) (s u v : S)
      → Moves laws lo hi pid s u
      → Moves laws lo hi pid u v
      → Moves laws lo hi pid s v
  Moves-trans lo hi pid s u v f g = record {
    quiet = g.quiet;
    longer = omega (arith, f.longer, g.longer);
    spares = λ q n at out. g.spares q n (f.spares q n at out) out;
    keeps =
        λ x q n held at out. g.keeps x q n (f.keeps x q n held at out) (f.spares q n at out) out;
  }
