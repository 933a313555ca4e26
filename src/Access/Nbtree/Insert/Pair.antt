-- ===== src/Access/Nbtree/Insert/Pair.antt =====
-- A page that is held, and a new page besides at the end of the file.
use mathlib.Core.Path.{subst}
use mini_db.Base.{
  get_elem?-set_self, ℕ, ◌+◌, ◌<◌, ◌≡◌, sym, ap, ap₂, ◌∙◌, ◌⊎◌, inl, inr, true, List, [], ◌∷◌, ◌++◌,
  length, set, get_elem?, length-append, length-set, arith,
}
use mini_db.Base.Outcome.{ok, err}
use mini_db.Page.{new_page as zero_frame}
use mini_db.Page.Slotted.Reads.{get_elem?-append_left, get_elem?-snoc}
use mini_db.Access.Heap.Ends.{set-last}
use mini_db.Access.Pager.{Pager, PagerLaws}
use mini_db.Access.Places.{set-set, set-append_left}
use mini_db.Access.Nbtree.Insert.Solo.{Keeps, IsSolo, loaded}

module _ {S P E : Type 0} {pager : Pager S P E} (laws : PagerLaws pager) where
  -- A new page besides, at the end of the file.
  pub record IsPair (s₀ : S) (limit : ℕ) (s : S) (base : List (List ℕ)) (p : P) (pid : ℕ)
      (n : List ℕ) (q : P) (m : List ℕ) : Type 0 where
    pub valid : laws.Valid s
    pub held : laws.Held p pid s
    pub held_too : laws.Held q (length base) s
    pub inside : pid < length base
    pub old : pid < limit
    pub within : limit < length base + 1
    pub pages : laws.pages s ≡ set base pid n ++ m ∷ []
    pub declared : laws.declared s ≡ base ++ zero_frame ∷ []
    pub keeps : Keeps laws s₀ s limit pid

  module _ (s₀ : S) (limit : ℕ) (s : S) (base : List (List ℕ)) (p : P) (pid : ℕ) (n : List ℕ)
      (solo : IsSolo laws s₀ limit s base p pid n) where
    pub new-IsPair :
        ((q : P) × (t : S) × (pager.new_page s ≡ (t, ok (q, length base)))
          × IsPair s₀ limit t base p pid n q zero_frame)
        ⊎ ((e : E) × (t : S) × (pager.new_page s ≡ (t, err e))
            × IsSolo laws s₀ limit t base p pid n)
    new-IsPair = elim (laws.new_page_lem s solo.valid) [
      | inr (e, t, failed, v, pages, declared) ↦ inr (
        e,
        t,
        failed,
        record {
          valid = v;
          held = laws.new_page_keeps s t p pid (err e) solo.valid solo.held failed;
          inside = solo.inside;
          old = solo.old;
          within = solo.within;
          pages = pages ∙ solo.pages;
          declared = declared ∙ solo.declared;
          keeps = λ x xid k l a.
              laws.new_page_keeps s t x xid (err e) solo.valid (solo.keeps x xid k l a) failed;
        },
      )
      | inl (q, t, made, v, held, pages, declared) ↦
          let size : length (laws.pages s) ≡ length base =
            ap length solo.pages ∙ length-set base pid n in
          inl (
            q,
            t,
            made ∙ ap (λ z. (t, ok (q, z))) size,
            record {
              valid = v;
              held =
                  laws.new_page_keeps s t p pid (ok (q, length (laws.pages s))) solo.valid solo.held
                    made;
              held_too = subst (λ z. laws.Held q z t) size held;
              inside = solo.inside;
              old = solo.old;
              within = solo.within;
              pages = pages ∙ ap (λ z. z ++ zero_frame ∷ []) solo.pages;
              declared = declared ∙ ap (λ z. z ++ zero_frame ∷ []) solo.declared;
              keeps = λ x xid k l a.
                  laws.new_page_keeps s t x xid (ok (q, length (laws.pages s))) solo.valid
                    (solo.keeps x xid k l a) made;
            },
          )
    ]

  module _ (s₀ : S) (limit : ℕ) (s : S) (base : List (List ℕ)) (p : P) (pid : ℕ) (n : List ℕ)
      (q : P) (m : List ℕ) (pair : IsPair s₀ limit s base p pid n q m) where
    size_of : length (set base pid n) ≡ length base
    size_of = length-set base pid n

    pub pair_left : pager.load p s ≡ n
    pair_left = loaded laws s p pid (set base pid n ++ m ∷ []) n pair.valid pair.held pair.pages (
        get_elem?-append_left (set base pid n) (m ∷ []) pid (omega (arith, size_of, pair.inside))
        ∙ get_elem?-set_self base pid n pair.inside)

    pub pair_right : pager.load q s ≡ m
    pair_right =
        loaded laws s q (length base) (set base pid n ++ m ∷ []) m pair.valid pair.held_too
          pair.pages
          (ap (λ z. get_elem? (set base pid n ++ m ∷ []) z) (sym size_of)
            ∙ get_elem?-snoc (set base pid n) m)

    pub store_left :
        (b : List ℕ) → length b ≡ 8192 → IsPair s₀ limit (pager.store p b s) base p pid b q m
    store_left b size =
        let (v, h, pages, declared) = laws.store_lem s p pid b pair.valid pair.held size in
        record {
          valid = v;
          held = h;
          held_too = laws.store_keeps s q p (length base) pid b pair.held_too pair.held;
          inside = pair.inside;
          old = pair.old;
          within = pair.within;
          pages =
              pages
              ∙ (ap (λ z. set z pid b) pair.pages
                  ∙ (set-append_left (set base pid n) (m ∷ []) pid b
                        (omega (arith, size_of, pair.inside))
                      ∙ ap (λ z. z ++ m ∷ []) (set-set base pid n b)));
          declared = declared ∙ pair.declared;
          keeps =
              λ x xid k l e. laws.store_keeps s x p xid pid b (pair.keeps x xid k l e) pair.held;
        }

    pub store_right :
        (b : List ℕ) → length b ≡ 8192 → IsPair s₀ limit (pager.store q b s) base p pid n q b
    store_right b size =
        let (v, h, pages, declared) =
          laws.store_lem s q (length base) b pair.valid pair.held_too size in
        record {
          valid = v;
          held = laws.store_keeps s p q pid (length base) b pair.held pair.held_too;
          held_too = h;
          inside = pair.inside;
          old = pair.old;
          within = pair.within;
          pages =
              pages
              ∙ (ap (λ z. set z (length base) b) pair.pages
                  ∙ (ap (λ z. set (set base pid n ++ m ∷ []) z b) (sym size_of)
                      ∙ set-last (set base pid n) m b));
          declared = declared ∙ pair.declared;
          keeps = λ x xid k l e.
              laws.store_keeps s x q xid (length base) b (pair.keeps x xid k l e) pair.held_too;
        }

    pub pair_release :
        (t : S) × (pager.unpin_page (length base) true s ≡ (t, ok tt))
        × IsSolo laws s₀ limit t (base ++ m ∷ []) p pid n
    pair_release =
        let (t, run, v, pages, declared) =
          laws.unpin_dirty_lem s q (length base) pair.valid pair.held_too in
        (
          t,
          run,
          record {
            valid = v;
            held =
                laws.unpin_keeps s t p pid (length base) true (ok tt) pair.valid pair.held
                  (λ e. omega (arith, pair.inside)) run;
            inside = omega (arith, pair.inside, length-append base (m ∷ []));
            old = pair.old;
            within = omega (arith, pair.within, length-append base (m ∷ []));
            pages = pages ∙ (pair.pages ∙ sym (set-append_left base (m ∷ []) pid n pair.inside));
            declared =
                declared
                ∙ (ap₂ (λ z b. set z (length base) b) pair.declared pair_right
                    ∙ set-last base zero_frame m);
            keeps = λ x xid k l e.
                laws.unpin_keeps s t x xid (length base) true (ok tt) pair.valid
                  (pair.keeps x xid k l e) (λ f. omega (arith, pair.within)) run;
          },
        )
