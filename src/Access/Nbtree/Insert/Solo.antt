-- ===== src/Access/Nbtree/Insert/Solo.antt =====
-- An operation that changes one page and may add another, while its callers hold theirs.
use mathlib.Core.Option.{some-injective}
use mini_db.Base.{
  get_elem?-set_self, ℕ, ◌+◌, ◌<◌, ◌≡◌, ◌≢◌, sym, ap, ap₂, ◌∙◌, true, List, length, set, Option,
  some, get_elem?, arith,
}
use mini_db.Base.Outcome.{ok}
use mini_db.Access.Pager.{Pager, PagerLaws}
use mini_db.Access.Nbtree.Tree.{edit, edit_both, peek}
use mini_db.Access.Places.{set-set}
use mini_db.Access.Nbtree.Tree.Lookup.{IsQuiet}

module _ {S P E : Type 0} {pager : Pager S P E} (laws : PagerLaws pager) where
  -- Pages below `limit`, other than pid, that were held stay held.
  abbrev pub Keeps : S → S → ℕ → ℕ → Type 0
  Keeps s t limit pid =
      (x : P) (xid : ℕ) → laws.Held x xid s → xid < limit → xid ≢ pid → laws.Held x xid t

  -- The file is `base` but for page pid, which is held and undeclared.
  pub record IsSolo (s₀ : S) (limit : ℕ) (s : S) (base : List (List ℕ)) (p : P) (pid : ℕ)
      (n : List ℕ) : Type 0 where
    pub valid : laws.Valid s
    pub held : laws.Held p pid s
    pub inside : pid < length base
    pub old : pid < limit
    pub within : limit < length base + 1
    pub pages : laws.pages s ≡ set base pid n
    pub declared : laws.declared s ≡ base
    pub keeps : Keeps s₀ s limit pid

  pub loaded :
      (s : S) (p : P) (pid : ℕ) (ps : List (List ℕ)) (b : List ℕ)
      → laws.Valid s
      → laws.Held p pid s
      → laws.pages s ≡ ps
      → get_elem? ps pid ≡ some b
      → pager.load p s ≡ b
  loaded s p pid ps b v held pages at =
      some-injective (pager.load p s) b
        (sym (laws.load_lem s p pid v held) ∙ (ap (λ z. get_elem? z pid) pages ∙ at))

  -- The steps on the bytes behind held pages.
  module _ (s : S) (p : P) (n : List ℕ) (here : pager.load p s ≡ n) where
    pub edit_run :
        (f : List ℕ → Option (List ℕ)) (b : List ℕ)
        → f n ≡ some b
        → edit pager p f s ≡ (pager.store p b s, ok tt)
    edit_run f b e = ground (arith, ap f here ∙ e)

    pub peek_run :
        {A : Type 0} (f : List ℕ → Option A) (a : A) → f n ≡ some a → peek pager p f s ≡ (s, ok a)
    peek_run f a e = ground (arith, ap f here ∙ e)

    pub edit_both_run :
        (q : P) (m : List ℕ) (f : List ℕ → List ℕ → Option (List ℕ × List ℕ)) (a b : List ℕ)
        → pager.load q s ≡ m
        → f n m ≡ some (a, b)
        → edit_both pager p q f s ≡ (pager.store q b (pager.store p a s), ok tt)
    edit_both_run q m f a b too e = ground (arith, ap₂ f here too ∙ e)

  module _ (s₀ : S) (limit : ℕ) (s : S) (base : List (List ℕ)) (p : P) (pid : ℕ) (n : List ℕ)
      (solo : IsSolo s₀ limit s base p pid n) where
    pub solo_load : pager.load p s ≡ n
    solo_load =
        loaded s p pid (set base pid n) n solo.valid solo.held solo.pages
          (get_elem?-set_self base pid n solo.inside)

    pub store-IsSolo :
        (b : List ℕ) → length b ≡ 8192 → IsSolo s₀ limit (pager.store p b s) base p pid b
    store-IsSolo b size =
        let (v, h, pages, declared) = laws.store_lem s p pid b solo.valid solo.held size in
        record {
          valid = v;
          held = h;
          inside = solo.inside;
          old = solo.old;
          within = solo.within;
          pages = pages ∙ (ap (λ z. set z pid b) solo.pages ∙ set-set base pid n b);
          declared = declared ∙ solo.declared;
          keeps =
              λ x xid k l e. laws.store_keeps s x p xid pid b (solo.keeps x xid k l e) solo.held;
        }

    -- Let go as dirty, the change is declared.
    pub solo_release :
        (t : S) × (pager.unpin_page pid true s ≡ (t, ok tt))
        × IsQuiet laws t
        × (laws.pages t ≡ set base pid n)
        × Keeps s₀ t limit pid
    solo_release =
        let (t, run, v, pages, declared) = laws.unpin_dirty_lem s p pid solo.valid solo.held in
        (
          t,
          run,
          record {
            valid = v;
            settled =
                pages
                ∙ (solo.pages ∙ sym (declared ∙ ap₂ (λ z b. set z pid b) solo.declared solo_load));
          },
          pages ∙ solo.pages,
          λ x xid k l e.
              laws.unpin_keeps s t x xid pid true (ok tt) solo.valid (solo.keeps x xid k l e)
                (λ f. e (sym f)) run,
        )
