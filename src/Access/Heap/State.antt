-- ===== src/Access/Heap/State.antt =====
-- The states of a heap file between two calls, and what Insert may make of them.
use mini_db.Base.{
  some-length, get_elem?-set_self, ℕ, ◌+◌, ◌<◌, ◌≡◌, refl, sym, ap, ◌∙◌, ◌⊎◌, inl, List, [], ◌∷◌,
  ◌++◌, length, get_elem?, set, All, true,
}
use mathlib.Core.Path.{subst}
use mathlib.Core.Option.{some-injective}
use mini_db.Base.Outcome.{Outcome, ok, err}
use mini_db.Page.Slotted.{no_space}
use mini_db.Access.Pager.{Pager, PagerLaws}
use mini_db.Access.Heap.{Tid, HeapError, pool_error, does_not_fit}
use mini_db.Access.Heap.Pile.{IsPage, all_rows, row_at, HasNew}
use mini_db.Access.Heap.Ends.{set-last}

module _ {S P E : Type 0} {pager : Pager S P E} (laws : PagerLaws pager) where
  -- A heap file between two calls: slotted pages, whose changes were all declared.
  pub record IsHeap (s : S) : Type 0 where
    pub valid : laws.Valid s
    pub settled : laws.pages s ≡ laws.declared s
    pub paged : All IsPage (laws.pages s)

  -- An Insert that returned tid.
  pub record HasInserted (s t : S) (src : List ℕ) (tid : Tid) : Type 0 where
    pub heap : IsHeap t
    pub grown : HasNew (laws.pages s) src tid (laws.pages t)

  -- An Insert that returned an error: the pile holds what it held, and the error is one of the pool,
  -- or the tuple is larger than a page allows.
  pub record HasFailed (s t : S) (src : List ℕ) (e : HeapError E) : Type 0 where
    pub heap : IsHeap t
    pub same_rows : all_rows (laws.pages t) ≡ all_rows (laws.pages s)
    pub same_lookups : (o : Tid) → row_at (laws.pages t) o ≡ row_at (laws.pages s) o
    pub cause :
        ((x : E) × (e ≡ pool_error x)) ⊎ ((e ≡ does_not_fit no_space) × (8168 < length src + 4))

  -- A page whose bytes were written may be let go as dirty: then the change is declared.
  pub store_release :
      (t : S) (p : P) (pid : ℕ) (b : List ℕ)
      → laws.Valid t
      → laws.Held p pid t
      → length b ≡ 8192
      → (u : S) × (pager.unpin_page pid true (pager.store p b t) ≡ (u, ok tt))
        × laws.Valid u
        × (laws.pages u ≡ set (laws.pages t) pid b)
        × (laws.declared u ≡ set (laws.declared t) pid b)
  store_release t p pid b v h size =
      let (v₁, h₁, pages, declared) = laws.store_lem t p pid b v h size in
      let (u, run, v₂, pages₂, declared₂) = laws.unpin_dirty_lem (pager.store p b t) p pid v₁ h₁ in
      let inside : pid < length (laws.pages t) =
        some-length (laws.pages t) pid (pager.load p t) (laws.load_lem t p pid v h) in
      let loaded : pager.load p (pager.store p b t) ≡ b =
        some-injective (pager.load p (pager.store p b t)) b (
          sym (laws.load_lem (pager.store p b t) p pid v₁ h₁)
          ∙ (ap (λ x. get_elem? x pid) pages ∙ get_elem?-set_self (laws.pages t) pid b inside)) in
      (
        u,
        run,
        v₂,
        pages₂ ∙ pages,
        declared₂
            ∙ (ap (set (laws.declared (pager.store p b t)) pid) loaded
                ∙ ap (λ x. set x pid b) declared),
      )

  -- The pile with the bytes `b` on its last page.
  pub IsHeap-last :
      (u : S) (ys : List (List ℕ)) (x b : List ℕ) (ps ds : List (List ℕ))
      → laws.Valid u
      → laws.pages u ≡ set ps (length ys) b
      → laws.declared u ≡ set ds (length ys) b
      → ps ≡ ys ++ x ∷ []
      → ds ≡ ys ++ x ∷ []
      → All IsPage (ys ++ b ∷ [])
      → IsHeap u × (laws.pages u ≡ ys ++ b ∷ [])
  IsHeap-last u ys x b ps ds v pages declared p d h =
      let changed : laws.pages u ≡ ys ++ b ∷ [] =
        pages ∙ (ap (λ z. set z (length ys) b) p ∙ set-last ys x b) in
      (
        record {
          valid = v;
          settled = changed ∙ sym (declared ∙ (ap (λ z. set z (length ys) b) d ∙ set-last ys x b));
          paged = subst (All IsPage) (sym changed) h;
        },
        changed,
      )

  abbrev pub InsertCases : (List ℕ → S → S × Outcome (HeapError E) Tid) → S → List ℕ → Type 0
  InsertCases run s src =
      ((tid : Tid) × (t : S) × (run src s ≡ (t, ok tid)) × HasInserted s t src tid)
      ⊎ ((e : HeapError E) × (t : S) × (run src s ≡ (t, err e)) × HasFailed s t src e)

  -- A step that changes no page.
  pub IsHeap-same :
      (s t : S)
      → IsHeap s
      → laws.Valid t
      → laws.pages t ≡ laws.pages s
      → laws.declared t ≡ laws.declared s
      → IsHeap t
  IsHeap-same s t h valid pages declared = record {
    valid = valid;
    settled = pages ∙ (h.settled ∙ sym declared);
    paged = subst (All IsPage) (sym pages) h.paged;
  }

  -- A call of the pool that failed.
  pub HasFailed-pool :
      (s t : S) (src : List ℕ) (e : E)
      → IsHeap s
      → laws.Valid t
      → laws.pages t ≡ laws.pages s
      → laws.declared t ≡ laws.declared s
      → HasFailed s t src (pool_error e)
  HasFailed-pool s t src e h valid pages declared = record {
    heap = IsHeap-same s t h valid pages declared;
    same_rows = ap all_rows pages;
    same_lookups = λ o. ap (λ x. row_at x o) pages;
    cause = inl (e, refl);
  }
