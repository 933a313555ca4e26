-- ===== src/Access/Pager.antt =====
-- The pager interface that internal/access/heap/heap.go and internal/access/nbtree/nbtree.go declare
-- over the buffer pool. A *page.Page is a pointer of type P; its bytes are read and written in the
-- state.
use native.Mathlib.Decide.{ℕ_discrete}
use mathlib.Core.Path.{subst}
use mini_db.Base.{
  sym, ◌∙◌, arith, ℕ, ◌+◌, ◌^◌, ◌<◌, ◌≡◌, ◌≢◌, ◌⊎◌, Bool, true, false, List, [], ◌∷◌, ◌++◌, length,
  get_elem?, set, some,
}
use mini_db.Base.Exec.{Exec}
use mini_db.Base.Outcome.{Outcome, ok, err, panic}
use mini_db.Page.{new_page as zero_frame}

pub record Pager (S P E : Type 0) : Type 0 where
  pub fetch_page : ℕ → Exec S E P
  pub new_page : Exec S E (P × ℕ)
  pub unpin_page : ℕ → Bool → Exec S E (Unit {0})
  pub num_pages : S → ℕ
  pub load : P → S → List ℕ
  pub store : P → List ℕ → S → S

-- `_ = m`: an error is dropped.
abbrev pub dropped : {S D E : Type 0} → S × Outcome D (Unit {0}) → S × Outcome E (Unit {0})
dropped (s, ok a) = (s, ok tt)
dropped (s, err e) = (s, ok tt)
dropped (s, panic) = (s, panic)

abbrev pub discard : {S D E : Type 0} → Exec S D (Unit {0}) → Exec S E (Unit {0})
discard m s = dropped (m s)

-- What the access methods rely on. `pages` are the pages of the file as their holders see them,
-- `declared` what stays of them if all holders let go without calling them dirty, and `Held p pid s`
-- says that p points at page pid and keeps it in memory.
pub record PagerLaws {S P E : Type 0} (pager : Pager S P E) : Type 1 where
  pub Valid : S → Type 0
  pub Held : P → ℕ → S → Type 0
  pub pages : S → List (List ℕ)
  pub declared : S → List (List ℕ)
  pub num_pages_lem : (s : S) → Valid s → pager.num_pages s ≡ length (pages s)
  pub few_pages : (s : S) → Valid s → length (pages s) < 2 ^ 32
  pub load_lem :
      (s : S) (p : P) (pid : ℕ)
      → Valid s
      → Held p pid s
      → get_elem? (pages s) pid ≡ some (pager.load p s)
  pub store_lem :
      (s : S) (p : P) (pid : ℕ) (b : List ℕ)
      → Valid s
      → Held p pid s
      → length b ≡ 8192
      → Valid (pager.store p b s)
        × Held p pid (pager.store p b s)
        × (pages (pager.store p b s) ≡ set (pages s) pid b)
        × (declared (pager.store p b s) ≡ declared s)
  pub fetch_page_lem :
      (pid : ℕ) (s : S)
      → Valid s
      → ((p : P) × (t : S) × (pager.fetch_page pid s ≡ (t, ok p))
          × Valid t
          × Held p pid t
          × (pages t ≡ pages s)
          × (declared t ≡ declared s))
        ⊎ ((e : E) × (t : S) × (pager.fetch_page pid s ≡ (t, err e))
            × Valid t
            × (pages t ≡ pages s)
            × (declared t ≡ declared s))
  pub new_page_lem :
      (s : S)
      → Valid s
      → ((p : P) × (t : S) × (pager.new_page s ≡ (t, ok (p, length (pages s))))
          × Valid t
          × Held p (length (pages s)) t
          × (pages t ≡ pages s ++ zero_frame ∷ [])
          × (declared t ≡ declared s ++ zero_frame ∷ []))
        ⊎ ((e : E) × (t : S) × (pager.new_page s ≡ (t, err e))
            × Valid t
            × (pages t ≡ pages s)
            × (declared t ≡ declared s))
  -- To let go of a page and call it dirty keeps what it holds.
  pub unpin_dirty_lem :
      (s : S) (p : P) (pid : ℕ)
      → Valid s
      → Held p pid s
      → (t : S) × (pager.unpin_page pid true s ≡ (t, ok tt))
        × Valid t
        × (pages t ≡ pages s)
        × (declared t ≡ set (declared s) pid (pager.load p s))
  -- Without a change that was not declared, it may be let go as clean.
  pub unpin_clean_lem :
      (s : S) (p : P) (pid : ℕ)
      → Valid s
      → Held p pid s
      → pages s ≡ declared s
      → (t : S) × (pager.unpin_page pid false s ≡ (t, ok tt))
        × Valid t
        × (pages t ≡ pages s)
        × (declared t ≡ declared s)
  -- A page that is held stays held while pages are fetched or added, and while other pages are written or let go.
  pub fetch_page_keeps :
      (s t : S) (p : P) (pid qid : ℕ) (r : Outcome E P)
      → Valid s
      → Held p pid s
      → pager.fetch_page qid s ≡ (t, r)
      → Held p pid t
  pub new_page_keeps :
      (s t : S) (p : P) (pid : ℕ) (r : Outcome E (P × ℕ))
      → Valid s
      → Held p pid s
      → pager.new_page s ≡ (t, r)
      → Held p pid t
  pub store_keeps :
      (s : S) (p q : P) (pid qid : ℕ) (b : List ℕ)
      → Held p pid s
      → Held q qid s
      → Held p pid (pager.store q b s)
  pub unpin_keeps :
      (s t : S) (p : P) (pid qid : ℕ) (dirty : Bool) (r : Outcome E (Unit {0}))
      → Valid s
      → Held p pid s
      → qid ≢ pid
      → pager.unpin_page qid dirty s ≡ (t, r)
      → Held p pid t

-- The pins of the pages: each page that is fetched or added has one pin more, and each that is let
-- go one less.
pub record PinLaws {S P E : Type 0} {pager : Pager S P E} (laws : PagerLaws pager) : Type 0 where
  pub pins : S → ℕ → ℕ
  pub fetch_page_pins :
      (s t : S) (p : P) (pid : ℕ)
      → laws.Valid s
      → pager.fetch_page pid s ≡ (t, ok p)
      → (pins t pid ≡ pins s pid + 1) × ((q : ℕ) → q ≢ pid → pins t q ≡ pins s q)
  pub fetch_page_fails :
      (s t : S) (e : E) (pid : ℕ)
      → laws.Valid s
      → pager.fetch_page pid s ≡ (t, err e)
      → (q : ℕ) → pins t q ≡ pins s q
  pub new_page_pins :
      (s t : S) (p : P) (pid : ℕ)
      → laws.Valid s
      → pager.new_page s ≡ (t, ok (p, pid))
      → (pins t pid ≡ pins s pid + 1) × ((q : ℕ) → q ≢ pid → pins t q ≡ pins s q)
  pub new_page_fails :
      (s t : S) (e : E)
      → laws.Valid s
      → pager.new_page s ≡ (t, err e)
      → (q : ℕ) → pins t q ≡ pins s q
  pub unpin_pins :
      (s t : S) (p : P) (pid : ℕ) (dirty : Bool)
      → laws.Valid s
      → laws.Held p pid s
      → pager.unpin_page pid dirty s ≡ (t, ok tt)
      → (pins s pid ≡ pins t pid + 1) × ((q : ℕ) → q ≢ pid → pins t q ≡ pins s q)
  pub store_pins : (s : S) (p : P) (b : List ℕ) (q : ℕ) → pins (pager.store p b s) q ≡ pins s q

-- A page that was fetched and let go again has its pins back, and so have all others.
pub pins_back :
    {S P E : Type 0} {pager : Pager S P E} (laws : PagerLaws pager) (counts : PinLaws laws)
    (s t u : S) (p : P) (pid : ℕ) (dirty : Bool)
    → laws.Valid s
    → pager.fetch_page pid s ≡ (t, ok p)
    → laws.Valid t
    → laws.Held p pid t
    → pager.unpin_page pid dirty t ≡ (u, ok tt)
    → (q : ℕ) → counts.pins u q ≡ counts.pins s q
pins_back laws counts s t u p pid dirty valid got valid₂ held gone q =
    let (here, others) = counts.fetch_page_pins s t p pid valid got in
    let (back, others₂) = counts.unpin_pins t u p pid dirty valid₂ held gone in
    elim (ℕ_discrete q pid) [
      | yes same ↦
          subst (λ z. counts.pins u z ≡ counts.pins s z) (sym same) (omega (arith, here, back))
      | no other ↦ others₂ q other ∙ others q other
    ]
