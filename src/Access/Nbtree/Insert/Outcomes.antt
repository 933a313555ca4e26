-- ===== src/Access/Nbtree/Insert/Outcomes.antt =====
-- What insertInto may come to on a subtree.
use mini_db.Base.{
  ℕ, ◌^◌, ◌≤◌, ◌<◌, ◌≡◌, ◌∙◌, ◌≢◌, ◌⊎◌, inl, inr, List, length, Option, none, some, get_elem?,
}
use mini_db.Base.Outcome.{Outcome, ok, err}
use mini_db.Access.Heap.{Tid}
use mini_db.Access.Pager.{Pager, PagerLaws}
use mini_db.Access.Nbtree.Node.{ordinal}
use mini_db.Access.Nbtree.Tree.{Split, TreeError, pager_error, duplicate_key}
use mini_db.Access.Nbtree.Tree.Index.{Holds}
use mini_db.Access.Nbtree.Tree.Lookup.{IsQuiet}
use mini_db.Access.Nbtree.Tree.Span.{Within, IsSub}
use mini_db.Access.Nbtree.Tree.Fan.{Adds}

-- A page that an insertion into the span at page pid leaves alone.
abbrev pub Spared : ℕ → ℕ → ℕ → ℕ → List ℕ → Type 0
Spared lo hi pid q n = (q ≡ 0) ⊎ ((q ≢ pid) × (¬ Within lo hi n))

module _ {S P E : Type 0} {pager : Pager S P E} (laws : PagerLaws pager) where
  -- From s to u every change was declared, and pages outside the span and their holders were left alone.
  pub record Moves (lo hi pid : ℕ) (s u : S) : Type 0 where
    pub quiet : IsQuiet laws u
    pub longer : length (laws.pages s) ≤ length (laws.pages u)
    pub spares :
        (q : ℕ) (n : List ℕ)
        → get_elem? (laws.pages s) q ≡ some n
        → Spared lo hi pid q n
        → get_elem? (laws.pages u) q ≡ some n
    pub keeps :
        (x : P) (q : ℕ) (n : List ℕ)
        → laws.Held x q s
        → get_elem? (laws.pages s) q ≡ some n
        → Spared lo hi pid q n
        → laws.Held x q u

  -- The subtree took the entry, or gave way to two that hold it between them.
  pub record Takes (s u : S) (h pid lo hi k : ℕ) (t : Tid) : Type 0 where
    pub sub : IsSub (laws.pages u) h pid 1 lo hi
    pub adds : Adds (Holds (laws.pages s) h pid) (Holds (laws.pages u) h pid) k t

  pub record Splits (s u : S) (h pid lo hi k : ℕ) (t : Tid) (sp : Split) : Type 0 where
    pub fits : sp.sep_key < 2 ^ 64
    pub low_sep : lo < ordinal sp.sep_key
    pub sep_high : ordinal sp.sep_key < hi
    pub left : IsSub (laws.pages u) h pid 1 lo (ordinal sp.sep_key)
    pub right : IsSub (laws.pages u) h sp.right 1 (ordinal sp.sep_key) hi
    pub adds :
        Adds
          (Holds (laws.pages s) h pid)
          (λ l v. Holds (laws.pages u) h pid l v ⊎ Holds (laws.pages u) h sp.right l v)
          k
          t

  abbrev pub Grows : S → S → ℕ → ℕ → ℕ → ℕ → ℕ → Tid → Option Split → Type 0
  Grows s u h pid lo hi k t none = Takes s u h pid lo hi k t
  Grows s u h pid lo hi k t (some sp) = Splits s u h pid lo hi k t sp

  -- The key was absent and the entry is there, or the key was there and no page changed, or the pool failed.
  abbrev pub Inserted :
      S → ℕ → ℕ → ℕ → ℕ → ℕ → Tid → S × Outcome (TreeError E) (Option Split) → Type 0
  Inserted s h pid lo hi k t result =
      (u : S) × Moves lo hi pid s u
      × (((r : Option Split) × (result ≡ (u, ok r))
            × ((v : Tid) → ¬ Holds (laws.pages s) h pid k v)
            × Grows s u h pid lo hi k t r)
          ⊎ (((result ≡ (u, err duplicate_key))
                × (laws.pages u ≡ laws.pages s)
                × ((v : Tid) × Holds (laws.pages s) h pid k v))
              ⊎ ((e : E) × (result ≡ (u, err (pager_error e))))))

  pub Inserted-same :
      (s : S) (h pid lo hi k : ℕ) (t : Tid) (a b : S × Outcome (TreeError E) (Option Split))
      → a ≡ b
      → Inserted s h pid lo hi k t b
      → Inserted s h pid lo hi k t a
  Inserted-same s h pid lo hi k t a b e (u, moves, r) = (
    u,
    moves,
    elim r [
      | inl (o, run, absent, grows) ↦ inl (o, e ∙ run, absent, grows)
      | inr (inl (run, same, held)) ↦ inr (inl (e ∙ run, same, held))
      | inr (inr (x, run)) ↦ inr (inr (x, e ∙ run))
    ],
  )
