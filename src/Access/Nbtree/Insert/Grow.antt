-- ===== src/Access/Nbtree/Insert/Grow.antt =====
-- A new root over the two halves of the old one.
use mini_db.Base.{
  some-length, ℕ, ◌^◌, ◌<◌, ◌≡◌, refl, sym, ap, ap₂, ◌∙◌, ◌⊎◌, inl, inr, true, List, [], ◌∷◌, ◌++◌,
  length, set, some, get_elem?, arith,
}
use mini_db.Base.Outcome.{Outcome, ok, err}
use mini_db.Page.{new_page as zero_frame}
use mini_db.Page.Slotted.Reads.{get_elem?-append_left, get_elem?-snoc}
use mini_db.Access.Heap.Ends.{set-last}
use mini_db.Access.Pager.{Pager, PagerLaws}
use mini_db.Access.Nbtree.Node.{init_internal, set_key_at, set_child_at, set_key_count}
use mini_db.Access.Nbtree.Tree.{
  Split, TreeError, pager_error, set_meta_root, set_root, grow_root, edit,
}
use mini_db.Access.Nbtree.Tree.Lookup.{IsQuiet}
use mini_db.Access.Nbtree.Insert.Solo.{edit_run, loaded, solo_load, store-IsSolo, solo_release}
use mini_db.Access.Nbtree.Insert.Steps.{arrives}
use mini_db.Access.Nbtree.Insert.RootNode.{IsRootNode, root_node, length-set_meta_root}

module _ {S P E : Type 0} {pager : Pager S P E} (laws : PagerLaws pager) where
  -- The new page at the end of the file, held.
  record IsNew (s : S) (base : List (List ℕ)) (q : P) (m : List ℕ) : Type 0 where
    valid : laws.Valid s
    held : laws.Held q (length base) s
    pages : laws.pages s ≡ base ++ m ∷ []
    declared : laws.declared s ≡ base ++ zero_frame ∷ []

  module _ (s : S) (base : List (List ℕ)) (q : P) (m : List ℕ) (x : IsNew s base q m) where
    new_load : pager.load q s ≡ m
    new_load =
        loaded laws s q (length base) (base ++ m ∷ []) m x.valid x.held x.pages
          (get_elem?-snoc base m)

    store-IsNew : (b : List ℕ) → length b ≡ 8192 → IsNew (pager.store q b s) base q b
    store-IsNew b size =
        let (v, h, pages, declared) = laws.store_lem s q (length base) b x.valid x.held size in
        record {
          valid = v;
          held = h;
          pages = pages ∙ (ap (λ z. set z (length base) b) x.pages ∙ set-last base m b);
          declared = declared ∙ x.declared;
        }

    new_release :
        (t : S) × (pager.unpin_page (length base) true s ≡ (t, ok tt))
        × IsQuiet laws t
        × (laws.pages t ≡ base ++ m ∷ [])
    new_release =
        let (t, run, v, pages, declared) = laws.unpin_dirty_lem s q (length base) x.valid x.held in
        (
          t,
          run,
          record {
            valid = v;
            settled =
                pages
                ∙ (x.pages
                    ∙ sym (
                        declared
                        ∙ (ap₂ (λ z b. set z (length base) b) x.declared new_load
                            ∙ set-last base zero_frame m)));
          },
          pages ∙ x.pages,
        )

  -- setRoot: the meta page names the root, or the pool failed and nothing changed.
  abbrev RootSet : S → ℕ → List ℕ → S × Outcome (TreeError E) (Unit {0}) → Type 0
  RootSet s pid meta result =
      ((u : S) × (result ≡ (u, ok tt))
        × IsQuiet laws u
        × (laws.pages u ≡ set (laws.pages s) 0 (set_meta_root pid meta)))
      ⊎ ((e : E) × (u : S) × (result ≡ (u, err (pager_error e)))
          × IsQuiet laws u
          × (laws.pages u ≡ laws.pages s))

  set_root_run :
      (s s₁ u : S) (p : P) (pid : ℕ) (meta : List ℕ)
      → pager.fetch_page 0 s ≡ (s₁, ok p)
      → pager.load p s₁ ≡ meta
      → pager.unpin_page 0 true (pager.store p (set_meta_root pid meta) s₁) ≡ (u, ok tt)
      → set_root pager pid s ≡ (u, ok tt)
  unfolding set_root
  set_root_run s s₁ u p pid meta got here gone = rw (got, here, gone) refl

  set_root_refused :
      (s u : S) (pid : ℕ) (e : E)
      → pager.fetch_page 0 s ≡ (u, err e)
      → set_root pager pid s ≡ (u, err (pager_error e))
  unfolding set_root
  set_root_refused s u pid e failed = ground (arith, failed)

  pub set_root_cases :
      (s : S) (pid : ℕ) (meta : List ℕ)
      → IsQuiet laws s
      → get_elem? (laws.pages s) 0 ≡ some meta
      → length meta ≡ 8192
      → RootSet s pid meta (set_root pager pid s)
  set_root_cases s pid meta quiet at size = elim (arrives laws s 0 meta quiet at) [
    | inr (e, u, failed, quiet_u, same, keeps) ↦
        inr (e, u, set_root_refused s u pid e failed, quiet_u, same)
    | inl (p, s₁, got, solo) ↦
        let ps = laws.pages s in
        let here = solo_load laws s (length ps) s₁ ps p 0 meta solo in
        let after =
          store-IsSolo laws s (length ps) s₁ ps p 0 meta solo (set_meta_root pid meta)
            (length-set_meta_root pid meta ∙ size) in
        let (u, gone, quiet_u, pages, keeps) =
          solo_release laws s (length ps) (pager.store p (set_meta_root pid meta) s₁) ps p 0
            (set_meta_root pid meta) after in
        inl (u, set_root_run s s₁ u p pid meta got here gone, quiet_u, pages)
  ]

  -- The pages behind the growth: the new root at the end, and the meta page that names it.
  abbrev pub Grown : S → ℕ → Split → List ℕ → S × Outcome (TreeError E) (Unit {0}) → Type 0
  Grown s left sp meta result =
      ((u : S) × (n : List ℕ) × (result ≡ (u, ok tt))
        × IsQuiet laws u
        × IsRootNode n sp.sep_key left sp.right
        × (laws.pages u
            ≡ set (laws.pages s ++ n ∷ []) 0 (set_meta_root (length (laws.pages s)) meta)))
      ⊎ ((e : E) × (u : S) × (result ≡ (u, err (pager_error e)))
          × IsQuiet laws u
          × ((q : ℕ) (m : List ℕ)
              → get_elem? (laws.pages s) q ≡ some m
              → get_elem? (laws.pages u) q ≡ some m))

  -- The run up to setRoot.
  grow_run :
      (s s₁ t : S) (q : P) (base : List (List ℕ)) (left : ℕ) (sp : Split) (m₃ : List ℕ)
      (s₂ s₃ s₄ s₅ : S)
      → pager.new_page s ≡ (s₁, ok (q, length base))
      → pager.load q s₁ ≡ zero_frame
      → s₂ ≡ pager.store q (init_internal zero_frame) s₁
      → edit pager q (set_key_at 0 sp.sep_key) s₂ ≡ (s₃, ok tt)
      → edit pager q (set_child_at 0 left) s₃ ≡ (s₄, ok tt)
      → edit pager q (set_child_at 1 sp.right) s₄ ≡ (s₅, ok tt)
      → pager.load q s₅ ≡ m₃
      → pager.unpin_page (length base) true (pager.store q (set_key_count 1 m₃) s₅) ≡ (t, ok tt)
      → grow_root pager left sp s ≡ set_root pager (length base) t
  unfolding grow_root
  grow_run s s₁ t q base left sp m₃ s₂ s₃ s₄ s₅ made blank e₂ k l r here gone =
      rw (made, blank, ← e₂, k, l, r, here, gone) refl

  pub grow_refused :
      (s u : S) (left : ℕ) (sp : Split) (e : E)
      → pager.new_page s ≡ (u, err e)
      → grow_root pager left sp s ≡ (u, err (pager_error e))
  unfolding grow_root
  grow_refused s u left sp e failed = ground (arith, failed)

  pub grow_root_cases :
      (s : S) (left : ℕ) (sp : Split) (meta : List ℕ)
      → IsQuiet laws s
      → get_elem? (laws.pages s) 0 ≡ some meta
      → length meta ≡ 8192
      → sp.sep_key < 2 ^ 64
      → left < 2 ^ 32
      → sp.right < 2 ^ 32
      → Grown s left sp meta (grow_root pager left sp s)
  grow_root_cases s left sp meta quiet at size a b c = elim (laws.new_page_lem s quiet.valid) [
    | inr (e, u, failed, v, pages, declared) ↦ inr (
      e,
      u,
      grow_refused s u left sp e failed,
      record { valid = v; settled = pages ∙ (quiet.settled ∙ sym declared) },
      λ q m here. ap (λ z. get_elem? z q) pages ∙ here,
    )
    | inl (q, s₁, made, v, held, pages, declared) ↦
        let ps = laws.pages s in
        let (m₁, m₂, m₃, w) = root_node sp.sep_key left sp.right a b c in
        let x₁ : IsNew s₁ ps q zero_frame = record {
          valid = v;
          held = held;
          pages = pages;
          declared = declared ∙ ap (λ z. z ++ zero_frame ∷ []) (sym quiet.settled);
        } in
        let s₂ = pager.store q (init_internal zero_frame) s₁ in
        let s₃ = pager.store q m₁ s₂ in
        let s₄ = pager.store q m₂ s₃ in
        let s₅ = pager.store q m₃ s₄ in
        let n = set_key_count 1 m₃ in
        let x₂ = store-IsNew s₁ ps q zero_frame x₁ (init_internal zero_frame) w.size₀ in
        let x₃ = store-IsNew s₂ ps q (init_internal zero_frame) x₂ m₁ w.size₁ in
        let x₄ = store-IsNew s₃ ps q m₁ x₃ m₂ w.size₂ in
        let x₅ = store-IsNew s₄ ps q m₂ x₄ m₃ w.size₃ in
        let x₆ = store-IsNew s₅ ps q m₃ x₅ n w.made.frame.size in
        let (t, gone, quiet_t, pages_t) = new_release (pager.store q n s₅) ps q n x₆ in
        let run =
          grow_run s s₁ t q ps left sp m₃ s₂ s₃ s₄ s₅ made (new_load s₁ ps q zero_frame x₁) refl
            (edit_run laws s₂ q (init_internal zero_frame)
              (new_load s₂ ps q (init_internal zero_frame) x₂) (set_key_at 0 sp.sep_key) m₁
              w.key_set)
            (edit_run laws s₃ q m₁ (new_load s₃ ps q m₁ x₃) (set_child_at 0 left) m₂ w.left_set)
            (edit_run laws s₄ q m₂ (new_load s₄ ps q m₂ x₄) (set_child_at 1 sp.right) m₃
              w.right_set)
            (new_load s₅ ps q m₃ x₅) gone in
        let at_t =
          ap (λ z. get_elem? z 0) pages_t
          ∙ (get_elem?-append_left ps (n ∷ []) 0 (some-length ps 0 meta at) ∙ at) in
        elim (set_root_cases t (length ps) meta quiet_t at_t size) [
          | inl (u, done, quiet_u, pages_u) ↦ inl (
            u,
            n,
            run ∙ done,
            quiet_u,
            w.made,
            pages_u ∙ ap (λ z. set z 0 (set_meta_root (length ps) meta)) pages_t,
          )
          | inr (e, u, failed, quiet_u, same) ↦ inr (
            e,
            u,
            run ∙ failed,
            quiet_u,
            λ y m here.
                ap (λ z. get_elem? z y) (same ∙ pages_t)
                ∙ (get_elem?-append_left ps (n ∷ []) y (some-length ps y m here) ∙ here),
          )
        ]
  ]
