-- ===== src/Access/Nbtree/Tree/Create.antt =====
-- NewBTree on an empty file lays out an empty index.
use mathlib.Core.Path.{subst}
use mathlib.Core.Option.{some-injective}
use mini_db.Base.{
  ℕ, ◌≡◌, refl, sym, ap, ap₂, ◌∙◌, ◌⊎◌, inl, inr, true, List, [], ◌∷◌, ◌++◌, length, some,
  get_elem?, set, ◌==◌, arith,
}
use mini_db.Base.Endian.{put_uint, length-put_uint, get_uint-put_uint_self, get_uint-put_uint_apart}
use mini_db.Base.Outcome.{Outcome, ok, err}
use mini_db.Page.{new_page as zero_frame}
use mini_db.Access.Heap.{Tid}
use mini_db.Access.Heap.Grow.{length-zero_frame}
use mini_db.Access.Pager.{Pager, PagerLaws}
use mini_db.Access.Nbtree.Node.{is_leaf, key_count, init_leaf, init_type}
use mini_db.Access.Nbtree.Node.Init.{IsEmptyNode, init_type_lem}
use mini_db.Access.Nbtree.Tree.{
  TreeError, pager_error, magic, set_magic, meta_magic, meta_root, set_meta_root, bootstrap,
  new_btree,
}
use mini_db.Access.Nbtree.Tree.Index.{Holds}
use mini_db.Access.Nbtree.Tree.Roomy.{IsRoomy, IsRoomyIndex}

-- The meta page and the root leaf that bootstrap writes.
abbrev pub first_meta : List ℕ
first_meta = set_meta_root 1 (set_magic meta_magic zero_frame)

abbrev pub first_leaf : List ℕ
first_leaf = init_type 1 zero_frame

pub first_leaf-IsEmptyNode : IsEmptyNode 1 first_leaf
first_leaf-IsEmptyNode = init_type_lem 1 zero_frame length-zero_frame (omega arith)

pub magic-first_meta : magic first_meta ≡ meta_magic
unfolding magic set_magic set_meta_root
magic-first_meta =
    get_uint-put_uint_apart 0 4 4 4 1 (put_uint 0 4 meta_magic zero_frame) (inl (omega arith))
    ∙ get_uint-put_uint_self 0 4 meta_magic zero_frame (omega (arith, length-zero_frame))
        (omega arith)

pub meta_root-first_meta : meta_root first_meta ≡ 1
unfolding meta_root set_magic set_meta_root
meta_root-first_meta =
    get_uint-put_uint_self 4 4 1 (put_uint 0 4 meta_magic zero_frame)
      (omega (arith, length-put_uint 0 4 meta_magic zero_frame, length-zero_frame)) (omega arith)

pub length-first_meta : length first_meta ≡ 8192
unfolding set_magic set_meta_root
length-first_meta =
    length-put_uint 4 4 1 (put_uint 0 4 meta_magic zero_frame)
    ∙ (length-put_uint 0 4 meta_magic zero_frame ∙ length-zero_frame)

pub is_leaf-first_leaf : is_leaf first_leaf ≡ true
unfolding is_leaf
is_leaf-first_leaf = ap (λ z. z == 1) first_leaf-IsEmptyNode.is_kind

pub first_pages-IsRoomy : IsRoomy (first_meta ∷ first_leaf ∷ []) 0 1
first_pages-IsRoomy = record {
  meta = first_meta;
  meta_page = refl;
  meta_size = length-first_meta;
  marked = magic-first_meta;
  rooted = meta_root-first_meta;
  tree = (
    first_leaf,
    refl,
    record {
      nonzero = omega arith;
      frame = first_leaf-IsEmptyNode.frame;
      leaf = is_leaf-first_leaf;
      filled = omega arith;
      room = omega (arith, first_leaf-IsEmptyNode.no_keys);
      run = record {
        sorted = λ i j l u. absurd (omega (arith, first_leaf-IsEmptyNode.no_keys));
        from = λ j l. absurd (omega (arith, first_leaf-IsEmptyNode.no_keys));
        to = λ j l. absurd (omega (arith, first_leaf-IsEmptyNode.no_keys));
      };
    },
  );
  shallow = omega arith;
}

first_pages-nothing : (k : ℕ) (t : Tid) → ¬ Holds (first_meta ∷ first_leaf ∷ []) 0 1 k t
first_pages-nothing k t (n, j, here, inside, is_key, is_tid) = omega (
  arith,
  inside,
  ap key_count (some-injective n first_leaf (sym here)),
  first_leaf-IsEmptyNode.no_keys,
)

module _ {S P E : Type 0} {pager : Pager S P E} (laws : PagerLaws pager) where
  content :
      (s : S) (p : P) (pid : ℕ) (ps : List (List ℕ)) (b : List ℕ)
      → laws.Valid s
      → laws.Held p pid s
      → laws.pages s ≡ ps
      → get_elem? ps pid ≡ some b
      → pager.load p s ≡ b
  content s p pid ps b v held pages at =
      some-injective (pager.load p s) b
        (sym (laws.load_lem s p pid v held) ∙ (ap (λ z. get_elem? z pid) pages ∙ at))

  -- The two pages, added and held.
  module _ (s : S) (p q : P) (v : laws.Valid s) (held : laws.Held p 0 s)
      (held_too : laws.Held q 1 s) (pages : laws.pages s ≡ zero_frame ∷ zero_frame ∷ [])
      (declared : laws.declared s ≡ zero_frame ∷ zero_frame ∷ []) where
    abbrev with_leaf : S
    with_leaf = pager.store q first_leaf s

    abbrev with_meta : S
    with_meta = pager.store p first_meta with_leaf

    written :
        (t u : S) × (pager.unpin_page 1 true with_meta ≡ (t, ok tt))
        × (pager.unpin_page 0 true t ≡ (u, ok tt))
        × (pager.load q s ≡ zero_frame)
        × (pager.load p with_leaf ≡ zero_frame)
        × laws.Valid u
        × (laws.pages u ≡ first_meta ∷ first_leaf ∷ [])
        × (laws.declared u ≡ first_meta ∷ first_leaf ∷ [])
    written =
        let (v₁, q₁, pages₁, declared₁) =
          laws.store_lem s q 1 first_leaf v held_too first_leaf-IsEmptyNode.frame.size in
        let p₁ = laws.store_keeps s p q 0 1 first_leaf held held_too in
        let (v₂, p₂, pages₂, declared₂) =
          laws.store_lem with_leaf p 0 first_meta v₁ p₁ length-first_meta in
        let q₂ = laws.store_keeps with_leaf q p 1 0 first_meta q₁ p₁ in
        let now₁ = pages₁ ∙ ap (λ z. set z 1 first_leaf) pages in
        let now₂ = pages₂ ∙ ap (λ z. set z 0 first_meta) now₁ in
        let (t, run₃, v₃, pages₃, declared₃) = laws.unpin_dirty_lem with_meta q 1 v₂ q₂ in
        let p₃ = laws.unpin_keeps with_meta t p 0 1 true (ok tt) v₂ p₂ (λ e. omega arith) run₃ in
        let (u, run₄, v₄, pages₄, declared₄) = laws.unpin_dirty_lem t p 0 v₃ p₃ in
        let loaded =
          content with_meta q 1 (first_meta ∷ first_leaf ∷ []) first_leaf v₂ q₂ now₂ refl in
        let loaded_too =
          content t p 0 (first_meta ∷ first_leaf ∷ []) first_meta v₃ p₃ (pages₃ ∙ now₂) refl in
        (
          t,
          u,
          run₃,
          run₄,
          content s q 1 (zero_frame ∷ zero_frame ∷ []) zero_frame v held_too pages refl,
          content with_leaf p 0 (zero_frame ∷ first_leaf ∷ []) zero_frame v₁ p₁ now₁ refl,
          v₄,
          pages₄ ∙ (pages₃ ∙ now₂),
          declared₄
              ∙ ap₂ (λ z b. set z 0 b)
                  (declared₃ ∙ ap₂ (λ z b. set z 1 b) (declared₂ ∙ (declared₁ ∙ declared)) loaded)
                  loaded_too,
        )

  -- What NewBTree leaves of an empty file: an index without entries, or an error of the pool, behind which the
  -- file may have one page, of zeroes, which is no index.
  abbrev Created : (S × Outcome (TreeError E) (Unit {0})) → Type 0
  Created result =
      ((u : S) × (result ≡ (u, ok tt))
        × IsRoomyIndex laws u 0 1
        × ((k : ℕ) (t : Tid) → ¬ Holds (laws.pages u) 0 1 k t))
      ⊎ ((e : E) × (u : S) × (result ≡ (u, err (pager_error e)))
          × laws.Valid u
          × ((laws.pages u ≡ []) ⊎ (laws.pages u ≡ zero_frame ∷ [])))

  new_btree-empty : (s : S) → pager.num_pages s ≡ 0 → new_btree pager s ≡ bootstrap pager s
  unfolding new_btree
  new_btree-empty s h = ground (arith, h)

  bootstrap_written :
      (s s₁ s₂ : S) (p q : P)
      → pager.new_page s ≡ (s₁, ok (p, 0))
      → pager.new_page s₁ ≡ (s₂, ok (q, 1))
      → laws.Valid s₂
      → laws.Held p 0 s₂
      → laws.Held q 1 s₂
      → laws.pages s₂ ≡ zero_frame ∷ zero_frame ∷ []
      → laws.declared s₂ ≡ zero_frame ∷ zero_frame ∷ []
      → Created (bootstrap pager s)
  unfolding bootstrap init_leaf
  bootstrap_written s s₁ s₂ p q made made_too v held held_too pages declared =
      let (t, u, run, run_too, blank, blank_too, w, now, settled) =
        written s₂ p q v held held_too pages declared in
      inl (
        u,
        rw (made, made_too, blank, blank_too, run, run_too) refl,
        record {
          quiet = record { valid = w; settled = now ∙ sym settled };
          roomy = subst (λ ps. IsRoomy ps 0 1) (sym now) first_pages-IsRoomy;
        },
        λ k e x. first_pages-nothing k e (subst (λ ps. Holds ps 0 1 k e) now x),
      )

  bootstrap_cases :
      (s : S)
      → laws.Valid s
      → laws.pages s ≡ []
      → laws.declared s ≡ []
      → Created (bootstrap pager s)
  unfolding bootstrap
  bootstrap_cases s v pages declared = elim (laws.new_page_lem s v) [
    | inr (e, s₁, failed, w, same, d) ↦ inr (e, s₁, ground (arith, failed), w, inl (same ∙ pages))
    | inl (p, s₁, made, w, held, added, d) ↦
        let none_yet : length (laws.pages s) ≡ 0 = ap length pages in
        let made_first = made ∙ ap (λ z. (s₁, ok (p, z))) none_yet in
        let held_first = subst (λ z. laws.Held p z s₁) none_yet held in
        let one = added ∙ ap (λ z. z ++ zero_frame ∷ []) pages in
        let one_declared = d ∙ ap (λ z. z ++ zero_frame ∷ []) declared in
        elim (laws.new_page_lem s₁ w) [
          | inr (e, s₂, failed, w₂, same, d₂) ↦
              let (u, run, w₃, pages₃, d₃) =
                laws.unpin_clean_lem s₂ p 0 w₂
                  (laws.new_page_keeps s₁ s₂ p 0 (err e) w held_first failed)
                  (same ∙ (one ∙ sym (d₂ ∙ one_declared))) in
              inr (e, u, rw (made_first, failed, run) refl, w₃, inr (pages₃ ∙ (same ∙ one)))
          | inl (q, s₂, made₂, w₂, held₂, added₂, d₂) ↦
              let one_page : length (laws.pages s₁) ≡ 1 = ap length one in
              bootstrap_written s s₁ s₂ p q made_first (made₂ ∙ ap (λ z. (s₂, ok (q, z))) one_page)
                w₂
                (laws.new_page_keeps s₁ s₂ p 0 (ok (q, length (laws.pages s₁))) w held_first made₂)
                (subst (λ z. laws.Held q z s₂) one_page held₂)
                (added₂ ∙ ap (λ z. z ++ zero_frame ∷ []) one)
                (d₂ ∙ ap (λ z. z ++ zero_frame ∷ []) one_declared)
        ]
  ]

  -- On an empty file, over a pool that keeps its promises, NewBTree returns. It leaves an index of height 0 that
  -- holds no entry and whose nodes have room, or returns an error of the pool, and then the file has no page or
  -- one page of zeroes.
  pub new_btree_cases :
      (s : S)
      → laws.Valid s
      → laws.pages s ≡ []
      → laws.declared s ≡ []
      → ((u : S) × (new_btree pager s ≡ (u, ok tt))
          × IsRoomyIndex laws u 0 1
          × ((k : ℕ) (t : Tid) → ¬ Holds (laws.pages u) 0 1 k t))
        ⊎ ((e : E) × (u : S) × (new_btree pager s ≡ (u, err (pager_error e)))
            × laws.Valid u
            × ((laws.pages u ≡ []) ⊎ (laws.pages u ≡ zero_frame ∷ [])))
  new_btree_cases s v pages declared =
      subst Created (sym (new_btree-empty s (laws.num_pages_lem s v ∙ ap length pages)))
        (bootstrap_cases s v pages declared)
