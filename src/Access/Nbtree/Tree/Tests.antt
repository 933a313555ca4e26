-- ===== src/Access/Nbtree/Tree/Tests.antt =====
-- An index with one entry, and an empty file, over the pool and the disk manager.
use mathlib.Core.Path.{subst}
use mini_db.Base.{
  sym, ap₂, length, length-append, drop, append-nil, take-length-append, drop-length-append,
}
use mini_db.Disk.Pages.{page_of}
use mini_db.Buffer.Content.{pinned}
use mini_db.Access.Pooled.Interface.{pool_pins}
use mini_db.Access.Nbtree.Tree.Index.{IsIndexed}
use mini_db.Access.Nbtree.Tree.Create.{length-first_meta}
use mini_db.Disk.{DiskManager, DiskError}
use mini_db.Disk.Pages.{IsDisk}
use mini_db.Buffer.Pool.{PoolError}
use mini_db.Access.Pooled.{Pooled, pool_pager, IsBacked}
use mini_db.Access.Pooled.Listing.{upto}
use mini_db.Access.Pooled.Interface.{pool_laws}
use mini_db.Access.Pooled.Fresh.{fresh, fresh-IsBacked, fresh-settled}
use mini_db.Base.{
  ℕ, ◌+◌, ◌≡◌, refl, ap, ◌∙◌, ◌⊎◌, true, List, [], ◌∷◌, ◌++◌, none, some, take, drop, ◌==◌, arith,
}
use mini_db.Base.Outcome.{ok, err}
use mini_db.Page.{new_page as zero_frame}
use mini_db.Access.Heap.{Tid}
use mini_db.Access.Nbtree.Node.{node_type, key_count, next_leaf, is_leaf, insert_leaf_at}
use mini_db.Access.Nbtree.Node.Fields.{IsFrame}
use mini_db.Access.Nbtree.Node.Leaf.{entries, insert_leaf_at_lem}
use mini_db.Access.Nbtree.Tree.{new_btree, search_tree, pager_error}
use mini_db.Access.Nbtree.Tree.Index.{IsIndex, Holds}
use mini_db.Access.Nbtree.Tree.Create.{
  first_meta, first_leaf, first_leaf-IsEmptyNode, magic-first_meta, meta_root-first_meta,
  new_btree_cases,
}
use mini_db.Access.Nbtree.Tree.Roomy.{IsRoomyIndex}
use mini_db.Access.Nbtree.Tree.Lookup.{search_tree_cases}

abbrev here : Tid
here = record { page = 1; slot = 2 }

one_entry :
    (m : List ℕ) × (insert_leaf_at 0 5 here first_leaf ≡ some m)
    × IsFrame m
    × (entries m ≡ take 0 (entries first_leaf) ++ (5, here) ∷ drop 0 (entries first_leaf))
    × (key_count m ≡ key_count first_leaf + 1)
    × (node_type m ≡ node_type first_leaf)
    × (next_leaf m ≡ next_leaf first_leaf)
one_entry =
    insert_leaf_at_lem first_leaf 0 5 here first_leaf-IsEmptyNode.frame
      (omega (arith, first_leaf-IsEmptyNode.no_keys)) (omega arith) (omega arith)
      (record { page_fits = omega arith; slot_fits = omega arith })

abbrev leaf : List ℕ
leaf = one_entry.0

leaf-is_leaf : is_leaf leaf ≡ true
unfolding is_leaf
leaf-is_leaf = ap (λ z. z == 1) (one_entry.5 ∙ first_leaf-IsEmptyNode.is_kind)

leaf-key_count : key_count leaf ≡ 1
leaf-key_count = one_entry.4 ∙ ap (λ z. z + 1) first_leaf-IsEmptyNode.no_keys

two_pages-IsIndexed : IsIndexed (first_meta ∷ leaf ∷ []) 0 1
two_pages-IsIndexed = record {
  meta = first_meta;
  meta_page = refl;
  marked = magic-first_meta;
  rooted = meta_root-first_meta;
  tree = (
    leaf,
    refl,
    one_entry.2,
    leaf-is_leaf,
    omega (arith, leaf-key_count),
    λ i j l h. absurd (omega (arith, leaf-key_count)),
  );
  shallow = omega arith;
}

-- The meta page and the leaf on the disk, behind the pool of two frames that NewBufferPool makes.
abbrev index_disk : DiskManager
index_disk = record { file = first_meta ++ leaf; num_pages = 2; answers = [] }

leaf-size : length leaf ≡ 8192
leaf-size = one_entry.2.size

index_disk-IsDisk : IsDisk index_disk
index_disk-IsDisk = record {
  backed = omega (arith, length-append first_meta leaf, length-first_meta, leaf-size);
  countable = omega arith;
}

meta_stored : page_of index_disk 0 ≡ first_meta
unfolding page_of
meta_stored =
    ap (λ n. take n (first_meta ++ leaf)) (sym length-first_meta)
    ∙ take-length-append first_meta leaf

leaf_stored : page_of index_disk 1 ≡ leaf
unfolding page_of
leaf_stored =
    ap (λ n. take 8192 (drop n (first_meta ++ leaf))) (sym length-first_meta)
    ∙ (ap (take 8192) (drop-length-append first_meta leaf)
        ∙ (ap (λ n. take n leaf) (sym leaf-size)
            ∙ (ap (take (length leaf)) (sym (append-nil leaf)) ∙ take-length-append leaf [])))

abbrev index : Pooled
index = fresh 1 index_disk

pages-index : (pool_laws 0).pages index ≡ first_meta ∷ leaf ∷ []
unfolding upto
pages-index =
    (fresh-settled 1 index_disk index_disk-IsDisk).1
    ∙ ap₂ (λ a b. a ∷ b ∷ []) meta_stored leaf_stored

index-IsIndex : IsIndex (pool_laws 0) index 0 1
index-IsIndex = record {
  valid = fresh-IsBacked 1 index_disk index_disk-IsDisk;
  settled = (fresh-settled 1 index_disk index_disk-IsDisk).2;
  indexed = subst (λ ps. IsIndexed ps 0 1) (sym pages-index) two_pages-IsIndexed;
}

search_tree_cases_example :
    (u : Pooled) × IsIndex (pool_laws 0) u 0 1
    × ((pool_laws 0).pages u ≡ (pool_laws 0).pages index)
    × ((q : ℕ) → pinned 0 u.bp q ≡ pinned 0 index.bp q)
    × (((t : Tid) × (search_tree (pool_pager 0) 5 index ≡ (u, ok (some t)))
          × Holds ((pool_laws 0).pages index) 0 1 5 t)
        ⊎ (((search_tree (pool_pager 0) 5 index ≡ (u, ok none))
              × ((t : Tid) → ¬ Holds ((pool_laws 0).pages index) 0 1 5 t))
            ⊎ ((e : PoolError DiskError) × (search_tree (pool_pager 0) 5 index
                  ≡ (u, err (pager_error e))))))
search_tree_cases_example =
    search_tree_cases (pool_laws 0) (pool_pins 0) 0 1 5 index index-IsIndex (omega arith)

-- A file of no pages, in the pool of two frames that NewBufferPool makes.
abbrev empty_disk : DiskManager
empty_disk = record { file = []; num_pages = 0; answers = [] }

empty_disk-IsDisk : IsDisk empty_disk
empty_disk-IsDisk = record { backed = omega arith; countable = omega arith }

abbrev empty_file : Pooled
empty_file = fresh 1 empty_disk

no_pages : (pool_laws 0).pages empty_file ≡ []
unfolding upto
no_pages = (fresh-settled 1 empty_disk empty_disk-IsDisk).1

none_said : empty_file.said ≡ []
unfolding upto
none_said = refl

new_btree_cases_example :
    ((u : Pooled) × (new_btree (pool_pager 0) empty_file ≡ (u, ok tt))
      × IsRoomyIndex (pool_laws 0) u 0 1
      × ((k : ℕ) (t : Tid) → ¬ Holds ((pool_laws 0).pages u) 0 1 k t))
    ⊎ ((e : PoolError DiskError) × (u : Pooled) × (new_btree (pool_pager 0) empty_file
          ≡ (u, err (pager_error e)))
        × IsBacked 0 u
        × (((pool_laws 0).pages u ≡ []) ⊎ ((pool_laws 0).pages u ≡ zero_frame ∷ [])))
new_btree_cases_example =
    new_btree_cases (pool_laws 0) empty_file (fresh-IsBacked 1 empty_disk empty_disk-IsDisk)
      no_pages none_said
