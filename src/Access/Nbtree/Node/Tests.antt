-- ===== src/Access/Nbtree/Node/Tests.antt =====
-- Nodes with a few keys.
use mini_db.Base.{
  ℕ, ◌+◌, ◌*◌, ◌/◌, ◌^◌, ◌≤◌, ◌<◌, ◌≡◌, ◌≢◌, ◌∙◌, ap, ◌⊎◌, Bool, true, false, List, ◌∷◌, ◌++◌, some,
  take, drop, arith,
}
use mini_db.Page.{new_page as zero_frame}
use mini_db.Access.Heap.{Tid}
use mini_db.Access.Heap.Grow.{length-zero_frame}
use mini_db.Access.Nbtree.Node.{
  node_type, key_count, set_key_count, next_leaf, init_type, ordinal, search, child_index,
  insert_leaf_at, insert_internal_at, split_leaf, split_internal,
}
use mini_db.Access.Nbtree.Node.Fields.{IsFrame, key, tid_page, IsTid, IsCounted, set_key_count_lem}
use mini_db.Access.Nbtree.Node.Overrun.{insert_leaf_at_overruns}
use mini_db.Access.Nbtree.Node.Init.{IsEmptyNode, init_type_lem}
use mini_db.Access.Nbtree.Node.Search.{IsLowerBound, search_cases, child_index_cases}
use mini_db.Access.Nbtree.Node.Leaf.{entries, insert_leaf_at_lem, split_leaf_lem}
use mini_db.Access.Nbtree.Node.Internal.{keys, children, insert_internal_at_lem}
use mini_db.Access.Nbtree.Node.Divide.{split_internal_lem}

abbrev here : Tid
here = record { page = 1; slot = 2 }

here-IsTid : IsTid here
here-IsTid = record { page_fits = omega arith; slot_fits = omega arith }

abbrev empty_leaf : List ℕ
empty_leaf = init_type 1 zero_frame

empty_leaf-IsEmptyNode : IsEmptyNode 1 empty_leaf
empty_leaf-IsEmptyNode = init_type_lem 1 zero_frame length-zero_frame (omega arith)

-- A leaf with one entry.
one_entry :
    (m : List ℕ) × (insert_leaf_at 0 5 here empty_leaf ≡ some m)
    × IsFrame m
    × (entries m ≡ take 0 (entries empty_leaf) ++ (5, here) ∷ drop 0 (entries empty_leaf))
    × (key_count m ≡ key_count empty_leaf + 1)
    × (node_type m ≡ node_type empty_leaf)
    × (next_leaf m ≡ next_leaf empty_leaf)
one_entry =
    insert_leaf_at_lem empty_leaf 0 5 here empty_leaf-IsEmptyNode.frame
      (omega (arith, empty_leaf-IsEmptyNode.no_keys)) (omega arith) (omega arith) here-IsTid

abbrev leaf : List ℕ
leaf = one_entry.0

leaf-key_count : key_count leaf ≡ 1
leaf-key_count = one_entry.4 ∙ ap (λ z. z + 1) empty_leaf-IsEmptyNode.no_keys

insert_leaf_at_lem_example :
    (m : List ℕ) × (insert_leaf_at 1 9 here leaf ≡ some m)
    × IsFrame m
    × (entries m ≡ take 1 (entries leaf) ++ (9, here) ∷ drop 1 (entries leaf))
    × (key_count m ≡ key_count leaf + 1)
    × (node_type m ≡ node_type leaf)
    × (next_leaf m ≡ next_leaf leaf)
insert_leaf_at_lem_example =
    insert_leaf_at_lem leaf 1 9 here one_entry.2 (omega (arith, leaf-key_count))
      (omega (arith, leaf-key_count)) (omega arith) here-IsTid

abbrev two_entries : List ℕ
two_entries = insert_leaf_at_lem_example.0

split_leaf_lem_example :
    (m r : List ℕ) × (split_leaf two_entries empty_leaf ≡ some (m, r))
    × IsFrame m
    × IsFrame r
    × (entries m ≡ take (key_count two_entries / 2) (entries two_entries))
    × (entries r ≡ drop (key_count two_entries / 2) (entries two_entries))
    × ((node_type m ≡ node_type two_entries) × (next_leaf m ≡ next_leaf two_entries))
    × ((node_type r ≡ node_type empty_leaf) × (next_leaf r ≡ next_leaf empty_leaf))
split_leaf_lem_example =
    split_leaf_lem two_entries empty_leaf insert_leaf_at_lem_example.2 empty_leaf-IsEmptyNode.frame
      (omega (arith, insert_leaf_at_lem_example.4, leaf-key_count))

search_cases_example :
    (p : ℕ) × (found : Bool) × (search 7 leaf ≡ some (p, found))
    × IsLowerBound leaf 7 p
    × (((found ≡ true) × (p < key_count leaf) × (key leaf p ≡ 7))
        ⊎ ((found ≡ false) × ((j : ℕ) → j < key_count leaf → key leaf j ≢ 7)))
search_cases_example =
    search_cases leaf 7 one_entry.2 (omega (arith, leaf-key_count))
      (λ i j l h. absurd (omega (arith, leaf-key_count)))

abbrev empty_internal : List ℕ
empty_internal = init_type 0 zero_frame

empty_internal-IsEmptyNode : IsEmptyNode 0 empty_internal
empty_internal-IsEmptyNode = init_type_lem 0 zero_frame length-zero_frame (omega arith)

insert_internal_at_lem_example :
    (m : List ℕ) × (insert_internal_at 0 5 3 empty_internal ≡ some m)
    × IsFrame m
    × (keys m ≡ take 0 (keys empty_internal) ++ 5 ∷ drop 0 (keys empty_internal))
    × (children m ≡ take 1 (children empty_internal) ++ 3 ∷ drop 1 (children empty_internal))
    × (key_count m ≡ key_count empty_internal + 1)
    × (node_type m ≡ node_type empty_internal)
insert_internal_at_lem_example =
    insert_internal_at_lem empty_internal 0 5 3 empty_internal-IsEmptyNode.frame
      (omega (arith, empty_internal-IsEmptyNode.no_keys)) (omega arith) (omega arith) (omega arith)

abbrev inner : List ℕ
inner = insert_internal_at_lem_example.0

inner-key_count : key_count inner ≡ 1
inner-key_count =
    insert_internal_at_lem_example.5 ∙ ap (λ z. z + 1) empty_internal-IsEmptyNode.no_keys

child_index_cases_example :
    (c : ℕ) × (child_index 5 inner ≡ some c)
    × (c ≤ key_count inner)
    × ((j : ℕ) → j < c → ordinal (key inner j) ≤ ordinal 5)
    × ((j : ℕ) → c ≤ j → j < key_count inner → ordinal 5 < ordinal (key inner j))
child_index_cases_example =
    child_index_cases inner 5 insert_internal_at_lem_example.2 (omega (arith, inner-key_count))
      (λ i j l h. absurd (omega (arith, inner-key_count))) (omega arith)

split_internal_lem_example :
    (up : ℕ) × (m r : List ℕ) × (split_internal inner empty_internal ≡ some (up, m, r))
    × IsFrame m
    × IsFrame r
    × (keys inner ≡ keys m ++ up ∷ keys r)
    × (children inner ≡ children m ++ children r)
    × (key_count m ≡ key_count inner / 2)
    × (node_type m ≡ node_type inner)
    × (node_type r ≡ node_type empty_internal)
split_internal_lem_example =
    split_internal_lem inner empty_internal insert_internal_at_lem_example.2
      empty_internal-IsEmptyNode.frame (omega (arith, inner-key_count))
      (omega (arith, inner-key_count))

-- A leaf whose count says that it is full.
packed-IsCounted : IsCounted empty_leaf 584 (set_key_count 584 empty_leaf)
packed-IsCounted = set_key_count_lem empty_leaf 584 empty_leaf-IsEmptyNode.frame (omega arith)

insert_leaf_at_overruns_example :
    (m : List ℕ) × (insert_leaf_at 584 (7 * 2 ^ 32) here (set_key_count 584 empty_leaf) ≡ some m)
    × (tid_page m 0 ≡ 7 * 2 ^ 32 / 2 ^ 32)
insert_leaf_at_overruns_example =
    insert_leaf_at_overruns (set_key_count 584 empty_leaf) (7 * 2 ^ 32) here packed-IsCounted.frame
      packed-IsCounted.count (omega arith) here-IsTid
