-- ===== src/Access/Nbtree/Insert/Tests.antt =====
-- Insert into an empty index over the pool in memory.
use mini_db.Base.{ℕ, ◌≡◌, refl, ◌⊎◌, [], ◌∷◌, Option, arith}
use mini_db.Base.Exec.{◌>>◌}
use mini_db.Base.Outcome.{ok, err}
use mini_db.Access.Heap.{Tid}
use mini_db.Access.Memory.{Memory, MemoryError, memory_pager, memory_laws}
use mini_db.Access.Nbtree.Tree.{pager_error, duplicate_key, insert_tree, search_tree}
use mini_db.Access.Nbtree.Tree.Index.{Holds}
use mini_db.Access.Nbtree.Tree.Create.{first_meta, first_leaf, first_pages-IsRoomy}
use mini_db.Access.Nbtree.Tree.Fan.{Adds}
use mini_db.Access.Nbtree.Tree.Lookup.{IsQuiet}
use mini_db.Access.Nbtree.Tree.Roomy.{IsRoomyIndex}
use mini_db.Access.Nbtree.Insert.Whole.{insert_tree_cases}
use mini_db.Access.Nbtree.Insert.Found.{Tells, search_tree-insert_tree}

abbrev place : Tid
place = record { page = 1; slot = 2 }

abbrev blank : Memory
blank = record { live = first_meta ∷ first_leaf ∷ []; clean = first_meta ∷ first_leaf ∷ [] }

blank-IsRoomyIndex : IsRoomyIndex memory_laws blank 0 1
blank-IsRoomyIndex = record {
  quiet = record { valid = (omega arith, refl); settled = refl };
  roomy = first_pages-IsRoomy;
}

insert_tree_cases_example :
    (u : Memory) × (((height : ℕ) × (top : ℕ) × (insert_tree memory_pager 5 place blank
          ≡ (u, ok tt))
        × IsRoomyIndex memory_laws u height top
        × ((v : Tid) → ¬ Holds blank.live 0 1 5 v)
        × Adds (Holds blank.live 0 1) (Holds u.live height top) 5 place)
      ⊎ (((insert_tree memory_pager 5 place blank ≡ (u, err duplicate_key))
            × IsRoomyIndex memory_laws u 0 1
            × (u.live ≡ blank.live)
            × ((v : Tid) × Holds blank.live 0 1 5 v))
          ⊎ ((e : MemoryError) × (insert_tree memory_pager 5 place blank ≡ (u, err (pager_error e)))
              × IsQuiet memory_laws u)))
insert_tree_cases_example =
    insert_tree_cases memory_laws 0 1 5 place blank blank-IsRoomyIndex (omega arith)
      (record { page_fits = omega arith; slot_fits = omega arith })

search_tree-insert_tree_example :
    (u : Memory) × (((r : Option Tid) × ((insert_tree memory_pager 5 place
              >> search_tree memory_pager 5)
            blank
          ≡ (u, ok r))
        × Tells memory_laws blank 0 1 5 place 5 r)
      ⊎ ((((insert_tree memory_pager 5 place >> search_tree memory_pager 5) blank
              ≡ (u, err duplicate_key))
            × ((v : Tid) × Holds blank.live 0 1 5 v))
          ⊎ ((e : MemoryError) × ((insert_tree memory_pager 5 place >> search_tree memory_pager 5)
                  blank
                ≡ (u, err (pager_error e))))))
search_tree-insert_tree_example =
    search_tree-insert_tree memory_laws 0 1 5 place 5 blank blank-IsRoomyIndex (omega arith)
      (record { page_fits = omega arith; slot_fits = omega arith }) (omega arith)
