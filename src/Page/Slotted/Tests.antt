-- ===== src/Page/Slotted/Tests.antt =====
-- The slotted page and its entries on concrete pages.
use mini_db.Base.{ℕ, ◌≡◌, refl, List, [], ◌∷◌, length, length-replicate, get_elem?, some, arith}
use mini_db.Base.Outcome.{ok}
use mini_db.Util.Bits.{read_bits}
use mini_db.Page.{new_page}
use mini_db.Page.SlotEntry.{offset, entry_length, flag}
use mini_db.Page.SlotEntry.Laws.{IsEntry}
use mini_db.Page.Slotted.{slot_entry_at, locate_tuple_by_entry, init, free_space, insert_tuple}
use mini_db.Page.Slotted.Layout.{IsSlotted, tuples}
use mini_db.Page.Slotted.Laws.{IsAppended, insert_tuple_fits}
use mini_db.Page.Slotted.Reads.{init-IsSlotted, locate-tuples}

abbrev entry : List ℕ
entry = 0x3f ∷ 0xf8 ∷ 0x00 ∷ 0x21 ∷ []

entry_reads : (offset entry ≡ 8188) × (entry_length entry ≡ 8) × (flag entry ≡ 1)
unfolding offset entry_length flag read_bits
entry_reads = (refl, refl, refl)

entry-IsEntry : IsEntry entry
entry-IsEntry = record { four = refl; bytes_in_range = omega arith }

new_page-length : length new_page ≡ 8192
unfolding new_page
new_page-length = length-replicate {A = ℕ} 8192 0

init-IsSlotted_example : IsSlotted (init new_page) 0 × (free_space (init new_page) ≡ 8168)
init-IsSlotted_example = init-IsSlotted new_page new_page-length

abbrev small : List ℕ
small = 1 ∷ 2 ∷ 3 ∷ []

insert_tuple_fits_example :
    (q : List ℕ) × (insert_tuple small (init new_page) ≡ (q, ok 0))
    × IsAppended (init new_page) 0 small q
insert_tuple_fits_example =
    insert_tuple_fits (init new_page) small 0 init-IsSlotted_example.0 (omega arith)
      (omega (arith, init-IsSlotted_example.1))

abbrev one_tuple : List ℕ
one_tuple = insert_tuple_fits_example.0

one_tuple-IsSlotted : IsSlotted one_tuple 1
one_tuple-IsSlotted = insert_tuple_fits_example.2.well_formed

locate-tuples_example :
    (entry tuple : List ℕ) × (slot_entry_at one_tuple 0 ≡ ok entry)
    × (locate_tuple_by_entry one_tuple entry ≡ ok tuple)
    × (get_elem? (tuples one_tuple 1) 0 ≡ some tuple)
locate-tuples_example = locate-tuples one_tuple 1 one_tuple-IsSlotted 0 (omega arith)
