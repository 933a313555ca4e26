-- ===== src/Page.antt =====
-- internal/storage/page: the page frame (page.go) and the constants of the slotted layout.
-- A frame is the list of its bytes; a view such as *SlottedPage is that list, and what writes
-- through the view returns the new list.
pub mod Header
pub mod SlotEntry
pub mod Tuple
pub mod Slotted
use mini_db.Base.{ℕ, List, replicate}

abbrev pub page_size : ℕ
page_size = 8192

abbrev pub header_size : ℕ
header_size = 24

abbrev pub slot_entry_size : ℕ
slot_entry_size = 4

abbrev pub tuple_header_size : ℕ
tuple_header_size = 12

-- A fresh, zeroed frame.
unfoldable pub new_page : List ℕ
new_page = replicate page_size 0
