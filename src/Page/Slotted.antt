-- ===== src/Page/Slotted.antt =====
-- internal/storage/page/slotted_page.go: a page of variable-length tuples behind a slot directory.
-- The directory grows up from the header to pd_upper, the tuples grow down to pd_lower.
pub mod Layout
pub mod Insert
pub mod Stored
pub mod Reads
pub mod Laws
mod Tests
use mini_db.Base.{
  ℕ, zero, suc, ◌+◌, ◌-◌, ◌*◌, ◌/◌, Bool, ◌&&◌, List, [], ◌∷◌, ltb, leb, if◌then◌else◌, length,
  take, replicate,
}
use mini_db.Base.Copy.{slice, splice}
use mini_db.Base.Exec.{Exec, ◌>>=◌, ◌>>◌, done, fail, gets, modify, lift, lifts}
use mini_db.Base.Outcome.{Outcome, ok, err, panic, checked, wrap_err, ◌>>=◌ as bind}
use mini_db.Base.Words.{u16, sub16}
use mini_db.Util.Bits.{BitsError}
use mini_db.Page.Header.{pd_lower, pd_upper, set_pd_lower, set_pd_upper, set_pd_pagesize}
use mini_db.Page.SlotEntry.{offset, entry_length, set_offset, set_entry_length}

-- `no_space` is ErrNoSpace; `bits` is a setter's error behind "page: insert tuple: %w".
pub data PageError : Type 0 where
  no_space : PageError
  bits : BitsError → PageError

unfoldable pub slot_count : List ℕ → ℕ
slot_count p = sub16 (pd_upper p) 24 / 4

-- The position of slot i in the page.
abbrev pub slot_position : ℕ → ℕ
slot_position i = u16 (24 + u16 (i * 4))

-- `p.data[lo:hi]`, which panics unless lo <= hi <= PageSize.
abbrev pub page_slice : List ℕ → ℕ → ℕ → Outcome PageError (List ℕ)
page_slice p lo hi = checked (leb lo hi && leb hi 8192) (slice lo (hi - lo) p)

-- The unchecked form; a view over four bytes of the page.
unfoldable pub slot_entry_unchecked : List ℕ → ℕ → Outcome PageError (List ℕ)
slot_entry_unchecked p i = page_slice p (slot_position i) (u16 (slot_position i + 4))

unfoldable pub slot_entry_at : List ℕ → ℕ → Outcome PageError (List ℕ)
slot_entry_at p i = if leb (slot_count p) i then panic else slot_entry_unchecked p i

-- What Slots yields: each index below the count with its entry, for the `left` slots from `i` on.
unfoldable pub slots_from : ℕ → ℕ → List ℕ → Outcome PageError (List (ℕ × List ℕ))
slots_from zero i p = ok []
slots_from (suc left) i p =
    bind (slot_entry_unchecked p i) λ e. bind (slots_from left (i + 1) p) λ rest. ok ((i, e) ∷ rest)

unfoldable pub slots : List ℕ → Outcome PageError (List (ℕ × List ℕ))
slots p = slots_from (slot_count p) 0 p

unfoldable pub locate_tuple_by_entry : List ℕ → List ℕ → Outcome PageError (List ℕ)
locate_tuple_by_entry p entry =
    page_slice p (offset entry) (u16 (offset entry + entry_length entry))

-- Init zeroes the frame and sets the boundary pointers.
unfoldable pub init : List ℕ → List ℕ
init p = set_pd_pagesize 8192 (set_pd_lower 8192 (set_pd_upper 24 (replicate (length p) 0)))

unfoldable pub free_space : List ℕ → ℕ
free_space p = sub16 (pd_lower p) (pd_upper p)

-- `copy(p.data[lo:hi], data)`
abbrev pub copy_into : ℕ → ℕ → List ℕ → Exec (List ℕ) PageError (Unit {0})
copy_into lo hi src p =
    if leb lo hi && leb hi 8192 then (splice lo (take (hi - lo) src) p, ok tt) else (p, panic)

-- What InsertTuple does once the space check has passed.
unfoldable pub place_tuple : List ℕ → ℕ → ℕ → Exec (List ℕ) PageError ℕ
place_tuple src slot tuple_offset = do
  entry ← lifts (λ p. slot_entry_unchecked p slot)
  placed ← lift (wrap_err bits (set_offset entry tuple_offset))
  modify (splice (slot_position slot) placed)
  sized ← lift (wrap_err bits (set_entry_length placed (u16 (length src))))
  modify (splice (slot_position slot) sized)
  lower ← gets pd_lower
  copy_into tuple_offset lower src
  modify (λ p. set_pd_upper (u16 (pd_upper p + 4)) p)
  modify (set_pd_lower tuple_offset)
  done slot

unfoldable pub insert_tuple : List ℕ → Exec (List ℕ) PageError ℕ
insert_tuple src p =
    if ltb (free_space p) (length src + 4)
    then (p, err no_space)
    else place_tuple src (slot_count p) (sub16 (pd_lower p) (u16 (length src))) p
