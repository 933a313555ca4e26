-- ===== src/Buffer/Lru.antt =====
-- internal/storage/buffer/lru_replacer.go: the frames that may be evicted, in the order in which they
-- became evictable. The doubly linked list of container/list is the list of its elements, each with
-- an identity by which the index map finds it; the zero value of `fresh` is the next identity.
pub mod Queue
pub mod Laws
pub mod Member
mod Tests
use mini_db.Base.{ℕ, suc, ◌+◌, Bool, List, [], ◌∷◌, Option, none, some, ◌==◌, if◌then◌else◌, length}
use mini_db.Base.Maps.{nat_key, lookup, insert, remove}

pub record Element : Type 0 where
  pub id : ℕ
  pub value : ℕ

pub record Lru : Type 0 where
  pub order : List Element
  pub index : List (ℕ × ℕ)
  pub fresh : ℕ

unfoldable pub new_lru : Lru
new_lru = record { order = []; index = []; fresh = 0 }

-- `order.Remove(e)`
unfoldable pub remove_element : ℕ → List Element → List Element
remove_element e [] = []
remove_element e (x ∷ xs) = if x.id == e then xs else x ∷ remove_element e xs

-- `order.Back()`
unfoldable pub back : List Element → Option Element
back [] = none
back (x ∷ []) = some x
back (x ∷ y ∷ xs) = back (y ∷ xs)

unfoldable pub unpin : ℕ → Lru → Lru
unpin f r = elim (lookup f r.index) [
  | some e ↦ r
  | none ↦ record {
    order = record { id = r.fresh; value = f } ∷ r.order;
    index = insert f r.fresh r.index;
    fresh = r.fresh + 1;
  }
]

unfoldable pub pin : ℕ → Lru → Lru
pin f r = elim (lookup f r.index) [
  | none ↦ r
  | some e ↦ record r { order = remove_element e r.order; index = remove f r.index }
]

-- The comma-ok result `(f, true)` is `some f`.
unfoldable pub victim : Lru → Lru × Option ℕ
victim r = elim (back r.order) [
  | none ↦ (r, none)
  | some e ↦ (
    record r { order = remove_element e.id r.order; index = remove e.value r.index },
    some e.value,
  )
]

unfoldable pub size : Lru → ℕ
size r = length r.order
