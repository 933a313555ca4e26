-- ===== src/Access/Nbtree/Node.antt =====
-- internal/access/nbtree/node.go: the node view of a page frame. A frame is its 8192 bytes, an int64 key
-- its 64-bit pattern. The header lies inside every frame; an access behind the end of the frame panics,
-- which is none here. internalCap and leafCap have their values of the program.
pub mod Fields
pub mod Init
pub mod Loops
pub mod Cells
pub mod Search
pub mod Leaf
pub mod Internal
pub mod Divide
pub mod Overrun
mod Tests
use mini_db.Base.{
  ℕ, zero, suc, ◌+◌, ◌-◌, ◌*◌, ◌/◌, ◌%◌, ◌^◌, Bool, true, false, List, length, replicate, Option,
  none, some, ltb, leb, ◌==◌, if◌then◌else◌,
}
use mini_db.Base.Endian.{get_uint, put_uint}
use mini_db.Base.Words.{u16, sub16}
use mini_db.Access.Heap.{Tid}

abbrev pub node_header : ℕ
node_header = 8

abbrev pub internal_cap : ℕ
internal_cap = 681

abbrev pub leaf_cap : ℕ
leaf_cap = 584

abbrev pub child_area_off : ℕ
child_area_off = node_header + internal_cap * 8

abbrev pub tid_area_off : ℕ
tid_area_off = node_header + leaf_cap * 8

unfoldable pub node_type : List ℕ → ℕ
node_type n = get_uint 0 1 n

unfoldable pub is_leaf : List ℕ → Bool
is_leaf n = node_type n == 1

unfoldable pub key_count : List ℕ → ℕ
key_count n = get_uint 2 2 n

unfoldable pub set_key_count : ℕ → List ℕ → List ℕ
set_key_count k n = put_uint 2 2 k n

unfoldable pub next_leaf : List ℕ → ℕ
next_leaf n = get_uint 4 4 n

unfoldable pub set_next_leaf : ℕ → List ℕ → List ℕ
set_next_leaf pid n = put_uint 4 4 pid n

unfoldable pub init_type : ℕ → List ℕ → List ℕ
init_type kind n = put_uint 0 1 kind (replicate (length n) 0)

unfoldable pub init_leaf : List ℕ → List ℕ
init_leaf n = init_type 1 n

unfoldable pub init_internal : List ℕ → List ℕ
init_internal n = init_type 0 n

-- A big-endian number in the frame, behind the slice expression's and the reader's bounds checks.
abbrev pub read_uint : ℕ → ℕ → List ℕ → Option ℕ
read_uint off size n = if leb (off + size) (length n) then some (get_uint off size n) else none

abbrev pub write_uint : ℕ → ℕ → ℕ → List ℕ → Option (List ℕ)
write_uint off size v n = if leb (off + size) (length n) then some (put_uint off size v n) else none

unfoldable pub key_at : ℕ → List ℕ → Option ℕ
key_at i n = read_uint (node_header + i * 8) 8 n

unfoldable pub set_key_at : ℕ → ℕ → List ℕ → Option (List ℕ)
set_key_at i key n = write_uint (node_header + i * 8) 8 key n

unfoldable pub child_at : ℕ → List ℕ → Option ℕ
child_at i n = read_uint (child_area_off + i * 4) 4 n

unfoldable pub set_child_at : ℕ → ℕ → List ℕ → Option (List ℕ)
set_child_at i pid n = write_uint (child_area_off + i * 4) 4 pid n

infixl 5 ◌>>=◌
abbrev pub ◌>>=◌ : {A B : Type 0} → Option A → (A → Option B) → Option B
none >>= f = none
some a >>= f = f a

unfoldable pub tid_at : ℕ → List ℕ → Option Tid
tid_at i n = read_uint (tid_area_off + i * 6) 4 n >>= λ pid.
    read_uint (tid_area_off + i * 6 + 4) 2 n >>= λ slot. some (record { page = pid; slot = slot })

unfoldable pub set_tid_at : ℕ → Tid → List ℕ → Option (List ℕ)
set_tid_at i tid n = write_uint (tid_area_off + i * 6) 4 tid.page n >>= λ m.
    write_uint (tid_area_off + i * 6 + 4) 2 tid.slot m

-- `a < b` on int64 patterns.
abbrev pub ordinal : ℕ → ℕ
ordinal key = (key + 2 ^ 63) % 2 ^ 64

abbrev pub key_lt : ℕ → ℕ → Bool
key_lt a b = ltb (ordinal a) (ordinal b)

-- The loop of search, at most `fuel` rounds; the key count is enough.
unfoldable pub search_loop : ℕ → ℕ → ℕ → ℕ → List ℕ → Option ℕ
search_loop zero lo hi key n = if ltb lo hi then none else some lo
search_loop (suc fuel) lo hi key n =
    if ltb lo hi
    then (let mid = u16 (lo + hi) / 2 in
        key_at mid n >>= λ k.
        if key_lt k key
        then search_loop fuel (u16 (mid + 1)) hi key n
        else search_loop fuel lo mid key n)
    else some lo

unfoldable pub search : ℕ → List ℕ → Option (ℕ × Bool)
search key n = search_loop (key_count n) 0 (key_count n) key n >>= λ lo.
    if ltb lo (key_count n) then (key_at lo n >>= λ k. some (lo, k == key)) else some (lo, false)

unfoldable pub child_index : ℕ → List ℕ → Option ℕ
child_index key n = search key n >>= λ r. some (if r.1 then u16 (r.0 + 1) else r.0)

unfoldable pub full : List ℕ → Bool
full n = if is_leaf n then leb leaf_cap (key_count n) else leb internal_cap (key_count n)

-- `for ; k rounds; j-- { body(j) }` and `for ; k rounds; j++ { body(j) }`
unfoldable pub count_down : ℕ → ℕ → (ℕ → List ℕ → Option (List ℕ)) → List ℕ → Option (List ℕ)
count_down zero j body n = some n
count_down (suc k) j body n = body j n >>= λ m. count_down k (j - 1) body m

unfoldable pub count_up : ℕ → ℕ → (ℕ → List ℕ → Option (List ℕ)) → List ℕ → Option (List ℕ)
count_up zero j body n = some n
count_up (suc k) j body n = body j n >>= λ m. count_up k (j + 1) body m

unfoldable pub shift_key : ℕ → List ℕ → Option (List ℕ)
shift_key j n = key_at (j - 1) n >>= λ k. set_key_at j k n

unfoldable pub shift_entry : ℕ → List ℕ → Option (List ℕ)
shift_entry j n = shift_key j n >>= λ m. tid_at (j - 1) m >>= λ t. set_tid_at j t m

unfoldable pub shift_child : ℕ → List ℕ → Option (List ℕ)
shift_child j n = child_at (j - 1) n >>= λ c. set_child_at j c n

unfoldable pub insert_leaf_at : ℕ → ℕ → Tid → List ℕ → Option (List ℕ)
insert_leaf_at i key tid n =
    let cnt = key_count n in
    count_down (cnt - i) cnt shift_entry n >>= λ m.
    set_key_at i key m >>= λ m. set_tid_at i tid m >>= λ m. some (set_key_count (u16 (cnt + 1)) m)

unfoldable pub insert_internal_at : ℕ → ℕ → ℕ → List ℕ → Option (List ℕ)
insert_internal_at i key right n =
    let cnt = key_count n in
    count_down (cnt - i) cnt shift_key n >>= λ m. set_key_at i key m >>= λ m.
    count_down (u16 (cnt + 1) - u16 (i + 1)) (u16 (cnt + 1)) shift_child m >>= λ m.
    set_child_at (u16 (i + 1)) right m >>= λ m. some (set_key_count (u16 (cnt + 1)) m)

-- One round of a split: from slot j of the node n to slot `to` of the right node.
unfoldable pub copy_key : List ℕ → ℕ → ℕ → List ℕ → Option (List ℕ)
copy_key n j to right = key_at j n >>= λ k. set_key_at to k right

unfoldable pub copy_entry : List ℕ → ℕ → ℕ → List ℕ → Option (List ℕ)
copy_entry n j to right = copy_key n j to right >>= λ r. tid_at j n >>= λ t. set_tid_at to t r

unfoldable pub copy_child : List ℕ → ℕ → ℕ → List ℕ → Option (List ℕ)
copy_child n j to right = child_at j n >>= λ c. set_child_at to c right

-- Both nodes after the split of n into n and right.
unfoldable pub split_leaf : List ℕ → List ℕ → Option (List ℕ × List ℕ)
split_leaf n right =
    let cnt = key_count n in
    let mid = cnt / 2 in
    count_up (cnt - mid) mid (λ j. copy_entry n j (j - mid)) right >>= λ r.
    some (set_key_count mid n, set_key_count (cnt - mid) r)

-- The key to push up, and both nodes.
unfoldable pub split_internal : List ℕ → List ℕ → Option (ℕ × List ℕ × List ℕ)
split_internal n right =
    let cnt = key_count n in
    let mid = cnt / 2 in
    key_at mid n >>= λ up.
    count_up (cnt - (mid + 1)) (mid + 1) (λ j. copy_key n j (j - mid - 1)) right >>= λ r.
    count_up (cnt - mid) (mid + 1) (λ j. copy_child n j (j - mid - 1)) r >>= λ r.
    some (up, set_key_count mid n, set_key_count (sub16 (cnt - mid) 1) r)
