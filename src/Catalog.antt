-- ===== src/Catalog.antt =====
-- internal/catalog/catalog.go and store.go: which tables exist, their columns, files and indexes.
-- Strings are their bytes, an int its 64-bit pattern, and a Go map an association list. The methods'
-- lock makes each one step. The clones that keep callers from sharing slices are the values here.
-- encoding/json is a parameter, and so is the blob store, of which FileStore is the program's own.
pub mod Laws
pub mod FileStore
pub mod Names
pub mod Reopen
mod Tests
use mini_db.Base.{
  ℕ, zero, suc, ◌+◌, ◌-◌, ◌*◌, ◌/◌, ◌%◌, ◌^◌, Bool, true, false, ◌||◌, ◌&&◌, List, [], ◌∷◌, ◌++◌,
  Option, none, some, ltb, leb, ◌==◌, if◌then◌else◌, length, map,
}
use mini_db.Base.Exec.{Exec, ◌>>=◌, ◌>>◌, done, fail, modify, on_error}
use mini_db.Base.Maps.{lookup, insert, remove, ◌=?◌}
use mini_db.Base.Outcome.{Outcome, ok, err, panic, wrap_err}
use mini_db.Base.Text.{text_key, same_bytes}
use mini_db.Base.Words.{u32}
use mini_db.Record.{Column}

pub record IndexMeta : Type 0 where
  pub name : List ℕ
  pub column : ℕ
  pub file : List ℕ

pub record TableMeta : Type 0 where
  pub name : List ℕ
  pub schema : List Column
  pub file : List ℕ
  pub indexes : List IndexMeta

-- The persisted document. `tables` is nil where a stored document says null.
pub record Document : Type 0 where
  pub next_id : ℕ
  pub tables : Option (List (List ℕ × TableMeta))

-- The state in memory, whose map is never nil.
pub record CatalogState : Type 0 where
  pub next_id : ℕ
  pub tables : List (List ℕ × TableMeta)

-- `load` and `save` of the blobStore interface; no bytes where nothing was stored yet.
pub record BlobStore (S E : Type 0) : Type 0 where
  pub load : Exec S E (Option (List ℕ))
  pub save : List ℕ → Exec S E (Unit {0})

-- json.MarshalIndent of the state, which cannot fail, and json.Unmarshal.
pub record Codec (J : Type 0) : Type 0 where
  pub marshal : CatalogState → List ℕ
  pub unmarshal : List ℕ → Outcome J Document

pub data CatalogError (E J : Type 0) : Type 0 where
  table_exists table_not_found index_exists bad_column empty_name no_columns : CatalogError E J
  load_error save_error : E → CatalogError E J
  parse_error : J → CatalogError E J

pub record Catalog (S : Type 0) : Type 0 where
  pub dir : List ℕ
  pub store : S
  pub state : CatalogState

-- `%d`: at most `k` digits, and 10 are enough for a uint32.
unfoldable pub digits : ℕ → ℕ → List ℕ
digits zero n = []
digits (suc k) n = if ltb n 10 then (48 + n) ∷ [] else digits k (n / 10) ++ (48 + n % 10) ∷ []

unfoldable pub file_name : ℕ → List ℕ
file_name id = b'r' ∷ b'e' ∷ b'l' ∷ b'_' ∷ (digits 10 id ++ b'.' ∷ b'd' ∷ b'b' ∷ [])

-- The first index of that name.
unfoldable pub has_index : List ℕ → List IndexMeta → Bool
has_index name [] = false
has_index name (ix ∷ rest) = same_bytes ix.name name || has_index name rest

-- What openWith makes of the loaded document.
abbrev pub state_of : Document → CatalogState
state_of d = record {
  next_id = d.next_id;
  tables = elim d.tables [ none ↦ [] | some tables ↦ tables ];
}

abbrev pub empty_state : CatalogState
empty_state = record { next_id = 0; tables = [] }

abbrev pub table_of : List ℕ → List Column → ℕ → TableMeta
table_of name schema id = record { name = name; schema = schema; file = file_name id; indexes = [] }

module _ {S E J : Type 0} ⦃store : BlobStore S E⦄ ⦃json : Codec J⦄ where
  abbrev pub parsed : S → List ℕ → Outcome J Document → Outcome (CatalogError E J) (Catalog S)
  parsed s dir (ok d) = ok (record { dir = dir; store = s; state = state_of d })
  parsed s dir (err e) = err (parse_error e)
  parsed s dir panic = panic

  unfoldable pub open_with : List ℕ → S → Outcome (CatalogError E J) (Catalog S)
  open_with dir s = elim (store.load s).1 [
    | err e ↦ err (load_error e)
    | panic ↦ panic
    | ok none ↦ ok (record { dir = dir; store = (store.load s).0; state = empty_state })
    | ok (some bytes) ↦ parsed (store.load s).0 dir (json.unmarshal bytes)
  ]

  unfoldable pub persist : Exec (Catalog S) (CatalogError E J) (Unit {0})
  persist c =
      let r = store.save (json.marshal c.state) c.store in
      (record c { store = r.0 }, wrap_err save_error r.1)

  -- The new state is put in place and persisted; a failed write puts `undo` of it back.
  unfoldable pub commit :
      CatalogState → (CatalogState → CatalogState) → Exec (Catalog S) (CatalogError E J) (Unit {0})
  commit new undo =
      modify (λ c. record c { state = new })
      >> on_error persist (λ c. record c { state = undo c.state })

  unfoldable pub create_table : List ℕ → List Column → Exec (Catalog S) (CatalogError E J) TableMeta
  create_table name schema c =
      if length name == 0
      then (c, err empty_name)
      else if length schema == 0
      then (c, err no_columns)
      else elim (lookup name c.state.tables) [
        | some t ↦ (c, err table_exists)
        | none ↦
            let id = c.state.next_id in
            let t = table_of name schema id in
            (commit (record { next_id = u32 (id + 1); tables = insert name t c.state.tables })
                  (λ s. record { next_id = id; tables = remove name s.tables })
                >> done t)
              c
      ]

  -- CreateIndex on a table that was found.
  unfoldable pub add_index :
      List ℕ → TableMeta → List ℕ → ℕ → Exec (Catalog S) (CatalogError E J) IndexMeta
  add_index table tm name column c =
      if leb (2 ^ 63) column || leb (length tm.schema) column
      then (c, err bad_column)
      else if has_index name tm.indexes
      then (c, err index_exists)
      else (let id = c.state.next_id in
          let im : IndexMeta = record { name = name; column = column; file = file_name id } in
          let updated = record tm { indexes = tm.indexes ++ im ∷ [] } in
          (commit (record { next_id = u32 (id + 1); tables = insert table updated c.state.tables })
                (λ s. record { next_id = id; tables = insert table tm s.tables })
              >> done im)
            c)

  unfoldable pub create_index : List ℕ → List ℕ → ℕ → Exec (Catalog S) (CatalogError E J) IndexMeta
  create_index table name column c =
      if length name == 0 then (c, err empty_name) else elim (lookup table c.state.tables) [
        | none ↦ (c, err table_not_found)
        | some tm ↦ add_index table tm name column c
      ]

-- `a < b` on strings.
unfoldable pub text_lt : List ℕ → List ℕ → Bool
text_lt a [] = false
text_lt [] (b ∷ bs) = true
text_lt (a ∷ xs) (b ∷ bs) = ltb a b || ((a == b) && text_lt xs bs)

unfoldable pub insert_table : TableMeta → List TableMeta → List TableMeta
unfolding text_lt
insert_table t [] = t ∷ []
insert_table t (u ∷ us) = if text_lt t.name u.name then t ∷ u ∷ us else u ∷ insert_table t us

-- `sort.Slice(out, …)` by name.
unfoldable pub sort_tables : List TableMeta → List TableMeta
sort_tables [] = []
sort_tables (t ∷ ts) = insert_table t (sort_tables ts)

unfoldable pub list_tables : {S : Type 0} → Catalog S → List TableMeta
list_tables c = sort_tables (map (λ e. e.1) c.state.tables)

-- The comma-ok result `(tm, true)` is `some tm`.
unfoldable pub get_table : {S : Type 0} → List ℕ → Catalog S → Option TableMeta
get_table name c = lookup name c.state.tables
