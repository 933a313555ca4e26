-- ===== src/Catalog/Tests.antt =====
-- The catalog's theorems applied to a catalog of one table, kept in a file.
use mini_db.Base.{
  ℕ, ◌+◌, ◌<◌, ◌≡◌, refl, false, List, [], ◌∷◌, ◌++◌, none, some, ◌⊎◌, length, All, arith,
}
use mathlib.Core.Path.{subst}
use mini_db.Base.Maps.{lookup, insert}
use mini_db.Base.Outcome.{ok, err}
use mini_db.Base.Text.{text_key, same_bytes_iff}
use mini_db.Base.Words.{u32}
use mini_db.Disk.{fails}
use mini_db.Record.{Column, type_int}
use mini_db.Catalog.{
  Catalog, CatalogState, CatalogError, TableMeta, IndexMeta, Codec, create_table, create_index,
  open_with, table_of, file_name, has_index, commit, persist,
}
use mini_db.Catalog.FileStore.{
  FileStore, StoreError, file_store, save, write_temp, rename, save_atomic, save-ne-panic,
}
use mini_db.Catalog.Laws.{
  SameState, IsUpdated, IsCommitted, TableCause, IndexCause, create_table_cases, create_index_cases,
}
use mini_db.Catalog.Names.{files_of, IsBelow, IsNumbered, IsFresh, create_table-IsFresh}
use mini_db.Catalog.Reopen.{open_with-create_table}

abbrev users : List ℕ
users = b'u' ∷ []

abbrev orders : List ℕ
orders = b'o' ∷ []

abbrev columns : List Column
columns = record { name = b'i' ∷ []; kind = type_int; nullable = false } ∷ []

-- The catalog that holds `users`, and no write that fails.
abbrev one_table : Catalog FileStore
one_table = record {
  dir = [];
  store = record { target = none; temp = none; answers = [] };
  state = record { next_id = 1; tables = (users, table_of users columns 0) ∷ [] };
}

-- The catalog after `orders` was added.
abbrev two_state : CatalogState
two_state = record {
  next_id = 2;
  tables = insert orders (table_of orders columns 1) one_table.state.tables;
}

abbrev two_tables : Catalog FileStore
two_tables = record {
  dir = [];
  store = record { target = some []; temp = none; answers = [] };
  state = two_state;
}

-- A codec that is right about this one document.
instance abbrev one_document : Codec (Unit {0})
one_document = record {
  marshal = λ s. [];
  unmarshal = λ bytes. ok (record { next_id = 2; tables = some two_state.tables });
}

added :
    create_table {E = StoreError} {J = Unit {0}} orders columns one_table
    ≡ (two_tables, ok (table_of orders columns 1))
unfolding create_table commit persist save write_temp rename lookup
added = ground (arith, same_bytes_iff users orders)

create_table_cases_example :
    ((t : TableMeta) × (c' : Catalog FileStore) × (create_table {E = StoreError} {J = Unit {0}}
          orders columns one_table
        ≡ (c', ok t))
      × (t ≡ table_of orders columns 1)
      × (lookup orders one_table.state.tables ≡ none)
      × IsUpdated orders t one_table.state.tables c'.state.tables
      × (c'.state.next_id ≡ u32 (1 + 1))
      × IsCommitted file_store one_document one_table c'.state c')
    ⊎ ((e : CatalogError StoreError (Unit {0})) × (c' : Catalog FileStore) × (create_table
            {E = StoreError} {J = Unit {0}} orders columns one_table
          ≡ (c', err e))
        × TableCause one_table orders columns e
        × SameState c'.state one_table.state)
create_table_cases_example = create_table_cases save-ne-panic one_table orders columns

create_index_cases_example :
    ((im : IndexMeta) × (c' : Catalog FileStore) × (tm : TableMeta) × (create_index {E = StoreError}
          {J = Unit {0}} users orders 0 one_table
        ≡ (c', ok im))
      × (im ≡ record { name = orders; column = 0; file = file_name 1 })
      × (lookup users one_table.state.tables ≡ some tm)
      × ((0 < length tm.schema) × (has_index orders tm.indexes ≡ false))
      × IsUpdated users
          (record tm { indexes = tm.indexes ++ im ∷ [] })
          one_table.state.tables
          c'.state.tables
      × (c'.state.next_id ≡ u32 (1 + 1))
      × IsCommitted file_store one_document one_table c'.state c')
    ⊎ ((e : CatalogError StoreError (Unit {0})) × (c' : Catalog FileStore) × (create_index
            {E = StoreError} {J = Unit {0}} users orders 0 one_table
          ≡ (c', err e))
        × IndexCause one_table users orders 0 e
        × SameState c'.state one_table.state)
create_index_cases_example = create_index_cases save-ne-panic one_table users orders 0

one_table-IsNumbered : IsNumbered one_table.state
one_table-IsNumbered = record { owned = only; counted = omega arith }
  where
    only :
        (k : List ℕ) (t : TableMeta)
        → lookup k one_table.state.tables ≡ some t
        → All (IsBelow 1) (files_of t)
    only k t found =
        let same : table_of users columns 0 ≡ t = unfold lookup in ground arith in
        subst (λ x. All (IsBelow 1) (files_of x)) same ((0, omega arith, refl), tt)

create_table-IsFresh_example :
    IsFresh one_table.state (table_of orders columns 1).file × IsNumbered two_tables.state
create_table-IsFresh_example =
    create_table-IsFresh save-ne-panic one_table two_tables orders columns
      (table_of orders columns 1) one_table-IsNumbered (omega arith) added

open_with-create_table_example :
    (c'' : Catalog FileStore) × (open_with {E = StoreError} {J = Unit {0}} two_tables.dir
        two_tables.store
      ≡ ok c'')
    × IsUpdated orders (table_of orders columns 1) one_table.state.tables c''.state.tables
    × (c''.state.next_id ≡ u32 (1 + 1))
open_with-create_table_example =
    open_with-create_table one_table two_tables orders columns (table_of orders columns 1) added
      refl
      (
        record { next_id = 2; tables = some two_state.tables },
        refl,
        record { same_id = refl; same_tables = λ k. refl },
      )

save_atomic_example :
    (((save (1 ∷ 2 ∷ []) (record { target = some []; temp = none; answers = fails 1 ∷ [] })).1
        ≡ ok tt)
      × ((save
            (1 ∷ 2 ∷ [])
            (record { target = some []; temp = none; answers = fails 1 ∷ [] })).0.target
          ≡ some (1 ∷ 2 ∷ [])))
    ⊎ ((e : StoreError) × ((save
            (1 ∷ 2 ∷ [])
            (record { target = some []; temp = none; answers = fails 1 ∷ [] })).1
          ≡ err e)
        × ((save
              (1 ∷ 2 ∷ [])
              (record { target = some []; temp = none; answers = fails 1 ∷ [] })).0.target
            ≡ some []))
save_atomic_example =
    save_atomic (1 ∷ 2 ∷ []) (record { target = some []; temp = none; answers = fails 1 ∷ [] })
