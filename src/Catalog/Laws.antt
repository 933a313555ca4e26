-- ===== src/Catalog/Laws.antt =====
-- What CreateTable and CreateIndex do to the catalog's map of tables, and what a failed save leaves.
use mini_db.Base.{
  ℕ, ◌+◌, ◌^◌, ◌≤◌, ◌<◌, ◌≡◌, ◌≢◌, refl, ◌⊎◌, inl, inr, true, false, List, [], ◌∷◌, ◌++◌, none,
  some, leb, ◌==◌, ◌||◌, if◌then◌else◌, length, Bool-cases, Option-cases, arith,
}
use mini_db.Base.Maps.{lookup, insert, remove, lookup-insert, lookup-remove, ◌=?◌}
use mini_db.Base.Outcome.{ok, err, panic, returned}
use mini_db.Base.Text.{text_key, same_bytes_iff}
use mini_db.Base.Words.{u32}
use mini_db.Record.{Column}
use mini_db.Catalog.{
  Catalog, CatalogState, CatalogError, TableMeta, IndexMeta, BlobStore, Codec, commit, persist,
  create_table, create_index, add_index, table_of, has_index, file_name, empty_name, no_columns,
  table_exists, table_not_found, bad_column, index_exists, save_error, load_error, parse_error,
}

-- The same counter and the same map.
pub record SameState (a b : CatalogState) : Type 0 where
  pub same_id : a.next_id ≡ b.next_id
  pub same_tables : (k : List ℕ) → lookup k a.tables ≡ lookup k b.tables

same : {S : Type 0} (c : Catalog S) → SameState c.state c.state
same c = record { same_id = refl; same_tables = λ k. refl }

-- The map with one entry changed.
abbrev pub IsUpdated :
    List ℕ → TableMeta → List (List ℕ × TableMeta) → List (List ℕ × TableMeta) → Type 0
IsUpdated name t old new =
    (k : List ℕ) → lookup k new ≡ (if name =? k then some t else lookup k old)

updated :
    (name : List ℕ) (t : TableMeta) (m : List (List ℕ × TableMeta))
    → IsUpdated name t m (insert name t m)
updated name t m k = lookup-insert name k t m

removed :
    (name : List ℕ) (t : TableMeta) (m : List (List ℕ × TableMeta)) (k : List ℕ)
    → lookup name m ≡ none
    → lookup k (remove name (insert name t m)) ≡ lookup k m
removed name t m k absent =
    ground (
      arith,
      lookup-remove name k (insert name t m),
      lookup-insert name k t m,
      same_bytes_iff name k,
    )

restored :
    (name : List ℕ) (t old : TableMeta) (m : List (List ℕ × TableMeta)) (k : List ℕ)
    → lookup name m ≡ some old
    → lookup k (insert name old (insert name t m)) ≡ lookup k m
restored name t old m k found = ground (
  arith,
  lookup-insert name k old (insert name t m),
  lookup-insert name k t m,
  same_bytes_iff name k,
)

-- What the catalog relies on: a save returns, with or without an error.
abbrev pub SaveReturns : {S E : Type 0} → BlobStore S E → Type 0
SaveReturns {S} store = (bytes : List ℕ) (s : S) → (store.save bytes s).1 ≢ panic

-- What each refusal of CreateTable means. A failed save has no cause in the arguments.
abbrev pub TableCause :
    {S E J : Type 0} → Catalog S → List ℕ → List Column → CatalogError E J → Type 0
TableCause c name schema empty_name = length name ≡ 0
TableCause c name schema no_columns = length schema ≡ 0
TableCause c name schema table_exists = (t : TableMeta) × (lookup name c.state.tables ≡ some t)
TableCause c name schema (save_error e) = Unit
TableCause c name schema table_not_found = ⊥
TableCause c name schema bad_column = ⊥
TableCause c name schema index_exists = ⊥
TableCause c name schema (load_error e) = ⊥
TableCause c name schema (parse_error e) = ⊥

-- What each refusal of CreateIndex means.
abbrev pub IndexCause :
    {S E J : Type 0} → Catalog S → List ℕ → List ℕ → ℕ → CatalogError E J → Type 0
IndexCause c table name column empty_name = length name ≡ 0
IndexCause c table name column table_not_found = lookup table c.state.tables ≡ none
IndexCause c table name column bad_column =
    (tm : TableMeta) × (lookup table c.state.tables ≡ some tm)
    × ((2 ^ 63 ≤ column) ⊎ (length tm.schema ≤ column))
IndexCause c table name column index_exists =
    (tm : TableMeta) × (lookup table c.state.tables ≡ some tm) × (has_index name tm.indexes ≡ true)
IndexCause c table name column (save_error e) = Unit
IndexCause c table name column no_columns = ⊥
IndexCause c table name column table_exists = ⊥
IndexCause c table name column (load_error e) = ⊥
IndexCause c table name column (parse_error e) = ⊥

-- `new` is in place, and the store took its document.
pub record IsCommitted {S E J : Type 0} (store : BlobStore S E) (json : Codec J) (c : Catalog S)
    (new : CatalogState) (c' : Catalog S) : Type 0 where
  pub in_place : c'.state ≡ new
  pub saved : store.save (json.marshal new) c.store ≡ (c'.store, ok tt)
  pub same_dir : c'.dir ≡ c.dir

module _ {S E J : Type 0} ⦃store : BlobStore S E⦄ ⦃json : Codec J⦄
    (returns : SaveReturns store) where
  commit_cases :
      (new : CatalogState) (undo : CatalogState → CatalogState) (c : Catalog S)
      → ((c' : Catalog S) × (commit {E = E} {J = J} new undo c ≡ (c', ok tt))
          × IsCommitted store json c new c')
        ⊎ ((e : E) × (c' : Catalog S) × (commit {E = E} {J = J} new undo c
              ≡ (c', err (save_error e)))
            × (c'.state ≡ undo new))
  unfolding commit persist
  commit_cases new undo c =
      let r = store.save (json.marshal new) c.store in
      elim (returned r.1 (returns (json.marshal new) c.store)) [
        | inl (a, fine) ↦ inl (
          record c { state = new; store = r.0 },
          ground (arith, fine),
          record { in_place = refl; saved = ground (arith, fine); same_dir = refl },
        )
        | inr (e, failed) ↦
            inr (e, record c { state = undo new; store = r.0 }, ground (arith, failed), refl)
      ]

  -- Where the store's save returns, CreateTable either records the new table under its name, with the
  -- next file name and the next id counted on, leaves every other table alone and has the new document
  -- saved, or it returns an error whose cause holds, with the counter and the map of tables as they were.
  pub create_table_cases :
      (c : Catalog S) (name : List ℕ) (schema : List Column)
      → ((t : TableMeta) × (c' : Catalog S) × (create_table {E = E} {J = J} name schema c
            ≡ (c', ok t))
          × (t ≡ table_of name schema c.state.next_id)
          × (lookup name c.state.tables ≡ none)
          × IsUpdated name t c.state.tables c'.state.tables
          × (c'.state.next_id ≡ u32 (c.state.next_id + 1))
          × IsCommitted store json c c'.state c')
        ⊎ ((e : CatalogError E J) × (c' : Catalog S) × (create_table {E = E} {J = J} name schema c
              ≡ (c', err e))
            × TableCause c name schema e
            × SameState c'.state c.state)
  unfolding create_table
  create_table_cases c name schema = elim (Bool-cases (length name == 0)) [
    | inl empty ↦ inr (empty_name, c, ground (arith, empty), ground (arith, empty), same c)
    | inr named ↦ elim (Bool-cases (length schema == 0)) [
      | inl bare ↦ inr (no_columns, c, ground (arith, named, bare), ground (arith, bare), same c)
      | inr columned ↦ elim (Option-cases (lookup name c.state.tables)) [
        | inr (t, found) ↦
            inr (table_exists, c, ground (arith, named, columned, found), (t, found), same c)
        | inl absent ↦
            let id = c.state.next_id in
            let t = table_of name schema id in
            let new : CatalogState = record {
              next_id = u32 (id + 1);
              tables = insert name t c.state.tables;
            } in
            let undo : CatalogState → CatalogState =
              λ s. record { next_id = id; tables = remove name s.tables } in
            elim (commit_cases new undo c) [
              | inl (c', fine, k) ↦ inl (
                t,
                c',
                ground (arith, named, columned, absent, fine),
                refl,
                absent,
                rw (k.in_place) (updated name t c.state.tables),
                rw (k.in_place) refl,
                record { in_place = refl; saved = rw (k.in_place) k.saved; same_dir = k.same_dir },
              )
              | inr (e, c', failed, back) ↦ inr (
                save_error e,
                c',
                ground (arith, named, columned, absent, failed),
                tt,
                rw back (record {
                  same_id = refl;
                  same_tables = λ k. removed name t c.state.tables k absent;
                }),
              )
            ]
      ]
    ]
  ]

  -- Where the store's save returns, CreateIndex either appends the new index, with the next file name,
  -- to the indexes of a table that has the column and no index of that name, leaves every other table
  -- alone and has the new document saved, or it returns an error whose cause holds, with the counter
  -- and the map of tables as they were.
  pub create_index_cases :
      (c : Catalog S) (table name : List ℕ) (column : ℕ)
      → ((im : IndexMeta) × (c' : Catalog S) × (tm : TableMeta) × (create_index {E = E} {J = J}
              table name column c
            ≡ (c', ok im))
          × (im ≡ record { name = name; column = column; file = file_name c.state.next_id })
          × (lookup table c.state.tables ≡ some tm)
          × ((column < length tm.schema) × (has_index name tm.indexes ≡ false))
          × IsUpdated table
              (record tm { indexes = tm.indexes ++ im ∷ [] })
              c.state.tables
              c'.state.tables
          × (c'.state.next_id ≡ u32 (c.state.next_id + 1))
          × IsCommitted store json c c'.state c')
        ⊎ ((e : CatalogError E J) × (c' : Catalog S) × (create_index {E = E} {J = J} table name
                column c
              ≡ (c', err e))
            × IndexCause c table name column e
            × SameState c'.state c.state)
  unfolding create_index add_index
  create_index_cases c table name column = elim (Bool-cases (length name == 0)) [
    | inl empty ↦ inr (empty_name, c, ground (arith, empty), ground (arith, empty), same c)
    | inr named ↦ elim (Option-cases (lookup table c.state.tables)) [
      | inl absent ↦ inr (table_not_found, c, ground (arith, named, absent), absent, same c)
      | inr (tm, found) ↦ elim (Bool-cases (leb (2 ^ 63) column || leb (length tm.schema) column)) [
        | inl out ↦ inr (
          bad_column,
          c,
          ground (arith, named, found, out),
          (tm, found, ground (arith, out)),
          same c,
        )
        | inr inside ↦ elim (Bool-cases (has_index name tm.indexes)) [
          | inl taken ↦ inr (
            index_exists,
            c,
            ground (arith, named, found, inside, taken),
            (tm, found, taken),
            same c,
          )
          | inr free ↦
              let id = c.state.next_id in
              let im : IndexMeta = record { name = name; column = column; file = file_name id } in
              let t : TableMeta = record tm { indexes = tm.indexes ++ im ∷ [] } in
              let new : CatalogState = record {
                next_id = u32 (id + 1);
                tables = insert table t c.state.tables;
              } in
              let undo : CatalogState → CatalogState =
                λ s. record { next_id = id; tables = insert table tm s.tables } in
              elim (commit_cases new undo c) [
                | inl (c', fine, k) ↦ inl (
                  im,
                  c',
                  tm,
                  ground (arith, named, found, inside, free, fine),
                  refl,
                  found,
                  (ground (arith, inside), free),
                  rw (k.in_place) (updated table t c.state.tables),
                  rw (k.in_place) refl,
                  record {
                    in_place = refl;
                    saved = rw (k.in_place) k.saved;
                    same_dir = k.same_dir;
                  },
                )
                | inr (e, c', failed, back) ↦ inr (
                  save_error e,
                  c',
                  ground (arith, named, found, inside, free, failed),
                  tt,
                  rw back (record {
                    same_id = refl;
                    same_tables = λ k. restored table t tm c.state.tables k found;
                  }),
                )
              ]
        ]
      ]
    ]
  ]
