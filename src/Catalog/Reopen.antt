-- ===== src/Catalog/Reopen.antt =====
-- A change that the catalog accepted is there when its directory is opened again.
use mini_db.Base.{ℕ, ◌+◌, ◌≡◌, sym, ap, ◌∙◌, inl, inr, List, some, arith}
use mathlib.Core.Path.{subst}
use mini_db.Base.Outcome.{ok}
use mini_db.Base.Text.{text_key}
use mini_db.Base.Words.{u32}
use mini_db.Disk.{fine, first_answer, later_answers}
use mini_db.Record.{Column}
use mini_db.Catalog.{
  Catalog, CatalogState, Document, TableMeta, Codec, create_table, open_with, state_of,
}
use mini_db.Catalog.FileStore.{
  FileStore, StoreError, file_store, load_fine, save_atomic, save-ne-panic,
}
use mini_db.Catalog.Laws.{SameState, IsUpdated, IsCommitted, create_table_cases}

-- What the catalog relies on: Unmarshal of what MarshalIndent wrote for `s` gives the same counter and
-- the same map, in whatever order. It holds of every state whose strings are valid UTF-8.
abbrev pub RoundTrips : {J : Type 0} → Codec J → CatalogState → Type 0
RoundTrips json s =
    (d : Document) × (json.unmarshal (json.marshal s) ≡ ok d) × SameState (state_of d) s

module _ {J : Type 0} ⦃json : Codec J⦄ where
  committed-open_with :
      (c c' : Catalog FileStore) (new : CatalogState)
      → RoundTrips json new
      → IsCommitted file_store json c new c'
      → first_answer c'.store.answers ≡ fine
      → (c'' : Catalog FileStore) × (open_with {E = StoreError} {J = J} c'.dir c'.store ≡ ok c'')
        × SameState c''.state new
  unfolding open_with
  committed-open_with c c' new (d, read, same) k answer =
      let stored : c'.store.target ≡ some (json.marshal new) =
        elim (save_atomic (json.marshal new) c.store) [
          | inl (done, kept) ↦ sym (ap (λ r. r.0.target) k.saved) ∙ kept
          | inr (e, failed, kept) ↦ cc (sym failed ∙ ap (λ r. r.1) k.saved)
        ] in
      (
        record {
          dir = c'.dir;
          store = record c'.store { answers = later_answers c'.store.answers };
          state = state_of d;
        },
        ground (arith, load_fine c'.store answer, stored, read),
        same,
      )

  -- Over the JSON file, a table that CreateTable returned is in the catalog that openWith finds
  -- afterwards, with every table that was there before and the id counter counted on, if the file can
  -- be read and the codec gives back the counter and the map of the document that was written.
  pub open_with-create_table :
      (c c' : Catalog FileStore) (name : List ℕ) (schema : List Column) (t : TableMeta)
      → create_table {E = StoreError} {J = J} name schema c ≡ (c', ok t)
      → first_answer c'.store.answers ≡ fine
      → RoundTrips json c'.state
      → (c'' : Catalog FileStore) × (open_with {E = StoreError} {J = J} c'.dir c'.store ≡ ok c'')
        × IsUpdated name t c.state.tables c''.state.tables
        × (c''.state.next_id ≡ u32 (c.state.next_id + 1))
  open_with-create_table c c' name schema t made answer trips =
      elim (create_table_cases {J = J} save-ne-panic c name schema) [
        | inr (e, c₁, failed, cause, kept) ↦ cc
        | inl (t₁, c₁, done, is, absent, entries, count, k) ↦
            let same : t₁ ≡ t = cc in
            let same_c : c₁ ≡ c' = cc in
            let answer₁ : first_answer c₁.store.answers ≡ fine =
              subst (λ x. first_answer x.store.answers ≡ fine) (sym same_c) answer in
            let (c'', opened, kept) =
              committed-open_with c c₁ c₁.state
                (subst (λ x. RoundTrips json x.state) (sym same_c) trips) k answer₁ in
            (
              c'',
              subst (λ x. open_with {E = StoreError} {J = J} x.dir x.store ≡ ok c'') same_c opened,
              subst (λ x. IsUpdated name x c.state.tables c''.state.tables) same
                  (λ n. kept.same_tables n ∙ entries n),
              kept.same_id ∙ count,
            )
      ]
