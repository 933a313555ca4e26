-- ===== src/Catalog/Names.antt =====
-- Every relation of the catalog has a file of its own: file names are injective in the id, and the ids
-- in use lie below the counter.
use mini_db.Base.{
  ℕ, zero, suc, ◌+◌, ◌-◌, ◌*◌, ◌/◌, ◌%◌, ◌^◌, ◌<◌, ◌≡◌, ◌≢◌, refl, sym, ap, ◌∙◌, inl, inr, false,
  List, [], ◌∷◌, ◌++◌, some, ltb, ◌==◌, if◌then◌else◌, map, drop, append_assoc, All, Bool-cases,
  arith,
}
use mathlib.Core.Path.{subst}
use native.Mathlib.Nat.{mod-eq_of_lt}
use native.Mathlib.Decide.{dec_lt}
use mini_db.Base.Maps.{lookup, ◌=?◌}
use mini_db.Base.Outcome.{ok}
use mini_db.Base.Text.{text_key}
use mini_db.Base.Words.{u32}
use mini_db.Record.{Column}
use mini_db.Catalog.{
  Catalog, CatalogState, TableMeta, IndexMeta, BlobStore, Codec, create_table, create_index, digits,
  file_name,
}
use mini_db.Catalog.Laws.{SaveReturns, create_table_cases, create_index_cases}

-- The number in front of the first dot.
number : ℕ → List ℕ → ℕ
number acc [] = acc
number acc (c ∷ rest) =
    let next = number (acc * 10 + (c - 48)) rest in if c == 46 then acc else next

number-digits :
    (k n : ℕ) (rest : List ℕ) → n < 10 ^ k → number 0 (digits k n ++ rest) ≡ number n rest
unfolding number digits
number-digits zero n rest h = ap (λ m. number m rest) (omega arith)
number-digits (suc k) n rest h = elim (dec_lt n 10) [
  | yes small ↦ ground (arith, small)
  | no large ↦
      let d = 48 + n % 10 in
      let value : n / 10 * 10 + (d - 48) ≡ n = omega arith in
      let many : ltb n 10 ≡ false = ground arith in
      rw many (
        ap (number 0) (append_assoc (digits k (n / 10)) (d ∷ []) rest)
        ∙ (number-digits k (n / 10) (d ∷ rest) (grind arith)
            ∙ ground (arith, ap (λ (m : ℕ). number m rest) value)))
]

id_in : List ℕ → ℕ
id_in name = number 0 (drop 4 name)

id_in-file_name : (n : ℕ) → n < 2 ^ 32 → id_in (file_name n) ≡ n
unfolding file_name id_in number
id_in-file_name n h = number-digits 10 n (b'.' ∷ b'd' ∷ b'b' ∷ []) (omega arith)

file_name_injective : (m n : ℕ) → m < 2 ^ 32 → n < 2 ^ 32 → file_name m ≡ file_name n → m ≡ n
file_name_injective m n hm hn e = sym (id_in-file_name m hm) ∙ (ap id_in e ∙ id_in-file_name n hn)

-- The files of a table: its heap and its indexes.
abbrev pub files_of : TableMeta → List (List ℕ)
files_of t = t.file ∷ map (λ ix. ix.file) t.indexes

-- The name of a relation with an id below `n`.
abbrev pub IsBelow : ℕ → List ℕ → Type 0
IsBelow n f = (i : ℕ) × (i < n) × (f ≡ file_name i)

-- Every file of the catalog carries an id below the counter, which has not wrapped around.
pub record IsNumbered (s : CatalogState) : Type 0 where
  pub owned :
      (k : List ℕ) (t : TableMeta)
      → lookup k s.tables ≡ some t
      → All (IsBelow s.next_id) (files_of t)
  pub counted : s.next_id < 2 ^ 32

-- No file of the catalog is `f`.
abbrev pub IsFresh : CatalogState → List ℕ → Type 0
IsFresh s f =
    (k : List ℕ) (t : TableMeta) → lookup k s.tables ≡ some t → All (λ g. g ≢ f) (files_of t)

All-map :
    {P Q : List ℕ → Type 0}
    → ((f : List ℕ) → P f → Q f)
    → (fs : List (List ℕ)) → All P fs
    → All Q fs
All-map step [] h = tt
All-map step (f ∷ fs) h = (step f h.0, All-map step fs h.1)

IsNumbered-IsFresh : (s : CatalogState) → IsNumbered s → IsFresh s (file_name s.next_id)
IsNumbered-IsFresh s v k t found =
    All-map {Q = λ g. g ≢ file_name s.next_id}
      (λ f (i, lt, named) same. omega (
        arith,
        file_name_injective i s.next_id (omega (arith, v.counted, lt)) v.counted (sym named ∙ same),
        lt,
      ))
      (files_of t) (v.owned k t found)

grows : (n : ℕ) (fs : List (List ℕ)) → All (IsBelow n) fs → All (IsBelow (n + 1)) fs
grows n fs h = All-map (λ f (i, lt, named). (i, omega arith, named)) fs h

files_of-append :
    (ixs : List IndexMeta) (im : IndexMeta) (n : ℕ)
    → All (IsBelow n) (map (λ ix. ix.file) ixs)
    → IsBelow n im.file
    → All (IsBelow n) (map (λ ix. ix.file) (ixs ++ im ∷ []))
files_of-append [] im n h b = (b, tt)
files_of-append (ix ∷ ixs) im n h b = (h.0, files_of-append ixs im n h.1 b)

-- A change of one table to files with ids up to the counter keeps the numbering.
next-IsNumbered :
    (old new : CatalogState) (name : List ℕ) (t : TableMeta)
    → IsNumbered old
    → old.next_id + 1 < 2 ^ 32
    → new.next_id ≡ u32 (old.next_id + 1)
    → ((k : List ℕ) → lookup k new.tables ≡ (if name =? k then some t else lookup k old.tables))
    → All (IsBelow (old.next_id + 1)) (files_of t)
    → IsNumbered new
next-IsNumbered old new name t v room count entries owned =
    let next : new.next_id ≡ old.next_id + 1 = count ∙ mod-eq_of_lt room in
    record {
      owned = λ k u found.
          subst (λ n. All (IsBelow n) (files_of u)) (sym next)
            (elim (Bool-cases (name =? k)) [
              | inl here ↦
                  let same : t ≡ u = ground (arith, entries k, here, found) in
                  subst (λ x. All (IsBelow (old.next_id + 1)) (files_of x)) same owned
              | inr there ↦
                  grows old.next_id (files_of u)
                    (v.owned k u (ground (arith, entries k, there, found)))
            ]);
      counted = rw next room;
    }

module _ {S E J : Type 0} ⦃store : BlobStore S E⦄ ⦃json : Codec J⦄
    (returns : SaveReturns store) where
  -- While the id counter has not reached its end, a CreateTable that succeeds on a numbered catalog
  -- gives the table a file that no relation of the catalog had, and the catalog is numbered again.
  pub create_table-IsFresh :
      (c c' : Catalog S) (name : List ℕ) (schema : List Column) (t : TableMeta)
      → IsNumbered c.state
      → c.state.next_id + 1 < 2 ^ 32
      → create_table {E = E} {J = J} name schema c ≡ (c', ok t)
      → IsFresh c.state t.file × IsNumbered c'.state
  create_table-IsFresh c c' name schema t v room made =
      elim (create_table_cases {S = S} {E = E} {J = J} returns c name schema) [
        | inr (e, c₁, failed, cause, kept) ↦ cc
        | inl (t₁, c₁, done, is, absent, entries, count, k) ↦
            let same : t₁ ≡ t = cc in
            let same_c : c₁ ≡ c' = cc in
            let id = c.state.next_id in
            let owned : All (IsBelow (id + 1)) (files_of t₁) =
              subst (λ x. All (IsBelow (id + 1)) (files_of x)) (sym is)
                ((id, omega arith, refl), tt) in
            let named : file_name id ≡ t.file = ap (λ x. x.file) (sym is ∙ same) in
            (
              subst (IsFresh c.state) named (IsNumbered-IsFresh c.state v),
              subst (λ x. IsNumbered x.state) same_c
                  (next-IsNumbered c.state c₁.state name t₁ v room count entries owned),
            )
      ]

  -- While the id counter has not reached its end, a CreateIndex that succeeds on a numbered catalog
  -- gives the index a file that no relation of the catalog had, and the catalog is numbered again.
  pub create_index-IsFresh :
      (c c' : Catalog S) (table name : List ℕ) (column : ℕ) (im : IndexMeta)
      → IsNumbered c.state
      → c.state.next_id + 1 < 2 ^ 32
      → create_index {E = E} {J = J} table name column c ≡ (c', ok im)
      → IsFresh c.state im.file × IsNumbered c'.state
  create_index-IsFresh c c' table name column im v room made =
      elim (create_index_cases {S = S} {E = E} {J = J} returns c table name column) [
        | inr (e, c₁, failed, cause, kept) ↦ cc
        | inl (im₁, c₁, tm, done, is, found, fits, entries, count, k) ↦
            let same : im₁ ≡ im = cc in
            let same_c : c₁ ≡ c' = cc in
            let id = c.state.next_id in
            let t : TableMeta = record tm { indexes = tm.indexes ++ im₁ ∷ [] } in
            let old = grows id (files_of tm) (v.owned table tm found) in
            let new : IsBelow (id + 1) im₁.file = (id, omega arith, ap (λ x. x.file) is) in
            let owned : All (IsBelow (id + 1)) (files_of t) =
              (old.0, files_of-append tm.indexes im₁ (id + 1) old.1 new) in
            let named : file_name id ≡ im.file = ap (λ x. x.file) (sym is ∙ same) in
            (
              subst (IsFresh c.state) named (IsNumbered-IsFresh c.state v),
              subst (λ x. IsNumbered x.state) same_c
                  (next-IsNumbered c.state c₁.state table t v room count entries owned),
            )
      ]
