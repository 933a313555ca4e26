-- ===== src/Catalog/FileStore.antt =====
-- internal/catalog/store.go: the catalog's document in one JSON file. The two paths, the file and its
-- ".tmp" neighbour, are what they hold; the answers of the system to the coming calls are part of the
-- state, as for the heap files.
use mini_db.Base.{ℕ, List, Option, none, some, take, ◌≡◌, ◌≢◌, refl, ◌⊎◌, inl, inr, arith}
use mini_db.Base.Exec.{Exec, ◌>>◌}
use mini_db.Base.Outcome.{ok, err, panic}
use mini_db.Disk.{Io, fine, fails, first_answer, later_answers}
use mini_db.Catalog.{BlobStore}

pub record FileStore : Type 0 where
  pub target : Option (List ℕ)
  pub temp : Option (List ℕ)
  pub answers : List Io

pub data StoreError : Type 0 where
  read_failed write_failed rename_failed : StoreError

-- os.ReadFile(s.path): a file that does not exist is no error.
unfoldable pub load : Exec FileStore StoreError (Option (List ℕ))
load s = elim (first_answer s.answers) [
  | fine ↦ (record s { answers = later_answers s.answers }, ok s.target)
  | fails n ↦ (record s { answers = later_answers s.answers }, err read_failed)
]

-- os.WriteFile(tmp, data): a failure leaves the bytes before it.
unfoldable pub write_temp : List ℕ → Exec FileStore StoreError (Unit {0})
write_temp bytes s = elim (first_answer s.answers) [
  | fine ↦ (record s { answers = later_answers s.answers; temp = some bytes }, ok tt)
  | fails n ↦
      (record s { answers = later_answers s.answers; temp = some (take n bytes) }, err write_failed)
]

-- os.Rename(tmp, s.path)
unfoldable pub rename : Exec FileStore StoreError (Unit {0})
rename s = elim (first_answer s.answers) [
  | fine ↦ (record s { answers = later_answers s.answers; target = s.temp; temp = none }, ok tt)
  | fails n ↦ (record s { answers = later_answers s.answers }, err rename_failed)
]

unfoldable pub save : List ℕ → Exec FileStore StoreError (Unit {0})
save bytes = write_temp bytes >> rename

instance abbrev pub file_store : BlobStore FileStore StoreError
file_store = record { load = load; save = save }

-- Save returns. If it returns no error the file holds exactly the new bytes, and if it returns an error,
-- at whichever of its two steps and after however many bytes, the file holds what it held before.
pub save_atomic :
    (bytes : List ℕ) (s : FileStore)
    → (((save bytes s).1 ≡ ok tt) × ((save bytes s).0.target ≡ some bytes))
      ⊎ ((e : StoreError) × ((save bytes s).1 ≡ err e) × ((save bytes s).0.target ≡ s.target))
unfolding save write_temp rename
save_atomic bytes s = go (first_answer s.answers) refl (first_answer (later_answers s.answers)) refl
  where
    go :
        (a : Io)
        → first_answer s.answers ≡ a
        → (b : Io) → first_answer (later_answers s.answers) ≡ b
        → (((save bytes s).1 ≡ ok tt) × ((save bytes s).0.target ≡ some bytes))
          ⊎ ((e : StoreError) × ((save bytes s).1 ≡ err e) × ((save bytes s).0.target ≡ s.target))
    go (fails n) h b k = inr (write_failed, ground (arith, h), ground (arith, h))
    go fine h (fails n) k = inr (rename_failed, ground (arith, h, k), ground (arith, h, k))
    go fine h fine k = inl (ground (arith, h, k), ground (arith, h, k))

pub save-ne-panic : (bytes : List ℕ) (s : FileStore) → (save bytes s).1 ≢ panic
save-ne-panic bytes s e = elim (save_atomic bytes s) [
  | inl (done, kept) ↦ cc
  | inr (x, failed, kept) ↦ cc
]

pub load_fine :
    (s : FileStore)
    → first_answer s.answers ≡ fine
    → load s ≡ (record s { answers = later_answers s.answers }, ok s.target)
unfolding load
load_fine s h = ground (arith, h)
