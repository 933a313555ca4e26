-- ===== src/Disk/Tests.antt =====
-- The disk theorems applied to a file of one zeroed page, and to a failing write.
use mini_db.Base.{ℕ, ◌≡◌, refl, List, [], ◌∷◌, length, replicate, length-replicate, arith}
use mini_db.Base.Outcome.{ok, err}
use mini_db.Disk.{
  DiskManager, Io, fails, zero_page, read_page, write_page, allocate_page, open_file, io_error,
  not_whole_pages,
}
use mini_db.Disk.Pages.{page_of, IsDisk, write_page-others}
use mini_db.Disk.Laws.{
  zero_page-length, read_page-write_page, allocate_page_fails, open_file_after_partial,
}

-- One page, and what the system answers next.
abbrev one_page : List Io → DiskManager
one_page next = record { file = zero_page; num_pages = 1; answers = next }

one_page-IsDisk : (next : List Io) → IsDisk (one_page next)
one_page-IsDisk next = record { backed = omega (arith, zero_page-length); countable = omega arith }

unfoldable sevens : List ℕ
sevens = replicate 8192 7

sevens-length : length sevens ≡ 8192
unfolding sevens
sevens-length = length-replicate {A = ℕ} 8192 7

write_page-others_example :
    (page_of (write_page 1 sevens (one_page [])).0 0 ≡ page_of (one_page []) 0)
    × ((write_page 1 sevens (one_page [])).0.num_pages ≡ 1)
    × IsDisk (write_page 1 sevens (one_page [])).0
write_page-others_example =
    write_page-others (one_page []) 1 0 sevens (one_page-IsDisk []) (omega arith)
      (λ e. omega (arith, e))

read_page-write_page_example :
    ((read_page 0 ((write_page 0 sevens (one_page [])).0, zero_page)).0.1 ≡ sevens)
    × ((read_page 0 ((write_page 0 sevens (one_page [])).0, zero_page)).1 ≡ ok tt)
read_page-write_page_example =
    read_page-write_page (one_page []) 0 sevens zero_page (one_page-IsDisk []) sevens-length
      zero_page-length (omega arith) refl refl

allocate_page_fails_example :
    ((allocate_page (one_page (fails 5 ∷ []))).1 ≡ err io_error)
    × ((allocate_page (one_page (fails 5 ∷ []))).0.num_pages ≡ 1)
    × (page_of (allocate_page (one_page (fails 5 ∷ []))).0 0 ≡ page_of (one_page (fails 5 ∷ [])) 0)
    × IsDisk (allocate_page (one_page (fails 5 ∷ []))).0
allocate_page_fails_example =
    allocate_page_fails (one_page (fails 5 ∷ [])) 5 0 (one_page-IsDisk (fails 5 ∷ [])) (omega arith)
      refl (omega arith)

open_file_after_partial_example :
    open_file (allocate_page (one_page (fails 5 ∷ []))).0.file [] ≡ err not_whole_pages
open_file_after_partial_example =
    open_file_after_partial (one_page (fails 5 ∷ [])) 5 [] zero_page-length (omega arith) refl
      (omega arith) (omega arith)
