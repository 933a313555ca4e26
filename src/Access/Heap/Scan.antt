-- ===== src/Access/Heap/Scan.antt =====
-- Scan visits the pile in order.
use mini_db.Base.{ℕ, ◌≡◌, ◌⊎◌, List, take}
use mini_db.Base.Exec.{Exec}
use mini_db.Base.Outcome.{Outcome, ok, err, wrap_err}
use mini_db.Access.Pager.{Pager, PagerLaws}
use mini_db.Access.Heap.{Tid, ScanError, pool_error, scan_failed, stopped}
use mini_db.Access.Heap.Visits.{visit_all}

module _ {T C : Type 0} (fn : Tid → List ℕ → Exec T C (Unit {0})) where
  module _ {S P E : Type 0} {pager : Pager S P E} (laws : PagerLaws pager) where
    -- What a scan may come to: what the callback made of all the tuples, or an error of the pool
    -- after the callback took in a part of them.
    abbrev pub Reaches :
        (S → Type 0)
        → List (Tid × List ℕ)
        → T
        → ((S × T) × Outcome (ScanError E C) (Unit {0}))
        → Type 0
    Reaches good todo t result =
        (s' : S) × good s'
        × ((result ≡ ((s', (visit_all fn todo t).0), wrap_err stopped (visit_all fn todo t).1))
            ⊎ ((n : ℕ) × (t' : T) × (e : E) × (result
                  ≡ ((s', t'), err (scan_failed (pool_error e))))
                × (visit_all fn (take n todo) t ≡ (t', ok tt))))
