-- ===== src/Access/Heap/Visits.antt =====
-- The tuples of a pile with their ids, and a callback that visits them.
use mini_db.Base.{
  ℕ, zero, suc, ◌+◌, ◌≤◌, ◌≡◌, refl, sym, ap, ◌∙◌, List, [], ◌∷◌, ◌++◌, length, get_elem?, drop,
  take, some, arith,
}
use mathlib.Core.Option.{some-injective}
use native.Mathlib.Nat.{zero-add, suc-add}
use mini_db.Base.Exec.{Exec, ◌>>◌, done, continue-cong, continue-continue}
use mini_db.Access.Heap.{Tid}
use mini_db.Access.Heap.Pile.{rows}

-- The tuples of a page with their ids, from slot `i` on.
unfoldable pub numbered : ℕ → ℕ → List (List ℕ) → List (Tid × List ℕ)
numbered pid i [] = []
numbered pid i (r ∷ rs) = (record { page = pid; slot = i }, r) ∷ numbered pid (i + 1) rs

-- The tuples of the pages with their ids, from page `pid` on.
unfoldable pub addressed : ℕ → List (List ℕ) → List (Tid × List ℕ)
addressed pid [] = []
addressed pid (b ∷ bs) = numbered pid 0 (rows b) ++ addressed (pid + 1) bs

drop-get {ℓ} :
    {A : Type ℓ} (xs : List A) (i : ℕ) (x : A)
    → get_elem? xs i ≡ some x
    → drop i xs ≡ x ∷ drop (suc i) xs
drop-get [] i x h = absurd cc
drop-get (y ∷ xs) zero x h = ap (λ z. z ∷ xs) (some-injective y x h)
drop-get (y ∷ xs) (suc i) x h = drop-get xs i x h

pub drop-next {ℓ} :
    {A : Type ℓ} (xs : List A) (i : ℕ) (x : A)
    → get_elem? xs i ≡ some x
    → drop i xs ≡ x ∷ drop (i + 1) xs
drop-next xs i x h = drop-get xs i x h ∙ ap (λ j. x ∷ drop j xs) {x = suc i} (omega arith)

pub take-append {ℓ} :
    {A : Type ℓ} (xs ys : List A) (n : ℕ) → take (length xs + n) (xs ++ ys) ≡ xs ++ take n ys
take-append [] ys n = rw zero-add refl
take-append (x ∷ xs) ys n = rw suc-add (ap (◌∷◌ x) (take-append xs ys n))

pub drop-past {ℓ} : {A : Type ℓ} (xs : List A) (i : ℕ) → length xs ≤ i → drop i xs ≡ []
drop-past [] zero h = refl
drop-past [] (suc i) h = refl
drop-past (x ∷ xs) zero h = absurd (omega arith)
drop-past (x ∷ xs) (suc i) h = drop-past xs i (omega arith)

module _ {T C : Type 0} (fn : Tid → List ℕ → Exec T C (Unit {0})) where
  -- The callback on each tuple in turn, until it stops the run.
  unfoldable pub visit_all : List (Tid × List ℕ) → Exec T C (Unit {0})
  visit_all [] = done tt
  visit_all ((tid, r) ∷ rest) = fn tid r >> visit_all rest

  pub visit_all-append :
      (xs ys : List (Tid × List ℕ)) (t : T)
      → visit_all (xs ++ ys) t ≡ (visit_all xs >> visit_all ys) t
  unfolding visit_all
  visit_all-append [] ys t = refl
  visit_all-append ((tid, r) ∷ xs) ys t =
      continue-cong (fn tid r t).0 (fn tid r t).1 (λ a. visit_all (xs ++ ys))
        (λ a. visit_all xs >> visit_all ys) (λ a t'. visit_all-append xs ys t')
      ∙ sym
          (continue-continue (fn tid r t).0 (fn tid r t).1 (λ a. visit_all xs) (λ a. visit_all ys))
