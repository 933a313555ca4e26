-- ===== src/Access/Pooled/Listing.antt =====
-- The list of the values of a function at 0, …, n - 1.
use native.Mathlib.Decide.{ℕ_discrete}
use mini_db.Base.{
  ℕ, zero, suc, ◌+◌, ◌<◌, ◌≡◌, ◌≢◌, refl, sym, ap, ap₂, ◌∙◌, List, [], ◌∷◌, ◌++◌, some, length,
  length-append, set, get_elem?, arith,
}
use mini_db.Page.Slotted.Reads.{get_elem?-append_left, get_elem?-snoc}
use mini_db.Access.Heap.Ends.{set-last}
use mini_db.Access.Places.{set-append_left}

module _ {ℓ} {A : Type ℓ} where
  unfoldable pub upto : ℕ → (ℕ → A) → List A
  upto zero g = []
  upto (suc n) g = upto n g ++ g n ∷ []

  pub length-upto : (n : ℕ) (g : ℕ → A) → length (upto n g) ≡ n
  unfolding upto
  length-upto zero g = refl
  length-upto (suc n) g = omega (arith, length-append (upto n g) (g n ∷ []), length-upto n g)

  pub get_elem?-upto : (n i : ℕ) (g : ℕ → A) → i < n → get_elem? (upto n g) i ≡ some (g i)
  unfolding upto
  get_elem?-upto zero i g h = absurd (omega arith)
  get_elem?-upto (suc n) i g h = elim (ℕ_discrete i n) [
    | yes same ↦
        ap (get_elem? (upto n g ++ g n ∷ [])) (same ∙ sym (length-upto n g))
        ∙ (get_elem?-snoc (upto n g) (g n) ∙ ap (λ j. some (g j)) (sym same))
    | no other ↦
        get_elem?-append_left (upto n g) (g n ∷ []) i (omega (arith, length-upto n g))
        ∙ get_elem?-upto n i g (omega arith)
  ]

  pub upto_congr : (n : ℕ) (g h : ℕ → A) → ((i : ℕ) → i < n → g i ≡ h i) → upto n g ≡ upto n h
  unfolding upto
  upto_congr zero g h same = refl
  upto_congr (suc n) g h same =
      ap₂ (λ xs x. xs ++ x ∷ []) (upto_congr n g h (λ i l. same i (omega arith)))
        (same n (omega arith))

  pub set-upto :
      (n i : ℕ) (b : A) (g h : ℕ → A)
      → i < n
      → h i ≡ b
      → ((j : ℕ) → j < n → j ≢ i → h j ≡ g j)
      → upto n h ≡ set (upto n g) i b
  unfolding upto
  set-upto zero i b g h l here others = absurd (omega arith)
  set-upto (suc n) i b g h l here others = elim (ℕ_discrete i n) [
    | yes same ↦
        ap₂ (λ xs x. xs ++ x ∷ [])
          (upto_congr n h g (λ j k. others j (omega arith) (λ e. omega (arith, k, e, same))))
          (ap h (sym same) ∙ here)
        ∙ (sym (set-last (upto n g) (g n) b)
            ∙ ap (λ j. set (upto n g ++ g n ∷ []) j b) (length-upto n g ∙ sym same))
    | no other ↦
        ap₂ (λ xs x. xs ++ x ∷ [])
          (set-upto n i b g h (omega arith) here (λ j k o. others j (omega arith) o))
          (others n (omega arith) (λ e. other (sym e)))
        ∙ sym (set-append_left (upto n g) (g n ∷ []) i b (omega (arith, length-upto n g)))
  ]

  pub upto-next : (n : ℕ) (g : ℕ → A) → upto (n + 1) g ≡ upto n g ++ g n ∷ []
  unfolding upto
  upto-next n g = ap (λ m. upto m g) {x = n + 1} {y = suc n} (omega arith)
