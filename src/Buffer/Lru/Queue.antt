-- ===== src/Buffer/Lru/Queue.antt =====
-- The replacer as a queue of frames, and the invariant by which its list and its map agree.
use mini_db.Base.{
  ℕ, ◌<◌, ◌≡◌, ◌≢◌, refl, Bool, true, false, List, [], ◌∷◌, ◌++◌, Option, none, some, map, ◌==◌,
  if◌then◌else◌, All, Bool-cases, inl, inr, arith,
}
use mathlib.Core.Path.{subst}
use mini_db.Base.Maps.{nat_key, lookup}
use mini_db.Buffer.Lru.{Element, Lru, remove_element, back}

-- The identity of the element that holds frame f.
unfoldable pub id_of : ℕ → List Element → Option ℕ
id_of f [] = none
id_of f (x ∷ xs) = if x.value == f then some x.id else id_of f xs

abbrev pub Apart : Element → Element → Type 0
Apart x y = (y.id ≢ x.id) × (y.value ≢ x.value)

abbrev pub Distinct : List Element → Type 0
Distinct [] = Unit
Distinct (x ∷ xs) = All (Apart x) xs × Distinct xs

-- The map finds exactly the elements of the list; no two elements share an identity or a frame.
pub record Agrees (r : Lru) : Type 0 where
  pub linked : (f : ℕ) → lookup f r.index ≡ id_of f r.order
  pub distinct : Distinct r.order
  pub old : All (λ x. x.id < r.fresh) r.order

abbrev pub queue : Lru → List ℕ
queue r = map (λ x. x.value) r.order

unfoldable pub member : ℕ → List ℕ → Bool
member f [] = false
member f (g ∷ q) = if g == f then true else member f q

unfoldable pub without : ℕ → List ℕ → List ℕ
without f [] = []
without f (g ∷ q) = if g == f then q else g ∷ without f q

abbrev pub values : List Element → List ℕ
values = map (λ x. x.value)

pub id_of-none :
    (f : ℕ) (xs : List Element)
    → id_of f xs ≡ none
    → (member f (values xs) ≡ false) × All (λ x. x.value ≢ f) xs
unfolding id_of member
id_of-none f [] h = (refl, tt)
id_of-none f (x ∷ xs) h = ground (arith, id_of-none f xs)

pub id_of-some : (f e : ℕ) (xs : List Element) → id_of f xs ≡ some e → member f (values xs) ≡ true
unfolding id_of member
id_of-some f e [] h = cc
id_of-some f e (x ∷ xs) h = ground (arith, id_of-some f e xs)

pub id_of_absent : (f : ℕ) (xs : List Element) → All (λ x. x.value ≢ f) xs → id_of f xs ≡ none
unfolding id_of
id_of_absent f [] h = refl
id_of_absent f (x ∷ xs) h = ground (arith, id_of_absent f xs h.1)

-- The identity found is that of an element of the list.
pub All-id_of :
    (P : Element → Type 0) (f e : ℕ) (xs : List Element)
    → All P xs
    → id_of f xs ≡ some e
    → (x : Element) × (x.id ≡ e) × (x.value ≡ f) × P x
unfolding id_of
All-id_of P f e [] h i = cc
All-id_of P f e (x ∷ xs) h i = elim (Bool-cases (x.value == f)) [
  | inl same ↦ (x, ground arith, ground arith, h.0)
  | inr other ↦ All-id_of P f e xs h.1 (ground arith)
]

pub All-remove_element :
    (P : Element → Type 0) (e : ℕ) (xs : List Element) → All P xs → All P (remove_element e xs)
unfolding remove_element
All-remove_element P e [] h = tt
All-remove_element P e (x ∷ xs) h = elim (Bool-cases (x.id == e)) [
  | inl same ↦ rw same h.1
  | inr other ↦ rw other (h.0, All-remove_element P e xs h.1)
]

pub Distinct-remove_element :
    (e : ℕ) (xs : List Element) → Distinct xs → Distinct (remove_element e xs)
unfolding remove_element
Distinct-remove_element e [] h = tt
Distinct-remove_element e (x ∷ xs) h = elim (Bool-cases (x.id == e)) [
  | inl same ↦ rw same h.1
  | inr other ↦ rw other (All-remove_element (Apart x) e xs h.0, Distinct-remove_element e xs h.1)
]

All-values : (x : Element) (xs : List Element) → All (Apart x) xs → All (λ y. y.value ≢ x.value) xs
All-values x [] h = tt
All-values x (y ∷ xs) h = (h.0.1, All-values x xs h.1)

-- Removing the element of a frame removes the frame from the queue.
pub values-remove_element :
    (f e : ℕ) (xs : List Element)
    → Distinct xs
    → id_of f xs ≡ some e
    → values (remove_element e xs) ≡ without f (values xs)
unfolding id_of remove_element without
values-remove_element f e [] d h = refl
values-remove_element f e (x ∷ xs) d h = elim (Bool-cases (x.value == f)) [
  | inl same ↦ ground arith
  | inr other ↦
      let found : id_of f xs ≡ some e = ground arith in
      let (y, y_id, y_value, apart) = All-id_of (Apart x) f e xs d.0 found in
      ground (arith, values-remove_element f e xs d.1 found)
]

-- And the map that forgets the frame still agrees with the list.
pub id_of-remove_element :
    (f e g : ℕ) (xs : List Element)
    → Distinct xs
    → id_of f xs ≡ some e
    → id_of g (remove_element e xs) ≡ (if f == g then none else id_of g xs)
unfolding id_of remove_element
id_of-remove_element f e g [] d h = cc
id_of-remove_element f e g (x ∷ xs) d h = elim (Bool-cases (x.value == f)) [
  | inl same ↦ ground (arith, id_of_absent x.value xs (All-values x xs d.0))
  | inr other ↦
      let found : id_of f xs ≡ some e = ground arith in
      let (y, y_id, y_value, apart) = All-id_of (Apart x) f e xs d.0 found in
      ground (arith, id_of-remove_element f e g xs d.1 found)
]

All-back :
    (P : Element → Type 0) (xs : List Element) (y : Element) → All P xs → back xs ≡ some y → P y
unfolding back
All-back P [] y a h = cc
All-back P (x ∷ []) y a h = let same : x ≡ y = cc in subst P same a.0
All-back P (x ∷ z ∷ xs) y a h = All-back P (z ∷ xs) y a.1 h

-- The last element of a list without repetitions is the one that its frame finds, and removing it
-- leaves the queue without its end.
pub back-last :
    (xs : List Element) (y : Element)
    → Distinct xs
    → back xs ≡ some y
    → (id_of y.value xs ≡ some y.id) × (values xs ≡ values (remove_element y.id xs) ++ y.value ∷ [])
unfolding id_of remove_element back
back-last [] y d h = cc
back-last (x ∷ []) y d h = ground arith
back-last (x ∷ z ∷ xs) y d h =
    let apart = All-back (Apart x) (z ∷ xs) y d.0 h in
    let ih = back-last (z ∷ xs) y d.1 h in ground (arith, ih, apart)
