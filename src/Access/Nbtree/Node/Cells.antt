-- ===== src/Access/Nbtree/Node/Cells.antt =====
-- What equations between lists of cells say of the single cells.
use mathlib.Core.Path.{subst}
use mini_db.Base.{
  ℕ, zero, suc, ◌+◌, ◌-◌, ◌≤◌, ◌<◌, ◌≡◌, refl, sym, ap, ◌∙◌, List, [], ◌∷◌, ◌++◌, length, take,
  drop, ltb, ◌==◌, if◌then◌else◌, arith,
}
use mini_db.Access.Nbtree.Node.Loops.{tabulate, tabulate-insert}

-- κ' is κ with x put at place i of the first c cells.
pub record IsPut {A : Type 0} (c i : ℕ) (x : A) (κ κ' : ℕ → A) : Type 0 where
  pub below : (j : ℕ) → j < i → κ' j ≡ κ j
  pub here : κ' i ≡ x
  pub above : (j : ℕ) → i ≤ j → j < c → κ' (suc j) ≡ κ j

module _ {A : Type 0} where
  pub length-tabulate : (c : ℕ) (f : ℕ → A) → length (tabulate c f) ≡ c
  unfolding tabulate
  length-tabulate zero f = refl
  length-tabulate (suc c) f = ap suc (length-tabulate c (λ j. f (suc j)))

  head_or : A → List A → A
  head_or x [] = x
  head_or x (y ∷ ys) = y

  tail : List A → List A
  tail [] = []
  tail (y ∷ ys) = ys

  heads : (x y : A) (xs ys : List A) → ◌≡◌ {A = List A} (x ∷ xs) (y ∷ ys) → x ≡ y
  unfolding head_or
  heads x y xs ys e = ap (head_or x) e

  tails : (x y : A) (xs ys : List A) → ◌≡◌ {A = List A} (x ∷ xs) (y ∷ ys) → xs ≡ ys
  unfolding tail
  tails x y xs ys e = ap tail e

  pub tabulate_cells :
      (c : ℕ) (f g : ℕ → A) (j : ℕ) → tabulate c f ≡ tabulate c g → j < c → f j ≡ g j
  unfolding tabulate
  tabulate_cells zero f g j e h = absurd (omega arith)
  tabulate_cells (suc c) f g zero e h =
      heads (f 0) (g 0) (tabulate c (λ i. f (suc i))) (tabulate c (λ i. g (suc i))) e
  tabulate_cells (suc c) f g (suc j) e h =
      tabulate_cells c (λ i. f (suc i)) (λ i. g (suc i)) j
        (tails (f 0) (g 0) (tabulate c (λ i. f (suc i))) (tabulate c (λ i. g (suc i))) e)
        (omega arith)

  with_put : ℕ → A → (ℕ → A) → ℕ → A
  with_put i x f j = if ltb j i then f j else if j == i then x else f (j - 1)

  -- A list of cells with one cell put in.
  pub cells-IsPut :
      (c i : ℕ) (x : A) (f g : ℕ → A)
      → i ≤ c
      → tabulate (suc c) g ≡ take i (tabulate c f) ++ x ∷ drop i (tabulate c f)
      → IsPut c i x f g
  unfolding with_put
  cells-IsPut c i x f g h e = record {
    below = λ j l. cell j (omega arith) ∙ (ground arith);
    here = cell i (omega arith) ∙ (ground arith);
    above = λ j l u.
        cell (suc j) (omega arith) ∙ (ground (arith, ap f {x = suc j - 1} {y = j} (omega arith)));
  }
    where
      cell : (j : ℕ) → j < suc c → g j ≡ with_put i x f j
      cell j l =
          tabulate_cells (suc c) g (with_put i x f) j
            (e
              ∙ sym (
                  tabulate-insert c i f (with_put i x f) x h (λ m a. ground arith) (ground arith)
                    (λ m a b. ground (arith, ap f {x = suc m - 1} {y = m} (omega arith)))))
            l

  -- The cells of two halves.
  pub record IsHalved (c a b : ℕ) (f g h : ℕ → A) : Type 0 where
    pub total : c ≡ a + b
    pub left : (j : ℕ) → j < a → g j ≡ f j
    pub right : (j : ℕ) → j < b → h j ≡ f (a + j)

  pub cells-IsHalved :
      (c a b : ℕ) (f g h : ℕ → A)
      → tabulate c f ≡ tabulate a g ++ tabulate b h
      → IsHalved c a b f g h
  unfolding tabulate
  cells-IsHalved c zero b f g h e =
      let same : c ≡ b = sym (length-tabulate c f) ∙ (ap length e ∙ length-tabulate b h) in
      record {
        total = omega (arith, same);
        left = λ j l. absurd (omega arith);
        right = λ j l.
            sym (tabulate_cells b f h j (subst (λ z. tabulate z f ≡ tabulate b h) same e) l)
            ∙ ap f {x = j} {y = 0 + j} (omega arith);
      }
  cells-IsHalved zero (suc a) b f g h e = absurd (omega (arith, ap length e))
  cells-IsHalved (suc c) (suc a) b f g h e =
      let rest =
        cells-IsHalved c a b (λ j. f (suc j)) (λ j. g (suc j)) h
          (tails (f 0) (g 0) (tabulate c (λ i. f (suc i)))
            (tabulate a (λ i. g (suc i)) ++ tabulate b h) e) in
      let first =
        heads (f 0) (g 0) (tabulate c (λ i. f (suc i)))
          (tabulate a (λ i. g (suc i)) ++ tabulate b h) e in
      record {
        total = omega (arith, rest.total);
        left = λ j l. left c a b f g h (sym first) rest.left j l;
        right = λ j l. rest.right j l ∙ ap f {x = suc (a + j)} {y = suc a + j} (omega arith);
      }
    where
      left :
          (c a b : ℕ) (f g h : ℕ → A)
          → g 0 ≡ f 0
          → ((j : ℕ) → j < a → g (suc j) ≡ f (suc j))
          → (j : ℕ) → j < suc a
          → g j ≡ f j
      left c a b f g h z s zero l = z
      left c a b f g h z s (suc j) l = s j (omega arith)

  -- The second half behind a cell between them.
  abbrev pub behind : A → (ℕ → A) → ℕ → A
  behind x h zero = x
  behind x h (suc j) = h j

  pub around-IsHalved :
      (c a d : ℕ) (f g h : ℕ → A) (x : A)
      → tabulate c f ≡ tabulate a g ++ x ∷ tabulate d h
      → IsHalved c a (suc d) f g (behind x h)
  unfolding tabulate
  around-IsHalved c a d f g h x e = cells-IsHalved c a (suc d) f g (behind x h) e
