-- ===== src/Page/Slotted/Layout.antt =====
-- The well-formed slotted page: where its directory and its tuples lie, and the list of tuples that
-- it stands for.
use mini_db.Base.{
  ℕ, zero, suc, ◌+◌, ◌*◌, ◌≤◌, ◌<◌, ◌≡◌, refl, ap₂, List, [], ◌∷◌, ◌++◌, length, arith,
}
use native.Mathlib.Decide.{dec_lt}
use mini_db.Base.Copy.{slice}
use mini_db.Base.Endian.{IsBytes}
use mini_db.Page.Header.{pd_lower, pd_upper}
use mini_db.Page.SlotEntry.{offset, entry_length}

-- The four bytes of slot i, and the tuple that they point at.
abbrev pub entry_bytes : List ℕ → ℕ → List ℕ
entry_bytes p i = slice (24 + 4 * i) 4 p

abbrev pub tuple_at : List ℕ → ℕ → List ℕ
tuple_at p i = slice (offset (entry_bytes p i)) (entry_length (entry_bytes p i)) p

-- The tuples of the first k slots lie edge to edge from `top` to the end of the page, the last
-- inserted one lowest.
abbrev pub Stacked : List ℕ → ℕ → ℕ → Type 0
Stacked p zero top = top ≡ 8192
Stacked p (suc k) top =
    (offset (entry_bytes p k) ≡ top) × Stacked p k (top + entry_length (entry_bytes p k))

-- A page that holds n tuples.
pub record IsSlotted (p : List ℕ) (n : ℕ) : Type 0 where
  pub size : length p ≡ 8192
  pub bytes_in_range : IsBytes p
  pub directory : pd_upper p ≡ 24 + 4 * n
  pub room : pd_upper p ≤ pd_lower p
  pub stacked : Stacked p n (pd_lower p)

-- The abstract page: the tuples in slot order.
unfoldable pub tuples : List ℕ → ℕ → List (List ℕ)
tuples p zero = []
tuples p (suc k) = tuples p k ++ tuple_at p k ∷ []

pub Stacked-le : (p : List ℕ) (k top : ℕ) → Stacked p k top → top ≤ 8192
Stacked-le p zero top h = omega arith
Stacked-le p (suc k) top h =
    omega (arith, Stacked-le p k (top + entry_length (entry_bytes p k)) h.1)

-- Each tuple lies inside the stack.
pub Stacked-within :
    (p : List ℕ) (k top i : ℕ)
    → Stacked p k top
    → i < k
    → (top ≤ offset (entry_bytes p i))
      × (offset (entry_bytes p i) + entry_length (entry_bytes p i) ≤ 8192)
Stacked-within p zero top i h lt = absurd (omega arith)
Stacked-within p (suc k) top i h lt = elim (dec_lt i k) [
  | yes below ↦
      let (lo, hi) = Stacked-within p k (top + entry_length (entry_bytes p k)) i h.1 below in
      (omega arith, hi)
  | no above ↦
      let last : i ≡ k = omega arith in
      let fits = Stacked-le p k (top + entry_length (entry_bytes p k)) h.1 in
      rw last (rw h.0 (omega arith), rw h.0 fits)
]

-- `q` has the first n entries of `p`, and the bytes of `p` from `low` on.
pub record Keeps (p q : List ℕ) (n low : ℕ) : Type 0 where
  pub entries : (i : ℕ) → i < n → entry_bytes q i ≡ entry_bytes p i
  pub contents : (o m : ℕ) → low ≤ o → slice o m q ≡ slice o m p

module _ {p q : List ℕ} {n low : ℕ} (keeps : Keeps p q n low) where
  pub Keeps-Stacked : (k top : ℕ) → k ≤ n → Stacked p k top → Stacked q k top
  Keeps-Stacked zero top h s = s
  Keeps-Stacked (suc k) top h s = rw (keeps.entries k h) (s.0, Keeps-Stacked k _ (omega arith) s.1)

  pub Keeps-tuples : (k top : ℕ) → k ≤ n → low ≤ top → Stacked p k top → tuples q k ≡ tuples p k
  unfolding tuples
  Keeps-tuples zero top h b s = refl
  Keeps-tuples (suc k) top h b s =
      ap₂ (λ ts t. ts ++ t ∷ [])
        (Keeps-tuples k (top + entry_length (entry_bytes p k)) (omega arith) (omega arith) s.1)
        (rw (keeps.entries k h) (keeps.contents _ _ (rw s.0 b)))
