-- ===== src/Access/Nbtree/Node/Search.antt =====
-- The binary search of a node's keys.
use native.Mathlib.Decide.{dec_lt}
use mini_db.Base.{
  ℕ, zero, suc, ◌+◌, ◌-◌, ◌/◌, ◌^◌, ◌≤◌, ◌<◌, ◌≡◌, ◌≢◌, refl, ap, ◌∙◌, ◌⊎◌, inl, inr, Bool, true,
  false, List, some, ◌==◌, Bool-cases, arith,
}
use mini_db.Base.Words.{u16}
use mini_db.Access.Nbtree.Node.{key_count, ordinal, search_loop, search, child_index, internal_cap}
use mini_db.Access.Nbtree.Node.Fields.{IsFrame, key, key_at_lem, key-lt}

-- The keys increase, as int64.
abbrev pub IsSorted : List ℕ → Type 0
IsSorted n = (i j : ℕ) → i < j → j < key_count n → ordinal (key n i) < ordinal (key n j)

-- The first p keys are less than k, and the others are not.
pub record IsLowerBound (n : List ℕ) (k p : ℕ) : Type 0 where
  pub inside : p ≤ key_count n
  pub below : (j : ℕ) → j < p → ordinal (key n j) < ordinal k
  pub above : (j : ℕ) → p ≤ j → j < key_count n → ordinal k ≤ ordinal (key n j)

pub ordinal_injective : (a b : ℕ) → a < 2 ^ 64 → b < 2 ^ 64 → ordinal a ≡ ordinal b → a ≡ b
ordinal_injective a b h l e = omega arith

module _ (n : List ℕ) (k : ℕ) (f : IsFrame n) (small : key_count n ≤ internal_cap)
    (sorted : IsSorted n) where
  -- Keys up to a smaller one are smaller, and from a larger one on not smaller.
  up_to :
      (mid j : ℕ)
      → mid < key_count n
      → ordinal (key n mid) < ordinal k
      → j < mid + 1
      → ordinal (key n j) < ordinal k
  up_to mid j h l b = elim (dec_lt j mid) [
    | yes before ↦ omega (arith, sorted j mid before h)
    | no at ↦ let e : j ≡ mid = omega arith in rw e l
  ]

  from_on :
      (mid j : ℕ)
      → ordinal k ≤ ordinal (key n mid)
      → mid ≤ j
      → j < key_count n
      → ordinal k ≤ ordinal (key n j)
  from_on mid j l b h = elim (dec_lt mid j) [
    | yes after ↦ omega (arith, sorted mid j after h)
    | no at ↦ let e : j ≡ mid = omega arith in rw e l
  ]

  search_loop_lem :
      (fuel lo hi : ℕ)
      → hi - lo ≤ fuel
      → lo ≤ hi
      → hi ≤ key_count n
      → ((j : ℕ) → j < lo → ordinal (key n j) < ordinal k)
      → ((j : ℕ) → hi ≤ j → j < key_count n → ordinal k ≤ ordinal (key n j))
      → (p : ℕ) × (search_loop fuel lo hi k n ≡ some p) × IsLowerBound n k p
  unfolding search_loop
  search_loop_lem zero lo hi h o b below above =
      let e : lo ≡ hi = omega arith in
      (
        lo,
        ground arith,
        record { inside = omega arith; below = below; above = λ j l u. above j (omega arith) u },
      )
  search_loop_lem (suc fuel) lo hi h o b below above = elim (dec_lt lo hi) [
    | no done ↦ (
      lo,
      ground arith,
      record { inside = omega arith; below = below; above = λ j l u. above j (omega arith) u },
    )
    | yes going ↦
        let mid = u16 (lo + hi) / 2 in
        let mid_eq : mid ≡ (lo + hi) / 2 = omega arith in
        let next : u16 (mid + 1) ≡ mid + 1 = omega arith in
        let read = key_at_lem n f mid (omega arith) in
        elim (dec_lt (ordinal (key n mid)) (ordinal k)) [
          | yes less ↦
              let (p, run, bound) =
                search_loop_lem fuel (mid + 1) hi (omega arith) (omega arith) b
                  (λ j l. up_to mid j (omega arith) less l) above in
              (p, ground (arith, going, read, less, next, run), bound)
          | no more ↦
              let (p, run, bound) =
                search_loop_lem fuel lo mid (omega arith) (omega arith) (omega arith) below
                  (λ j l u. from_on mid j (omega arith) l u) in
              (p, ground (arith, going, read, more, run), bound)
        ]
  ]

  -- A key that stands in the node stands at its lower bound.
  only_there :
      (p : ℕ)
      → IsLowerBound n k p
      → p < key_count n
      → key n p ≢ k
      → (j : ℕ) → j < key_count n
      → key n j ≢ k
  only_there p bound here miss j l e = elim (dec_lt j p) [
    | yes before ↦ omega (arith, bound.below j before, ap ordinal e)
    | no from ↦ elim (dec_lt p j) [
      | yes after ↦
          omega (arith, sorted p j after l, bound.above p (omega arith) here, ap ordinal e)
      | no at ↦ miss (ap (key n) {x = p} {y = j} (omega arith) ∙ e)
    ]
  ]

  -- On a node whose keys increase, search finds the lower bound of the key, without a panic, and reports whether
  -- the key stands there, which it does if it stands anywhere.
  pub search_cases :
      (p : ℕ) × (found : Bool) × (search k n ≡ some (p, found))
      × IsLowerBound n k p
      × (((found ≡ true) × (p < key_count n) × (key n p ≡ k))
          ⊎ ((found ≡ false) × ((j : ℕ) → j < key_count n → key n j ≢ k)))
  unfolding search
  search_cases =
      let (p, run, bound) =
        search_loop_lem (key_count n) 0 (key_count n) (omega arith) (omega arith) (omega arith)
          (λ j l. absurd (omega arith)) (λ j l u. absurd (omega arith)) in
      elim (dec_lt p (key_count n)) [
        | no past ↦ (
          p,
          false,
          ground (arith, run),
          bound,
          inr (refl, λ j l e. omega (arith, bound.below j (omega arith), ap ordinal e)),
        )
        | yes here ↦
            let read = key_at_lem n f p (omega arith) in
            elim (Bool-cases (key n p == k)) [
              | inl hit ↦ (
                p,
                true,
                ground (arith, run, read, hit),
                bound,
                inl (refl, here, ground (arith, hit)),
              )
              | inr miss ↦ (
                p,
                false,
                ground (arith, run, read, miss),
                bound,
                inr (refl, λ j l e. only_there p bound here (λ z. ground (arith, miss, z)) j l e),
              )
            ]
      ]

  -- On a node whose keys increase, childIndex counts the keys that are not greater than the key, without a panic,
  -- so that the child covers the key: a key equal to a separator goes right.
  pub child_index_cases :
      k < 2 ^ 64
      → (c : ℕ) × (child_index k n ≡ some c)
        × (c ≤ key_count n)
        × ((j : ℕ) → j < c → ordinal (key n j) ≤ ordinal k)
        × ((j : ℕ) → c ≤ j → j < key_count n → ordinal k < ordinal (key n j))
  unfolding child_index
  child_index_cases fits =
      let (p, found, run, bound, r) = search_cases in
      elim r [
        | inl (yes_found, here, hit) ↦
            let next : u16 (p + 1) ≡ p + 1 = omega arith in
            (
              p + 1,
              ground (arith, run, yes_found, next),
              omega arith,
              λ j l. elim (dec_lt j p) [
                | yes before ↦ omega (arith, bound.below j before)
                | no at ↦
                    let same : ordinal (key n j) ≡ ordinal k =
                      ap ordinal (ap (key n) {x = j} {y = p} (omega arith) ∙ hit) in
                    omega (arith, same)
              ],
              λ j l u. omega (arith, sorted p j (omega arith) u, ap ordinal hit),
            )
        | inr (not_found, absent) ↦ (
          p,
          ground (arith, run, not_found),
          bound.inside,
          λ j l. omega (arith, bound.below j l),
          λ j l u. elim (dec_lt (ordinal k) (ordinal (key n j))) [
            | yes more ↦ more
            | no equal ↦ absurd (
                absent j u (
                  ordinal_injective (key n j) k (key-lt n f j) fits
                    (omega (arith, bound.above j l u))))
          ],
        )
      ]
