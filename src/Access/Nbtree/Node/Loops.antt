-- ===== src/Access/Nbtree/Node/Loops.antt =====
-- The two loops of the node operations, over the cells of an array that lies in a node.
use native.Mathlib.Decide.{dec_lt}
use mini_db.Base.{
  ℕ, zero, suc, ◌+◌, ◌-◌, ◌≤◌, ◌<◌, ◌≡◌, ◌≢◌, refl, sym, ap, ◌∙◌, List, [], ◌∷◌, ◌++◌, Option, some,
  take, drop, arith,
}
use mini_db.Access.Nbtree.Node.{count_down, count_up, ◌>>=◌}
use mini_db.Access.Nbtree.Node.Fields.{IsFrame}

-- The first k cells.
unfoldable pub tabulate : {A : Type 0} → ℕ → (ℕ → A) → List A
tabulate zero f = []
tabulate (suc k) f = f 0 ∷ tabulate k (λ i. f (suc i))

pub tabulate-cong :
    {A : Type 0} (k : ℕ) (f g : ℕ → A) → ((i : ℕ) → i < k → f i ≡ g i) → tabulate k f ≡ tabulate k g
unfolding tabulate
tabulate-cong zero f g h = refl
tabulate-cong (suc k) f g h =
    rw
      (
        h 0 (omega arith),
        tabulate-cong k (λ i. f (suc i)) (λ i. g (suc i)) (λ i l. h (suc i) (omega arith)),
      )
      refl

pub tabulate-insert :
    {A : Type 0} (k i : ℕ) (f g : ℕ → A) (x : A)
    → i ≤ k
    → ((j : ℕ) → j < i → g j ≡ f j)
    → g i ≡ x
    → ((j : ℕ) → i ≤ j → j < k → g (suc j) ≡ f j)
    → tabulate (suc k) g ≡ take i (tabulate k f) ++ x ∷ drop i (tabulate k f)
unfolding tabulate
tabulate-insert k zero f g x h below here above =
    rw (here, tabulate-cong k (λ j. g (suc j)) f (λ j l. above j (omega arith) l)) refl
tabulate-insert zero (suc i) f g x h below here above = absurd (omega arith)
tabulate-insert (suc k) (suc i) f g x h below here above =
    rw
      (
        below 0 (omega arith),
        tabulate-insert k i (λ j. f (suc j)) (λ j. g (suc j)) x (omega arith)
            (λ j l. below (suc j) (omega arith)) here
            (λ j l u. above (suc j) (omega arith) (omega arith)),
      )
      refl

pub take-tabulate :
    {A : Type 0} (k i : ℕ) (f : ℕ → A) → i ≤ k → take i (tabulate k f) ≡ tabulate i f
unfolding tabulate
take-tabulate k zero f h = refl
take-tabulate zero (suc i) f h = absurd (omega arith)
take-tabulate (suc k) (suc i) f h =
    ap (◌∷◌ (f 0)) (take-tabulate k i (λ j. f (suc j)) (omega arith))

pub drop-tabulate :
    {A : Type 0} (n i k : ℕ) (f g : ℕ → A)
    → n ≡ i + k
    → ((j : ℕ) → j < k → g j ≡ f (i + j))
    → drop i (tabulate n f) ≡ tabulate k g
unfolding tabulate
drop-tabulate n zero k f g e h =
    ap (λ z. tabulate z f) {x = n} {y = k} (omega arith)
    ∙ tabulate-cong k f g (λ j l. sym (h j l ∙ ap f {x = 0 + j} {y = j} (omega arith)))
drop-tabulate zero (suc i) k f g e h = absurd (omega arith)
drop-tabulate (suc n) (suc i) k f g e h =
    drop-tabulate n i k (λ j. f (suc j)) g (omega arith)
      (λ j l. h j l ∙ ap f {x = suc i + j} {y = suc (i + j)} (omega arith))

-- `Frame n m` says what else the loop leaves alone.
module _ {A : Type 0} (cell : List ℕ → ℕ → A) (cap : ℕ) (Frame : List ℕ → List ℕ → Type 0)
    (keep : (n : List ℕ) → Frame n n)
    (join : (n m l : List ℕ) → Frame n m → Frame m l → Frame n l) where
  -- A round that writes slot i, and only it.
  pub record Wrote (n : List ℕ) (i : ℕ) (a : A) (m : List ℕ) : Type 0 where
    pub frame : IsFrame m
    pub kept : Frame n m
    pub here : cell m i ≡ a
    pub others : (j : ℕ) → j ≢ i → j < cap → cell m j ≡ cell n j

  -- The cells from j - k to j moved up by one.
  pub record Shifted (n : List ℕ) (k j : ℕ) (m : List ℕ) : Type 0 where
    pub frame : IsFrame m
    pub kept : Frame n m
    pub below : (i : ℕ) → i + k ≤ j → cell m i ≡ cell n i
    pub moved : (i : ℕ) → j ≤ i + k → i < j → cell m (suc i) ≡ cell n i
    pub above : (i : ℕ) → j < i → i < cap → cell m i ≡ cell n i

  module _ (body : ℕ → List ℕ → Option (List ℕ))
      (round : (j : ℕ) (n : List ℕ)
        → IsFrame n
        → 0 < j
        → j < cap
        → (m : List ℕ) × (body j n ≡ some m) × Wrote n j (cell n (j - 1)) m) where
    pub count_down_lem :
        (k j : ℕ) (n : List ℕ)
        → IsFrame n
        → k ≤ j
        → j < cap
        → (m : List ℕ) × (count_down k j body n ≡ some m) × Shifted n k j m
    unfolding count_down
    count_down_lem zero j n f h b = (
      n,
      refl,
      record {
        frame = f;
        kept = keep n;
        below = λ i l. refl;
        moved = λ i l u. absurd (omega arith);
        above = λ i l u. refl;
      },
    )
    count_down_lem (suc k) j n f h b =
        let (m, run, w) = round j n f (omega arith) b in
        let (l, rest, s) = count_down_lem k (j - 1) m w.frame (omega arith) (omega arith) in
        (
          l,
          ap (λ o. o >>= λ x. count_down k (j - 1) body x) run ∙ rest,
          record {
            frame = s.frame;
            kept = join n m l w.kept s.kept;
            below = λ i u. s.below i (omega arith) ∙ w.others i (omega arith) (omega arith);
            moved = λ i u v. elim (dec_lt i (j - 1)) [
              | yes inner ↦ s.moved i (omega arith) inner ∙ w.others i (omega arith) (omega arith)
              | no last ↦
                  let top : suc i ≡ j = omega arith in
                  let source : j - 1 ≡ i = omega arith in
                  ap (cell l) top ∙ (s.above j (omega arith) b ∙ (w.here ∙ ap (cell n) source))
            ];
            above = λ i u v. s.above i (omega arith) v ∙ w.others i (omega arith) v;
          },
        )

  -- The cells from slot 0 on written with the values from `base` on, up to before j.
  pub record Filled (r : List ℕ) (value : ℕ → A) (from k : ℕ) (m : List ℕ) : Type 0 where
    pub frame : IsFrame m
    pub kept : Frame r m
    pub before : (i : ℕ) → i < from → cell m i ≡ cell r i
    pub written : (i : ℕ) → from ≤ i → i < from + k → cell m i ≡ value i

  module _ (body : ℕ → List ℕ → Option (List ℕ)) (value : ℕ → A) (base limit : ℕ)
      (within : limit ≤ cap)
      (round : (i : ℕ) (r : List ℕ)
        → IsFrame r
        → i < limit
        → (m : List ℕ) × (body (base + i) r ≡ some m) × Wrote r i (value i) m) where
    pub count_up_lem :
        (k i : ℕ) (r : List ℕ)
        → IsFrame r
        → i + k ≤ limit
        → (m : List ℕ) × (count_up k (base + i) body r ≡ some m) × Filled r value i k m
    unfolding count_up
    count_up_lem zero i r f h = (
      r,
      refl,
      record {
        frame = f;
        kept = keep r;
        before = λ j l. refl;
        written = λ j l u. absurd (omega arith);
      },
    )
    count_up_lem (suc k) i r f h =
        let (m, run, w) = round i r f (omega arith) in
        let (l, rest, s) = count_up_lem k (i + 1) m w.frame (omega arith) in
        (
          l,
          ap (λ o. o >>= λ x. count_up k (base + i + 1) body x) run
              ∙ (ap (λ z. count_up k z body m) {x = base + i + 1} {y = base + (i + 1)} (omega arith)
                  ∙ rest),
          record {
            frame = s.frame;
            kept = join r m l w.kept s.kept;
            before = λ j u. s.before j (omega arith) ∙ w.others j (omega arith) (omega arith);
            written = λ j u v. elim (dec_lt i j) [
              | yes later ↦ s.written j (omega arith) (omega arith)
              | no first ↦
                  let this : j ≡ i = omega arith in
                  ap (cell l) this ∙ (s.before i (omega arith) ∙ (w.here ∙ ap value (sym this)))
            ];
          },
        )
