-- ===== src/Access/Heap/Pile.antt =====
-- The pile of tuples that a heap's pages stand for.
use native.Mathlib.Decide.{dec_lt}
use mathlib.Core.Path.{subst}
use mini_db.Base.{
  some-length, ℕ, suc, ◌<◌, ◌≡◌, refl, sym, ap, ◌∙◌, inl, inr, List, [], ◌∷◌, ◌++◌, append_assoc,
  append-nil, length, All, Option, none, some, get_elem?, length-append, All-append, arith,
  Option-cases,
}
use mini_db.Page.Slotted.{slot_count}
use mini_db.Page.Slotted.Insert.{slot_count_lem}
use mini_db.Page.Slotted.Layout.{IsSlotted, tuples}
use mini_db.Page.Slotted.Laws.{IsAppended}
use mini_db.Page.Slotted.Reads.{length-tuples, get_elem?-append_left, get_elem?-snoc}
use mini_db.Access.Heap.{Tid}
use mini_db.Access.Heap.Ends.{get_elem?-past, All-left}

-- The tuples of a page, in slot order.
abbrev pub rows : List ℕ → List (List ℕ)
rows b = tuples b (slot_count b)

abbrev pub IsPage : List ℕ → Type 0
IsPage b = IsSlotted b (slot_count b)

-- The tuples of all pages, in the order of the pages.
unfoldable pub all_rows : List (List ℕ) → List (List ℕ)
all_rows [] = []
all_rows (b ∷ bs) = rows b ++ all_rows bs

abbrev pub slot_of : Option (List ℕ) → ℕ → Option (List ℕ)
slot_of none i = none
slot_of (some b) i = get_elem? (rows b) i

-- The tuple that a tuple id addresses.
abbrev pub row_at : List (List ℕ) → Tid → Option (List ℕ)
row_at bs tid = slot_of (get_elem? bs tid.page) tid.slot

-- Pages `new` are pages `old` with one tuple more, which `tid` addresses.
pub record HasNew (old : List (List ℕ)) (src : List ℕ) (tid : Tid) (new : List (List ℕ))
    : Type 0 where
  pub paged : All IsPage new
  pub appended : all_rows new ≡ all_rows old ++ src ∷ []
  pub fresh : row_at old tid ≡ none
  pub found : row_at new tid ≡ some src
  pub others : (o : Tid) (r : List ℕ) → row_at old o ≡ some r → row_at new o ≡ some r

pub all_rows-append : (bs cs : List (List ℕ)) → all_rows (bs ++ cs) ≡ all_rows bs ++ all_rows cs
unfolding all_rows
all_rows-append [] cs = refl
all_rows-append (b ∷ bs) cs =
    ap (λ r. rows b ++ r) (all_rows-append bs cs)
    ∙ sym (append_assoc (rows b) (all_rows bs) (all_rows cs))

all_rows-single : (b : List ℕ) → all_rows (b ∷ []) ≡ rows b
unfolding all_rows
all_rows-single b = append-nil (rows b)

pub row_at-page :
    (bs : List (List ℕ)) (o : Tid) (b : List ℕ)
    → get_elem? bs o.page ≡ some b
    → row_at bs o ≡ get_elem? (rows b) o.slot
row_at-page bs o b h = ap (λ x. slot_of x o.slot) h

row_at-some :
    (bs : List (List ℕ)) (o : Tid) (r : List ℕ)
    → row_at bs o ≡ some r
    → (b : List ℕ) × (get_elem? bs o.page ≡ some b) × (get_elem? (rows b) o.slot ≡ some r)
row_at-some bs o r h = elim (Option-cases (get_elem? bs o.page)) [
  | inl absent ↦ cc (sym (ap (λ x. slot_of x o.slot) absent) ∙ h)
  | inr (b, here) ↦ (b, here, sym (row_at-page bs o b here) ∙ h)
]

-- Where pages only change at the end, the tuples before stay.
row_at-kept :
    (ys cs ds : List (List ℕ)) (o : Tid)
    → o.page < length ys
    → row_at (ys ++ ds) o ≡ row_at (ys ++ cs) o
row_at-kept ys cs ds o h =
    ap (λ x. slot_of x o.slot)
      (get_elem?-append_left ys ds o.page h ∙ sym (get_elem?-append_left ys cs o.page h))

rows-IsAppended :
    (b c src : List ℕ) (n : ℕ)
    → IsAppended b n src c
    → slot_count b ≡ n
    → rows c ≡ rows b ++ src ∷ []
rows-IsAppended b c src n k e =
    ap (tuples c) (slot_count_lem c (suc n) k.well_formed)
    ∙ (k.contents ∙ ap (λ m. tuples b m ++ src ∷ []) (sym e))

pub IsSlotted-IsPage : (b : List ℕ) (n : ℕ) → IsSlotted b n → IsPage b
IsSlotted-IsPage b n k = subst (IsSlotted b) (sym (slot_count_lem b n k)) k

pub IsAppended-IsPage : (b c src : List ℕ) (n : ℕ) → IsAppended b n src c → IsPage c
IsAppended-IsPage b c src n k = IsSlotted-IsPage c (suc n) k.well_formed

-- The tuple on the last page.
pub HasNew-last :
    (ys : List (List ℕ)) (b c src : List ℕ)
    → All IsPage (ys ++ b ∷ [])
    → IsAppended b (slot_count b) src c
    → HasNew (ys ++ b ∷ []) src (record { page = length ys; slot = slot_count b }) (ys ++ c ∷ [])
HasNew-last ys b c src h k = record {
  paged =
      All-append IsPage ys (c ∷ []) (All-left IsPage ys (b ∷ []) h)
        (IsAppended-IsPage b c src (slot_count b) k, tt);
  appended =
      rw (all_rows-append, all_rows-append, all_rows-single, all_rows-single, more, append_assoc);
  fresh =
      row_at-page (ys ++ b ∷ []) new b (get_elem?-snoc ys b)
      ∙ get_elem?-past (rows b) (slot_count b) (omega (arith, length-tuples b (slot_count b)));
  found =
      row_at-page (ys ++ c ∷ []) new c (get_elem?-snoc ys c)
      ∙ (ap (λ r. get_elem? r (slot_count b)) more
          ∙ (ap (get_elem? (rows b ++ src ∷ [])) (sym (length-tuples b (slot_count b)))
              ∙ get_elem?-snoc (rows b) src));
  others = kept;
}
  where
    new : Tid
    new = record { page = length ys; slot = slot_count b }

    more : rows c ≡ rows b ++ src ∷ []
    more = rows-IsAppended b c src (slot_count b) k refl

    kept :
        (o : Tid) (r : List ℕ) → row_at (ys ++ b ∷ []) o ≡ some r → row_at (ys ++ c ∷ []) o ≡ some r
    kept o r e = elim (dec_lt o.page (length ys)) [
      | yes below ↦ row_at-kept ys (b ∷ []) (c ∷ []) o below ∙ e
      | no above ↦
          let (d, here, found) = row_at-some (ys ++ b ∷ []) o r e in
          let last : o.page ≡ length ys =
            omega (arith, some-length (ys ++ b ∷ []) o.page d here, length-append ys (b ∷ [])) in
          let there : get_elem? (rows b) o.slot ≡ some r =
            sym (
              row_at-page (ys ++ b ∷ []) o b
                (ap (get_elem? (ys ++ b ∷ [])) last ∙ get_elem?-snoc ys b))
            ∙ e in
          row_at-page (ys ++ c ∷ []) o c (ap (get_elem? (ys ++ c ∷ [])) last ∙ get_elem?-snoc ys c)
          ∙ (ap (λ x. get_elem? x o.slot) more
              ∙ (get_elem?-append_left (rows b) (src ∷ []) o.slot
                    (some-length (rows b) o.slot r there)
                  ∙ there))
    ]

-- The tuple on a page of its own.
pub HasNew-next :
    (bs : List (List ℕ)) (b c src : List ℕ)
    → All IsPage bs
    → IsSlotted b 0
    → IsAppended b 0 src c
    → HasNew bs src (record { page = length bs; slot = 0 }) (bs ++ c ∷ [])
unfolding tuples
HasNew-next bs b c src h z k = record {
  paged = All-append IsPage bs (c ∷ []) h (IsAppended-IsPage b c src 0 k, tt);
  appended = rw (all_rows-append, all_rows-single, more);
  fresh = ap (λ x. slot_of x 0) (get_elem?-past bs (length bs) (omega arith));
  found =
      row_at-page (bs ++ c ∷ []) (record { page = length bs; slot = 0 }) c (get_elem?-snoc bs c)
      ∙ ap (λ r. get_elem? r 0) more;
  others = λ o r e.
      let (d, here, there) = row_at-some bs o r e in
      row_at-page (bs ++ c ∷ []) o d
        (get_elem?-append_left bs (c ∷ []) o.page (some-length bs o.page d here) ∙ here)
      ∙ there;
}
  where
    more : rows c ≡ src ∷ []
    more = ap (tuples c) (slot_count_lem c 1 k.well_formed) ∙ k.contents

-- A page without tuples at the end adds none.
pub all_rows-blank :
    (bs : List (List ℕ)) (b : List ℕ) → IsSlotted b 0 → all_rows (bs ++ b ∷ []) ≡ all_rows bs
unfolding tuples
all_rows-blank bs b h =
    let blank : rows b ≡ [] = ap (tuples b) (slot_count_lem b 0 h) in
    rw (all_rows-append, all_rows-single, blank, append-nil)

pub row_at-blank :
    (bs : List (List ℕ)) (b : List ℕ) (o : Tid)
    → IsSlotted b 0
    → row_at (bs ++ b ∷ []) o ≡ row_at bs o
unfolding tuples
row_at-blank bs b o h = elim (dec_lt o.page (length bs)) [
  | yes below ↦ ap (λ x. slot_of x o.slot) (get_elem?-append_left bs (b ∷ []) o.page below)
  | no above ↦
      absent above ∙ sym (ap (λ x. slot_of x o.slot) (get_elem?-past bs o.page (omega arith)))
]
  where
    blank : rows b ≡ []
    blank = ap (tuples b) (slot_count_lem b 0 h)

    absent : ¬ o.page < length bs → row_at (bs ++ b ∷ []) o ≡ none
    absent above = elim (dec_lt (length bs) o.page) [
      | yes past ↦
          ap (λ x. slot_of x o.slot)
            (get_elem?-past (bs ++ b ∷ []) o.page (omega (arith, length-append bs (b ∷ []))))
      | no there ↦
          let last : o.page ≡ length bs = omega arith in
          row_at-page (bs ++ b ∷ []) o b (ap (get_elem? (bs ++ b ∷ [])) last ∙ get_elem?-snoc bs b)
          ∙ ap (λ r. get_elem? r o.slot) blank
    ]
