-- ===== src/Access/Memory.antt =====
-- A pool in memory, which forgets what was not called dirty.
use native.Mathlib.Decide.{dec_lt}
use mini_db.Base.{
  ℕ, zero, suc, ◌+◌, ◌^◌, ◌<◌, ◌≤◌, Bool, true, false, ◌≡◌, refl, sym, ap, ◌∙◌, inl, inr, List, [],
  ◌∷◌, ◌++◌, length, get_elem?, get_or, set, some, ltb, if◌then◌else◌, length-append, length-set,
  arith,
}
use mathlib.Core.Path.{subst}
use mini_db.Base.Outcome.{ok, err}
use mini_db.Page.{new_page as zero_frame}
use mini_db.Access.Pager.{Pager, PagerLaws}

pub record Memory : Type 0 where
  pub live : List (List ℕ)
  pub clean : List (List ℕ)

pub data MemoryError : Type 0 where
  no_page full : MemoryError

-- A pool of fewer than `limit` pages.
abbrev pub limited_pager : ℕ → Pager Memory ℕ MemoryError
limited_pager limit = record {
  fetch_page = λ pid s. if ltb pid (length s.live) then (s, ok pid) else (s, err no_page);
  new_page = λ s.
      if ltb (length s.live + 1) limit
      then (
        record { live = s.live ++ zero_frame ∷ []; clean = s.clean ++ zero_frame ∷ [] },
        ok (length s.live, length s.live),
      )
      else (s, err full);
  unpin_page = λ pid dirty s.
      if dirty
      then (record { live = s.live; clean = set s.clean pid (get_or s.live pid zero_frame) }, ok tt)
      else (
        record { live = set s.live pid (get_or s.clean pid zero_frame); clean = s.clean },
        ok tt,
      );
  num_pages = λ s. length s.live;
  load = λ p s. get_or s.live p zero_frame;
  store = λ p b s. record { live = set s.live p b; clean = s.clean };
}

abbrev pub memory_pager : Pager Memory ℕ MemoryError
memory_pager = limited_pager (2 ^ 32)

pub get_elem?-get_or :
    (xs : List (List ℕ)) (i : ℕ) → i < length xs → get_elem? xs i ≡ some (get_or xs i zero_frame)
get_elem?-get_or [] i h = absurd (omega arith)
get_elem?-get_or (x ∷ xs) zero h = refl
get_elem?-get_or (x ∷ xs) (suc i) h = get_elem?-get_or xs i (omega arith)

pub set-get_or : (xs : List (List ℕ)) (i : ℕ) → set xs i (get_or xs i zero_frame) ≡ xs
set-get_or [] i = refl
set-get_or (x ∷ xs) zero = refl
set-get_or (x ∷ xs) (suc i) = ap (◌∷◌ x) (set-get_or xs i)

pub new_page-longer :
    (limit : ℕ) (s : Memory) → length s.live ≤ length ((limited_pager limit).new_page s).0.live
new_page-longer limit s = elim (dec_lt (length s.live + 1) limit) [
  | yes room ↦ ground (arith, length-append s.live (zero_frame ∷ []))
  | no packed ↦ ground arith
]

pub fetch_page-same : (s : Memory) (pid : ℕ) → ((limited_pager 0).fetch_page pid s).0 ≡ s
fetch_page-same s pid = ground arith

pub unpin_page-length :
    (s : Memory) (pid : ℕ) (dirty : Bool)
    → length ((limited_pager 0).unpin_page pid dirty s).0.live ≡ length s.live
unpin_page-length s pid true = refl
unpin_page-length s pid false = length-set s.live pid (get_or s.clean pid zero_frame)

abbrev pub limited_laws : (limit : ℕ) → limit ≤ 2 ^ 32 → PagerLaws (limited_pager limit)
limited_laws limit few = record {
  Valid = λ s. (length s.live < 2 ^ 32) × (length s.live ≡ length s.clean);
  Held = λ p pid s. (p ≡ pid) × (pid < length s.live);
  pages = λ s. s.live;
  declared = λ s. s.clean;
  num_pages_lem = λ s v. refl;
  few_pages = λ s v. v.0;
  load_lem = λ s p pid v h.
      subst (λ x. get_elem? s.live pid ≡ some (get_or s.live x zero_frame)) (sym h.0)
        (get_elem?-get_or s.live pid h.1);
  store_lem = λ s p pid b v h size. (
    (omega (arith, length-set s.live p b, v.0), length-set s.live p b ∙ v.1),
    (h.0, omega (arith, length-set s.live p b, h.1)),
    ap (λ x. set s.live x b) h.0,
    refl,
  );
  fetch_page_lem = λ pid s v. elim (dec_lt pid (length s.live)) [
    | yes inside ↦ inl (pid, s, ground arith, v, (refl, inside), refl, refl)
    | no outside ↦ inr (no_page, s, ground arith, v, refl, refl)
  ];
  new_page_lem = λ s v. elim (dec_lt (length s.live + 1) limit) [
    | yes room ↦ inl (
      length s.live,
      record { live = s.live ++ zero_frame ∷ []; clean = s.clean ++ zero_frame ∷ [] },
      ground arith,
      (
        omega (arith, length-append s.live (zero_frame ∷ [])),
        omega (
          arith,
          v.1,
          length-append s.live (zero_frame ∷ []),
          length-append s.clean (zero_frame ∷ []),
        ),
      ),
      (refl, omega (arith, length-append s.live (zero_frame ∷ []))),
      refl,
      refl,
    )
    | no packed ↦ inr (full, s, ground arith, v, refl, refl)
  ];
  unpin_dirty_lem = λ s p pid v h. (
    record { live = s.live; clean = set s.clean pid (get_or s.live pid zero_frame) },
    refl,
    (v.0, v.1 ∙ sym (length-set s.clean pid (get_or s.live pid zero_frame))),
    refl,
    ap (λ x. set s.clean pid (get_or s.live x zero_frame)) (sym h.0),
  );
  unpin_clean_lem = λ s p pid v h e.
      let kept : set s.live pid (get_or s.clean pid zero_frame) ≡ s.live =
        ap (λ x. set s.live pid (get_or x pid zero_frame)) (sym e) ∙ set-get_or s.live pid in
      (
        record { live = set s.live pid (get_or s.clean pid zero_frame); clean = s.clean },
        refl,
        (omega (arith, v.0, ap length kept), ap length kept ∙ v.1),
        kept,
        refl,
      );
  fetch_page_keeps = λ s t p pid qid r v h e.
      (h.0, subst (λ x. pid < length x.live) (sym (fetch_page-same s qid) ∙ ap (λ z. z.0) e) h.1);
  new_page_keeps = λ s t p pid r v h e. (
    h.0,
    subst (λ x. pid < length x.live) (ap (λ z. z.0) e)
        (omega (arith, new_page-longer limit s, h.1)),
  );
  store_keeps = λ s p q pid qid b h k. (h.0, omega (arith, length-set s.live q b, h.1));
  unpin_keeps = λ s t p pid qid dirty r v h apart e. (
    h.0,
    subst (λ x. pid < length x.live) (ap (λ z. z.0) e)
        (omega (arith, unpin_page-length s qid dirty, h.1)),
  );
}

abbrev pub memory_laws : PagerLaws memory_pager
memory_laws = limited_laws (2 ^ 32) (omega arith)
