-- ===== src/Page/Slotted/Reads.antt =====
-- Init, and reading tuples back through the slot directory.
use native.Mathlib.Decide.{dec_lt}
use mini_db.Base.{
  ℕ, zero, suc, ◌+◌, ◌-◌, ◌*◌, ◌≤◌, ◌<◌, ◌≡◌, refl, sym, ap, ap₂, ◌∙◌, inl, inr, List, [], ◌∷◌,
  ◌++◌, length, get_elem?, some, replicate, length-replicate, length-append, arith,
}
use mini_db.Base.Endian.{
  IsBytes, put_uint, length-put_uint, put_uint-IsBytes, get_uint-put_uint_self,
  get_uint-put_uint_apart,
}
use mini_db.Base.Outcome.{ok, panic}
use mini_db.Base.Words.{u16}
use mini_db.Page.Header.{pd_lower, pd_upper, set_pd_lower, set_pd_upper, set_pd_pagesize}
use mini_db.Page.Slotted.{
  slot_entry_unchecked, slot_entry_at, locate_tuple_by_entry, init, free_space, slots_from, slots,
}
use mini_db.Page.Slotted.Insert.{slot_count_lem, free_space_lem}
use mini_db.Page.Slotted.Layout.{
  entry_bytes, tuple_at, tuples, IsSlotted, Stacked-le, Stacked-within,
}

pub zeros-IsBytes : (n : ℕ) → IsBytes (replicate n 0)
zeros-IsBytes zero = tt
zeros-IsBytes (suc n) = (omega arith, zeros-IsBytes n)

-- Init turns every frame into a well-formed page that holds no tuple and has 8168 bytes of free
-- space, whatever the frame held.
pub init-IsSlotted :
    (p : List ℕ) → length p ≡ 8192 → IsSlotted (init p) 0 × (free_space (init p) ≡ 8168)
init-IsSlotted p h = (formatted, free_space_lem (init p) 0 formatted ∙ ap₂ ◌-◌ lower upper)
  where
    zeros : List ℕ
    zeros = replicate (length p) 0

    sized : length zeros ≡ 8192
    sized = length-replicate (length p) 0 ∙ h

    q : List ℕ
    q = put_uint 14 2 24 zeros

    r : List ℕ
    r = put_uint 12 2 8192 q

    lower : pd_lower (init p) ≡ 8192
    lower =
        unfold init pd_lower set_pd_lower set_pd_upper set_pd_pagesize in
        get_uint-put_uint_apart 12 2 18 2 8192 r (inl (omega arith))
        ∙ get_uint-put_uint_self 12 2 8192 q (omega (arith, sized, length-put_uint 14 2 24 zeros))
            (omega arith)

    upper : pd_upper (init p) ≡ 24
    upper =
        unfold init pd_upper set_pd_lower set_pd_upper set_pd_pagesize in
        get_uint-put_uint_apart 14 2 18 2 8192 r (inl (omega arith))
        ∙ (get_uint-put_uint_apart 14 2 12 2 8192 q (inr (omega arith))
            ∙ get_uint-put_uint_self 14 2 24 zeros (omega (arith, sized)) (omega arith))

    formatted : IsSlotted (init p) 0
    formatted = record {
      size =
          unfold init set_pd_lower set_pd_upper set_pd_pagesize in
          length-put_uint 18 2 8192 r
          ∙ (length-put_uint 12 2 8192 q ∙ (length-put_uint 14 2 24 zeros ∙ sized));
      bytes_in_range =
          unfold init set_pd_lower set_pd_upper set_pd_pagesize in
          put_uint-IsBytes 18 2 8192 r (
            put_uint-IsBytes 12 2 8192 q
              (put_uint-IsBytes 14 2 24 zeros (zeros-IsBytes (length p))));
      directory = upper;
      room = omega (arith, upper, lower);
      stacked = lower;
    }

pub length-tuples : (p : List ℕ) (k : ℕ) → length (tuples p k) ≡ k
unfolding tuples
length-tuples p zero = refl
length-tuples p (suc k) =
    omega (arith, length-tuples p k, length-append (tuples p k) (tuple_at p k ∷ []))

pub get_elem?-append_left {ℓ} :
    {A : Type ℓ} (xs ys : List A) (i : ℕ) → i < length xs → get_elem? (xs ++ ys) i ≡ get_elem? xs i
get_elem?-append_left [] ys i h = absurd (omega arith)
get_elem?-append_left (x ∷ xs) ys zero h = refl
get_elem?-append_left (x ∷ xs) ys (suc i) h = get_elem?-append_left xs ys i (omega arith)

pub get_elem?-snoc {ℓ} :
    {A : Type ℓ} (xs : List A) (y : A) → get_elem? (xs ++ y ∷ []) (length xs) ≡ some y
get_elem?-snoc [] y = refl
get_elem?-snoc (x ∷ xs) y = get_elem?-snoc xs y

pub get_elem?-tuples :
    (p : List ℕ) (k i : ℕ) → i < k → get_elem? (tuples p k) i ≡ some (tuple_at p i)
unfolding tuples
get_elem?-tuples p zero i h = absurd (omega arith)
get_elem?-tuples p (suc k) i h = elim (dec_lt i k) [
  | yes below ↦
      get_elem?-append_left (tuples p k) (tuple_at p k ∷ []) i (rw (length-tuples p k) below)
      ∙ get_elem?-tuples p k i below
  | no above ↦
      let last : i ≡ k = omega arith in
      ap (λ j. get_elem? (tuples p k ++ tuple_at p k ∷ []) j) (last ∙ sym (length-tuples p k))
      ∙ (get_elem?-snoc (tuples p k) (tuple_at p k) ∙ ap (λ j. some (tuple_at p j)) (sym last))
]

-- The slots from `i` on, with their entries.
unfoldable pub entry_list : ℕ → ℕ → List ℕ → List (ℕ × List ℕ)
entry_list zero i p = []
entry_list (suc left) i p = (i, entry_bytes p i) ∷ entry_list left (i + 1) p

module _ (p : List ℕ) (n : ℕ) (s : IsSlotted p n) where
  pub slot_entry_unchecked_lem : (i : ℕ) → i < n → slot_entry_unchecked p i ≡ ok (entry_bytes p i)
  unfolding slot_entry_unchecked
  slot_entry_unchecked_lem i h =
      let position : u16 (24 + u16 (i * 4)) ≡ 24 + 4 * i =
        omega (arith, Stacked-le p n (pd_lower p) s.stacked, s.directory, s.room) in
      ground (arith, position, Stacked-le p n (pd_lower p) s.stacked, s.directory, s.room)

  -- On a well-formed page, the entry of each slot below the count is found, and locates the tuple that
  -- stands at the slot's place in the list of tuples.
  pub locate-tuples :
      (i : ℕ)
      → i < n
      → (entry tuple : List ℕ) × (slot_entry_at p i ≡ ok entry)
        × (locate_tuple_by_entry p entry ≡ ok tuple)
        × (get_elem? (tuples p n) i ≡ some tuple)
  unfolding slot_entry_at locate_tuple_by_entry
  locate-tuples i h = (
    entry_bytes p i,
    tuple_at p i,
    ground (arith, slot_count_lem p n s, slot_entry_unchecked_lem i h),
    ground (arith, Stacked-within p n (pd_lower p) i s.stacked h),
    get_elem?-tuples p n i h,
  )

  -- A slot index at or above the count panics.
  pub slot_entry_at_panics : (i : ℕ) → n ≤ i → slot_entry_at p i ≡ panic
  unfolding slot_entry_at
  slot_entry_at_panics i h = ground (arith, slot_count_lem p n s)

  slots_from-entries : (left i : ℕ) → i + left ≤ n → slots_from left i p ≡ ok (entry_list left i p)
  unfolding slots_from entry_list
  slots_from-entries zero i h = refl
  slots_from-entries (suc left) i h =
      rw (slot_entry_unchecked_lem i (omega arith), slots_from-entries left (i + 1) (omega arith))
        refl

  -- On a well-formed page Slots visits the slots below the count in order, each with its entry.
  pub slots-entries : slots p ≡ ok (entry_list n 0 p)
  unfolding slots
  slots-entries = rw (slot_count_lem p n s) (slots_from-entries n 0 (omega arith))
