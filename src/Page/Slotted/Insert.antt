-- ===== src/Page/Slotted/Insert.antt =====
-- InsertTuple: which page it leaves.
use mini_db.Base.{
  ℕ, ◌+◌, ◌-◌, ◌*◌, ◌≤◌, ◌≡◌, ◌∙◌, inl, List, length, take, drop, take-length, All-take, All-drop,
  arith,
}
use mini_db.Base.Copy.{splice, length-slice, slice-splice_apart}
use mini_db.Base.Endian.{IsByte, get_uint, get_uint_congr}
use mini_db.Base.Outcome.{ok}
use mini_db.Page.Header.{pd_lower, pd_upper, set_pd_lower, set_pd_upper}
use mini_db.Page.SlotEntry.{set_offset, set_entry_length}
use mini_db.Page.SlotEntry.Laws.{IsEntry}
use mini_db.Page.Slotted.{
  slot_count, slot_entry_unchecked, slot_position, free_space, place_tuple, insert_tuple,
}
use mini_db.Page.Slotted.Layout.{entry_bytes, IsSlotted, Stacked-le}

pub slot_count_lem : (p : List ℕ) (n : ℕ) → IsSlotted p n → slot_count p ≡ n
unfolding slot_count
slot_count_lem p n s = omega (arith, Stacked-le p n (pd_lower p) s.stacked)

pub free_space_lem : (p : List ℕ) (n : ℕ) → IsSlotted p n → free_space p ≡ pd_lower p - pd_upper p
unfolding free_space
free_space_lem p n s = omega (arith, Stacked-le p n (pd_lower p) s.stacked)

-- The page after the five writes of InsertTuple: the entry's offset, its length, the bytes, and the
-- two boundary pointers.
abbrev pub stored : List ℕ → ℕ → ℕ → List ℕ → List ℕ → List ℕ → List ℕ
stored p slot top src e₁ e₂ =
    splice top src (splice (24 + 4 * slot) e₂ (splice (24 + 4 * slot) e₁ p))

abbrev pub committed : ℕ → ℕ → List ℕ → List ℕ
committed upper top q = set_pd_lower top (set_pd_upper upper q)

module _ (p src : List ℕ) (n : ℕ) (s : IsSlotted p n)
    (fits : length src + 4 ≤ pd_lower p - pd_upper p) where
  abbrev pub top : ℕ
  top = pd_lower p - length src

  abbrev pub at : ℕ
  at = 24 + 4 * n

  pub low_end : pd_lower p ≤ 8192
  low_end = Stacked-le p n (pd_lower p) s.stacked

  pub here-IsEntry : IsEntry (entry_bytes p n)
  here-IsEntry = record {
    four = length-slice at 4 p (omega (arith, low_end, s.size, s.directory));
    bytes_in_range = All-take IsByte 4 (drop at p) (All-drop IsByte at p s.bytes_in_range);
  }

  pub insert-enters : insert_tuple src p ≡ place_tuple src n top p
  unfolding insert_tuple
  insert-enters = ground (arith, low_end, slot_count_lem p n s, free_space_lem p n s, s.directory)

  position : slot_position n ≡ at
  position = omega (arith, low_end, s.directory, s.room)

  entry_here : slot_entry_unchecked p n ≡ ok (entry_bytes p n)
  unfolding slot_entry_unchecked
  entry_here = ground (arith, low_end, s.directory, position)

  -- Four bytes written at the new slot leave the header alone.
  header_kept : (o : ℕ) (e q : List ℕ) → o + 2 ≤ 24 → get_uint o 2 (splice at e q) ≡ get_uint o 2 q
  header_kept o e q h =
      get_uint_congr o 2 (splice at e q) q (slice-splice_apart o 2 at e q (inl (omega arith)))

  pub place-stored :
      (e₁ e₂ : List ℕ)
      → set_offset (entry_bytes p n) top ≡ ok e₁
      → set_entry_length e₁ (length src) ≡ ok e₂
      → length e₁ ≡ 4
      → length e₂ ≡ 4
      → place_tuple src n top p ≡ (committed (pd_upper p + 4) top (stored p n top src e₁ e₂), ok n)
  unfolding place_tuple pd_lower pd_upper
  place-stored e₁ e₂ h₁ h₂ l₁ l₂ = ground (
    arith,
    low_end,
    position,
    entry_here,
    h₁,
    h₂,
    s.directory,
    header_kept 12 e₂ (splice at e₁ p),
    header_kept 12 e₁ p,
    upper_kept,
    whole,
  )
    where
      whole : take (pd_lower p - top) src ≡ src
      whole = let e : pd_lower p - top ≡ length src = omega arith in rw e (take-length src)

      upper_kept : pd_upper (stored p n top src e₁ e₂) ≡ pd_upper p
      upper_kept =
          get_uint_congr 14 2 (splice top src (splice at e₂ (splice at e₁ p)))
            (splice at e₂ (splice at e₁ p))
            (slice-splice_apart 14 2 top src (splice at e₂ (splice at e₁ p))
              (inl (omega (arith, s.room, s.directory))))
          ∙ (header_kept 14 e₂ (splice at e₁ p) (omega arith) ∙ header_kept 14 e₁ p (omega arith))
