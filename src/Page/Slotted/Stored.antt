-- ===== src/Page/Slotted/Stored.antt =====
-- The page that InsertTuple leaves is well formed, and holds one tuple more.
use mini_db.Base.{
  ℕ, suc, ◌+◌, ◌-◌, ◌*◌, ◌≤◌, ◌≡◌, sym, ap, ap₂, ◌∙◌, ◌⊎◌, inl, inr, List, [], ◌∷◌, ◌++◌, length,
  arith,
}
use mini_db.Base.Copy.{
  slice, splice, length-splice, All-splice, slice-splice_self, slice-splice_apart,
}
use mini_db.Base.Endian.{
  IsByte, IsBytes, length-put_uint, slice-put_uint, get_uint-put_uint_self, get_uint-put_uint_apart,
  put_uint-IsBytes,
}
use mini_db.Page.Header.{pd_lower, pd_upper, set_pd_lower, set_pd_upper}
use mini_db.Page.SlotEntry.{offset, entry_length}
use mini_db.Page.SlotEntry.Laws.{IsEntry}
use mini_db.Page.Slotted.Insert.{stored, committed}
use mini_db.Page.Slotted.Layout.{
  entry_bytes, tuples, IsSlotted, Keeps, Keeps-Stacked, Keeps-tuples, Stacked-le,
}

-- What the two setters leave in the four bytes of the new slot.
pub record Points (top n : ℕ) (e₁ e₂ : List ℕ) : Type 0 where
  pub first : IsEntry e₁
  pub second : IsEntry e₂
  pub offset_is : offset e₂ ≡ top
  pub length_is : entry_length e₂ ≡ n

module _ (p src : List ℕ) (n : ℕ) (s : IsSlotted p n)
    (fits : length src + 4 ≤ pd_lower p - pd_upper p) (src_bytes : IsBytes src) (e₁ e₂ : List ℕ)
    (to : Points (pd_lower p - length src) (length src) e₁ e₂) where
  abbrev top : ℕ
  top = pd_lower p - length src

  abbrev at : ℕ
  at = 24 + 4 * n

  abbrev pub result : List ℕ
  result = committed (pd_upper p + 4) top (stored p n top src e₁ e₂)

  low_end : pd_lower p ≤ 8192
  low_end = Stacked-le p n (pd_lower p) s.stacked

  -- The boundary pointers stand in the header.
  behind_header : (o m : ℕ) → 24 ≤ o → slice o m result ≡ slice o m (stored p n top src e₁ e₂)
  unfolding set_pd_lower set_pd_upper
  behind_header o m h =
      slice-put_uint o m 12 2 top _ (inr (omega arith))
      ∙ slice-put_uint o m 14 2 (pd_upper p + 4) _ (inr (omega arith))

  -- Bytes apart from the new entry and from the new tuple stay.
  apart_kept :
      (o m : ℕ)
      → 24 ≤ o
      → (o + m ≤ at) ⊎ (at + 4 ≤ o)
      → (o + m ≤ top) ⊎ (pd_lower p ≤ o)
      → slice o m result ≡ slice o m p
  apart_kept o m h entry tuple =
      behind_header o m h
      ∙ (slice-splice_apart o m top src _ (ground arith)
          ∙ (slice-splice_apart o m at e₂ _ (ground (arith, to.second.four))
              ∙ slice-splice_apart o m at e₁ p (ground (arith, to.first.four))))

  result-Keeps : Keeps p result n (pd_lower p)
  result-Keeps = record {
    entries = λ i h.
        apart_kept (24 + 4 * i) 4 (omega arith) (inl (omega arith))
          (inl (omega (arith, s.directory)));
    contents = λ o m h.
        apart_kept o m (omega (arith, s.directory, s.room)) (inr (omega (arith, s.directory)))
          (inr h);
  }

  sized : length (splice at e₂ (splice at e₁ p)) ≡ 8192
  sized = length-splice at e₂ (splice at e₁ p) ∙ (length-splice at e₁ p ∙ s.size)

  stored_entry : slice at 4 (splice at e₂ (splice at e₁ p)) ≡ e₂
  stored_entry =
      ap (λ k. slice at k (splice at e₂ (splice at e₁ p))) (sym to.second.four)
      ∙ slice-splice_self at e₂ (splice at e₁ p)
          (omega (arith, low_end, length-splice at e₁ p, s.size, to.second.four, s.directory))

  new_entry : entry_bytes result n ≡ e₂
  new_entry =
      behind_header at 4 (omega arith)
      ∙ (slice-splice_apart at 4 top src _ (inl (omega (arith, s.directory))) ∙ stored_entry)

  new_tuple : slice top (length src) result ≡ src
  new_tuple =
      behind_header top (length src) (omega (arith, s.directory))
      ∙ slice-splice_self top src _ (omega (arith, low_end, sized))

  result-size : length result ≡ 8192
  unfolding set_pd_lower set_pd_upper
  result-size =
      length-put_uint 12 2 top _
      ∙ (length-put_uint 14 2 (pd_upper p + 4) _ ∙ (length-splice top src _ ∙ sized))

  result-IsBytes : IsBytes result
  unfolding set_pd_lower set_pd_upper
  result-IsBytes = put_uint-IsBytes 12 2 top _ (
      put_uint-IsBytes 14 2 (pd_upper p + 4) _ (
        All-splice IsByte top src _ src_bytes (
          All-splice IsByte at e₂ _ to.second.bytes_in_range
            (All-splice IsByte at e₁ p to.first.bytes_in_range s.bytes_in_range))))

  stored-size : length (stored p n top src e₁ e₂) ≡ 8192
  stored-size = length-splice top src _ ∙ sized

  pub new_lower : pd_lower result ≡ top
  unfolding pd_lower set_pd_lower set_pd_upper
  new_lower =
      get_uint-put_uint_self 12 2 top _
        (omega
          (arith, length-put_uint 14 2 (pd_upper p + 4) (stored p n top src e₁ e₂), stored-size))
        (omega (arith, low_end))

  pub new_upper : pd_upper result ≡ pd_upper p + 4
  unfolding pd_upper set_pd_lower set_pd_upper
  new_upper =
      get_uint-put_uint_apart 14 2 12 2 top _ (inr (omega arith))
      ∙ get_uint-put_uint_self 14 2 (pd_upper p + 4) _ (omega (arith, stored-size))
          (omega (arith, low_end))

  pub result-IsSlotted : IsSlotted result (suc n)
  result-IsSlotted = record {
    size = result-size;
    bytes_in_range = result-IsBytes;
    directory = omega (arith, new_upper, s.directory);
    room = omega (arith, new_upper, new_lower);
    stacked = (
      rw (new_entry, new_lower) to.offset_is,
      rw (new_entry, new_lower, to.length_is)
          (let edge : top + length src ≡ pd_lower p = omega arith in
            rw edge (Keeps-Stacked result-Keeps n (pd_lower p) (omega arith) s.stacked)),
    );
  }

  pub result-tuples : tuples result (suc n) ≡ tuples p n ++ src ∷ []
  unfolding tuples
  result-tuples =
      ap₂ (λ ts t. ts ++ t ∷ [])
        (Keeps-tuples result-Keeps n (pd_lower p) (omega arith) (omega arith) s.stacked)
        (rw (new_entry, to.offset_is, to.length_is) new_tuple)
