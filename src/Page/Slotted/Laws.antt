-- ===== src/Page/Slotted/Laws.antt =====
-- InsertTuple against the list of tuples that the page stands for, on each of its branches.
use mini_db.Base.{ℕ, suc, ◌+◌, ◌-◌, ◌≤◌, ◌<◌, ◌≡◌, ◌∙◌, List, [], ◌∷◌, ◌++◌, length, arith}
use mini_db.Base.Endian.{IsBytes}
use mini_db.Base.Outcome.{ok, err}
use mini_db.Page.Header.{pd_lower, pd_upper}
use mini_db.Page.SlotEntry.Laws.{set_offset_lem, set_entry_length_lem}
use mini_db.Page.Slotted.{no_space, free_space, insert_tuple}
use mini_db.Page.Slotted.Insert
use mini_db.Page.Slotted.Insert.{slot_count_lem, free_space_lem}
use mini_db.Page.Slotted.Layout.{entry_bytes, tuples, IsSlotted, Stacked-le}
use mini_db.Page.Slotted.Stored
use mini_db.Page.Slotted.Stored.{Points}

-- The page `q` is `p` with the tuple `src` appended.
pub record IsAppended (p : List ℕ) (n : ℕ) (src q : List ℕ) : Type 0 where
  pub well_formed : IsSlotted q (suc n)
  pub contents : tuples q (suc n) ≡ tuples p n ++ src ∷ []
  pub space : free_space q + (length src + 4) ≡ free_space p

-- On a well-formed page whose free space holds the tuple and a slot, InsertTuple succeeds, returns the
-- next slot index, and leaves a well-formed page with the tuple appended to the list of tuples and
-- the free space smaller by the tuple and its slot.
pub insert_tuple_fits :
    (p src : List ℕ) (n : ℕ)
    → IsSlotted p n
    → IsBytes src
    → length src + 4 ≤ free_space p
    → (q : List ℕ) × (insert_tuple src p ≡ (q, ok n)) × IsAppended p n src q
insert_tuple_fits p src n s b room =
    let fits : length src + 4 ≤ pd_lower p - pd_upper p = rw (← free_space_lem p n s) room in
    let low_end = Stacked-le p n (pd_lower p) s.stacked in
    let top = pd_lower p - length src in
    let (e₁, set₁, w₁) =
      set_offset_lem (entry_bytes p n) top (Insert.here-IsEntry p src n s fits) (omega arith) in
    let (e₂, set₂, w₂) = set_entry_length_lem e₁ (length src) w₁.entry (omega arith) in
    let to : Points top (length src) e₁ e₂ = record {
      first = w₁.entry;
      second = w₂.entry;
      offset_is = w₂.offset_is ∙ w₁.offset_is;
      length_is = w₂.length_is;
    } in
    let q = Stored.result p src n s fits b e₁ e₂ to in
    let well = Stored.result-IsSlotted p src n s fits b e₁ e₂ to in
    (
      q,
      Insert.insert-enters p src n s fits
          ∙ Insert.place-stored p src n s fits e₁ e₂ set₁ set₂ w₁.entry.four w₂.entry.four,
      record {
        well_formed = well;
        contents = Stored.result-tuples p src n s fits b e₁ e₂ to;
        space = omega (
          arith,
          free_space_lem p n s,
          free_space_lem q (suc n) well,
          Stored.new_lower p src n s fits b e₁ e₂ to,
          Stored.new_upper p src n s fits b e₁ e₂ to,
        );
      },
    )

-- Otherwise InsertTuple returns ErrNoSpace and leaves the page as it was.
pub insert_tuple_full :
    (p src : List ℕ) → free_space p < length src + 4 → insert_tuple src p ≡ (p, err no_space)
unfolding insert_tuple
insert_tuple_full p src h = ground arith
