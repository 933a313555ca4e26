-- ===== src/Buffer/Pool/Binding.antt =====
-- A frame that nobody holds takes a page, and a victim gives its page up.
use mini_db.Base.{
  ℕ, ◌<◌, ◌≡◌, ◌≢◌, refl, ap, ◌∙◌, true, false, not, ◌&&◌, none, some, ◌==◌, if◌then◌else◌, length,
  length-set, get_or-set, Bool-cases, inl, inr, arith,
}
use mini_db.Base.Maps.{lookup, lookup-insert, ◌=?◌}
use mini_db.Buffer.Lru.Queue.{member}
use mini_db.Buffer.Lru.Member.{tracks}
use mini_db.Buffer.Pool.{
  BufferPool, FrameMeta, PageKey, page_key, same_key_iff, no_meta, meta_of, release, bind_frame,
}
use mini_db.Buffer.Pool.Invariant.{holds, key_of, pins_of, resident, IsPool, resident_key}

module _ {F : Type 0} where
  module _ (bp : BufferPool F) (n f : ℕ) (k : PageKey) (v : IsPool (release f bp) n)
      (absent : lookup k bp.page_table ≡ none) where
    pub acquired : f < n
    acquired = v.free_in_range f (unfold member release in ground arith)

    -- No page is in the frame.
    pub unheld : (j : PageKey) → lookup j bp.page_table ≢ some f
    unheld j found =
        let present = resident_key (release f bp) n j f v (unfold release in found) in
        let free = v.free_or_resident f acquired in
        unfold member release in ground (arith, present, free)

    abbrev pub bound : FrameMeta
    bound = record { key = k; pin_count = 1; dirty = false }

    pub metas : (g : ℕ) → meta_of (bind_frame f k bp) g ≡ (if f == g then bound else meta_of bp g)
    unfolding bind_frame release
    metas g = get_or-set bp.meta f g bound no_meta (omega (arith, acquired, v.meta_count))

    keys : (g : ℕ) → key_of (bind_frame f k bp) g ≡ (if f == g then k else key_of bp g)
    keys g = ap (λ m. m.key) (metas g) ∙ ground arith

    pins : (g : ℕ) → pins_of (bind_frame f k bp) g ≡ (if f == g then 1 else pins_of bp g)
    pins g = ap (λ m. m.pin_count) (metas g) ∙ ground arith

    pub entries :
        (j : PageKey)
        → lookup j (bind_frame f k bp).page_table
          ≡ (if k =? j then some f else lookup j bp.page_table)
    unfolding bind_frame
    entries j = lookup-insert k j f bp.page_table

    residents : (g : ℕ) → resident (bind_frame f k bp) g ≡ (if f == g then true else resident bp g)
    residents g =
        unfold resident holds in
        elim (Bool-cases (f == g)) [
          | inl same ↦
              let here : key_of (bind_frame f k bp) g ≡ k = ground (arith, keys g, same) in
              rw here (ground (arith, entries k, same, same_key_iff k k))
          | inr other ↦
              let there : key_of (bind_frame f k bp) g ≡ key_of bp g =
                ground (arith, keys g, other) in
              rw there
                (ground (arith, entries (key_of bp g), other, absent, same_key_iff k (key_of bp g)))
        ]

    -- Frame f holds k, in use; the other frames are as they were.
    pub bind_frame-IsPool : k.file < length bp.files → IsPool (bind_frame f k bp) n
    bind_frame-IsPool opened = record {
      frame_count = unfold bind_frame release in v.frame_count;
      meta_count = unfold bind_frame release in length-set bp.meta f _ ∙ v.meta_count;
      replacer_agrees = unfold bind_frame release in v.replacer_agrees;
      held = holding;
      free_once = unfold bind_frame release in v.free_once.1;
      free_in_range =
          unfold bind_frame release member in λ g t. ground (arith, v.free_in_range g, t);
      idle_in_range = unfold bind_frame release in v.idle_in_range;
      free_or_resident = frees;
      idle = idles;
    }
      where
        holding :
            (j : PageKey) (g : ℕ)
            → lookup j (bind_frame f k bp).page_table ≡ some g
            → (g < n)
              × (key_of (bind_frame f k bp) g ≡ j)
              × (j.file < length (bind_frame f k bp).files)
        holding j g found = elim (Bool-cases (k =? j)) [
          | inl same ↦
              let key_same : k ≡ j = (same_key_iff k j).0 same in
              let frame_same : f ≡ g = ground (arith, entries j, same, found) in
              rw (← key_same, ← frame_same)
                (acquired, keys f ∙ ground arith, unfold bind_frame in opened)
          | inr other ↦
              let old : lookup j bp.page_table ≡ some g = ground (arith, entries j, other, found) in
              let (lt, named, old_opened) = v.held j g (unfold release in old) in
              (
                lt,
                keys g ∙ (unfold release in ground (arith, unheld j, old, named)),
                unfold bind_frame release in old_opened,
              )
        ]

        released : (g : ℕ) → resident (release f bp) g ≡ resident bp g
        released g = unfold resident release in refl

        frees :
            (g : ℕ)
            → g < n
            → member g (bind_frame f k bp).free_list ≡ not (resident (bind_frame f k bp) g)
        frees g lt =
            unfold member bind_frame release in
            ground (arith, residents g, released g, v.free_once.0, v.free_or_resident g lt)

        idles :
            (g : ℕ)
            → g < n
            → tracks g (bind_frame f k bp).replacer
              ≡ (resident (bind_frame f k bp) g && (pins_of (bind_frame f k bp) g == 0))
        idles g lt =
            let free = v.free_or_resident g lt in
            unfold member bind_frame release in
            ground (arith, residents g, released g, pins g, free, v.idle g lt)
