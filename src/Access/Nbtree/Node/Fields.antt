-- ===== src/Access/Nbtree/Node/Fields.antt =====
-- The fields of a node, and what a write to one of them does to the others.
use mini_db.Base.{
  ℕ, ◌+◌, ◌*◌, ◌^◌, ◌≤◌, ◌<◌, ◌≡◌, ◌≢◌, refl, ap₂, ◌∙◌, inl, inr, List, length, some, arith,
}
use mini_db.Base.Endian.{
  IsBytes, get_uint, put_uint, length-put_uint, put_uint-IsBytes, get_uint-put_uint_apart,
  get_uint-put_uint_self, get_uint-lt,
}
use mini_db.Access.Heap.{Tid}
use mini_db.Access.Nbtree.Node.{
  node_type, key_count, next_leaf, set_key_count, key_at, set_key_at, child_at, set_child_at,
  tid_at, set_tid_at, leaf_cap, internal_cap,
}

pub record IsFrame (n : List ℕ) : Type 0 where
  pub size : length n ≡ 8192
  pub bytes : IsBytes n

abbrev pub key : List ℕ → ℕ → ℕ
key n i = get_uint (8 + i * 8) 8 n

abbrev pub child : List ℕ → ℕ → ℕ
child n i = get_uint (5456 + i * 4) 4 n

abbrev pub tid_page : List ℕ → ℕ → ℕ
tid_page n i = get_uint (4680 + i * 6) 4 n

abbrev pub tid_slot : List ℕ → ℕ → ℕ
tid_slot n i = get_uint (4680 + i * 6 + 4) 2 n

abbrev pub tid : List ℕ → ℕ → Tid
tid n i = record { page = tid_page n i; slot = tid_slot n i }

pub record SameHeader (n m : List ℕ) : Type 0 where
  pub same_type : node_type m ≡ node_type n
  pub same_count : key_count m ≡ key_count n
  pub same_next : next_leaf m ≡ next_leaf n

pub SameHeader-refl : (n : List ℕ) → SameHeader n n
SameHeader-refl n = record { same_type = refl; same_count = refl; same_next = refl }

pub SameHeader-trans : {n m l : List ℕ} → SameHeader n m → SameHeader m l → SameHeader n l
SameHeader-trans h k = record {
  same_type = k.same_type ∙ h.same_type;
  same_count = k.same_count ∙ h.same_count;
  same_next = k.same_next ∙ h.same_next;
}

-- A write behind the header.
module _ (n : List ℕ) (f : IsFrame n) (off size v : ℕ) where
  pub put_uint-IsFrame : IsFrame (put_uint off size v n)
  put_uint-IsFrame = record {
    size = length-put_uint off size v n ∙ f.size;
    bytes = put_uint-IsBytes off size v n f.bytes;
  }

  pub put_uint-SameHeader : 8 ≤ off → SameHeader n (put_uint off size v n)
  unfolding node_type key_count next_leaf
  put_uint-SameHeader h = record {
    same_type = get_uint-put_uint_apart 0 1 off size v n (inl (omega arith));
    same_count = get_uint-put_uint_apart 2 2 off size v n (inl (omega arith));
    same_next = get_uint-put_uint_apart 4 4 off size v n (inl (omega arith));
  }

-- A node with a key written.
pub record IsKeyPut (n : List ℕ) (i k : ℕ) (m : List ℕ) : Type 0 where
  pub frame : IsFrame m
  pub header : SameHeader n m
  pub here : key m i ≡ k
  pub others : (j : ℕ) → j ≢ i → key m j ≡ key n j
  pub tids : i < leaf_cap → (j : ℕ) → tid m j ≡ tid n j
  pub children : i < internal_cap → (j : ℕ) → child m j ≡ child n j

pub record IsTidPut (n : List ℕ) (i : ℕ) (t : Tid) (m : List ℕ) : Type 0 where
  pub frame : IsFrame m
  pub header : SameHeader n m
  pub here : tid m i ≡ t
  pub others : (j : ℕ) → j ≢ i → tid m j ≡ tid n j
  pub keys : (j : ℕ) → j < leaf_cap → key m j ≡ key n j

pub record IsChildPut (n : List ℕ) (i c : ℕ) (m : List ℕ) : Type 0 where
  pub frame : IsFrame m
  pub header : SameHeader n m
  pub here : child m i ≡ c
  pub others : (j : ℕ) → j ≢ i → child m j ≡ child n j
  pub keys : (j : ℕ) → j < internal_cap → key m j ≡ key n j

-- A tuple id of the source: a uint32 and a uint16.
pub record IsTid (t : Tid) : Type 0 where
  pub page_fits : t.page < 2 ^ 32
  pub slot_fits : t.slot < 2 ^ 16

module _ (n : List ℕ) (f : IsFrame n) where
  pub key_at_lem : (i : ℕ) → i < 1023 → key_at i n ≡ some (key n i)
  unfolding key_at
  key_at_lem i h = ground (arith, f.size)

  pub child_at_lem : (i : ℕ) → i < 684 → child_at i n ≡ some (child n i)
  unfolding child_at
  child_at_lem i h = ground (arith, f.size)

  pub tid_at_lem : (i : ℕ) → i < 585 → tid_at i n ≡ some (tid n i)
  unfolding tid_at
  tid_at_lem i h = ground (arith, f.size)

  pub key-lt : (i : ℕ) → key n i < 2 ^ 64
  key-lt i = get_uint-lt (8 + i * 8) 8 n f.bytes

  pub child-lt : (i : ℕ) → child n i < 2 ^ 32
  child-lt i = get_uint-lt (5456 + i * 4) 4 n f.bytes

  pub tid-IsTid : (i : ℕ) → IsTid (tid n i)
  tid-IsTid i = record {
    page_fits = get_uint-lt (4680 + i * 6) 4 n f.bytes;
    slot_fits = get_uint-lt (4680 + i * 6 + 4) 2 n f.bytes;
  }

  pub set_key_at_lem :
      (i k : ℕ)
      → i < 1023
      → k < 2 ^ 64
      → (m : List ℕ) × (set_key_at i k n ≡ some m) × IsKeyPut n i k m
  unfolding set_key_at
  set_key_at_lem i k h b = (
    put_uint (8 + i * 8) 8 k n,
    ground (arith, f.size),
    record {
      frame = put_uint-IsFrame n f (8 + i * 8) 8 k;
      header = put_uint-SameHeader n f (8 + i * 8) 8 k (omega arith);
      here = get_uint-put_uint_self (8 + i * 8) 8 k n (omega (arith, f.size)) b;
      others = λ j e. get_uint-put_uint_apart (8 + j * 8) 8 (8 + i * 8) 8 k n (ground (arith, e));
      tids = λ l j.
          ap₂ (λ p s. record { page = p; slot = s })
            (get_uint-put_uint_apart (4680 + j * 6) 4 (8 + i * 8) 8 k n (inr (omega arith)))
            (get_uint-put_uint_apart (4680 + j * 6 + 4) 2 (8 + i * 8) 8 k n (inr (omega arith)));
      children =
          λ l j. get_uint-put_uint_apart (5456 + j * 4) 4 (8 + i * 8) 8 k n (inr (omega arith));
    },
  )

  pub set_child_at_lem :
      (i c : ℕ)
      → i < 684
      → c < 2 ^ 32
      → (m : List ℕ) × (set_child_at i c n ≡ some m) × IsChildPut n i c m
  unfolding set_child_at
  set_child_at_lem i c h b = (
    put_uint (5456 + i * 4) 4 c n,
    ground (arith, f.size),
    record {
      frame = put_uint-IsFrame n f (5456 + i * 4) 4 c;
      header = put_uint-SameHeader n f (5456 + i * 4) 4 c (omega arith);
      here = get_uint-put_uint_self (5456 + i * 4) 4 c n (omega (arith, f.size)) b;
      others =
          λ j e. get_uint-put_uint_apart (5456 + j * 4) 4 (5456 + i * 4) 4 c n (ground (arith, e));
      keys = λ j l. get_uint-put_uint_apart (8 + j * 8) 8 (5456 + i * 4) 4 c n (inl (omega arith));
    },
  )

  pub set_tid_at_lem :
      (i : ℕ) (t : Tid)
      → i < 585
      → IsTid t
      → (m : List ℕ) × (set_tid_at i t n ≡ some m) × IsTidPut n i t m
  unfolding set_tid_at
  set_tid_at_lem i t h b =
      let first = put_uint (4680 + i * 6) 4 t.page n in
      let f₁ = put_uint-IsFrame n f (4680 + i * 6) 4 t.page in
      let at = 4680 + i * 6 + 4 in
      (
        put_uint at 2 t.slot first,
        ground (arith, f.size, f₁.size),
        record {
          frame = put_uint-IsFrame first f₁ at 2 t.slot;
          header =
              SameHeader-trans (put_uint-SameHeader n f (4680 + i * 6) 4 t.page (omega arith))
                (put_uint-SameHeader first f₁ at 2 t.slot (omega arith));
          here =
              ap₂ (λ p s. record { page = p; slot = s })
                (get_uint-put_uint_apart (4680 + i * 6) 4 at 2 t.slot first (inl (omega arith))
                  ∙ get_uint-put_uint_self (4680 + i * 6) 4 t.page n (omega (arith, f.size))
                      b.page_fits)
                (get_uint-put_uint_self at 2 t.slot first (omega (arith, f₁.size)) b.slot_fits);
          others = λ j e.
              ap₂ (λ p s. record { page = p; slot = s })
                (get_uint-put_uint_apart (4680 + j * 6) 4 at 2 t.slot first (ground (arith, e))
                  ∙ get_uint-put_uint_apart (4680 + j * 6) 4 (4680 + i * 6) 4 t.page n
                      (ground (arith, e)))
                (get_uint-put_uint_apart (4680 + j * 6 + 4) 2 at 2 t.slot first (ground (arith, e))
                  ∙ get_uint-put_uint_apart (4680 + j * 6 + 4) 2 (4680 + i * 6) 4 t.page n
                      (ground (arith, e)));
          keys = λ j l.
              get_uint-put_uint_apart (8 + j * 8) 8 at 2 t.slot first (inl (omega arith))
              ∙ get_uint-put_uint_apart (8 + j * 8) 8 (4680 + i * 6) 4 t.page n (inl (omega arith));
        },
      )

-- A node with its key count written.
pub record IsCounted (n : List ℕ) (k : ℕ) (m : List ℕ) : Type 0 where
  pub frame : IsFrame m
  pub count : key_count m ≡ k
  pub same_type : node_type m ≡ node_type n
  pub same_next : next_leaf m ≡ next_leaf n
  pub keys : (j : ℕ) → key m j ≡ key n j
  pub tids : (j : ℕ) → tid m j ≡ tid n j
  pub children : (j : ℕ) → child m j ≡ child n j

pub set_key_count_lem :
    (n : List ℕ) (k : ℕ) → IsFrame n → k < 2 ^ 16 → IsCounted n k (set_key_count k n)
unfolding set_key_count node_type key_count next_leaf
set_key_count_lem n k f b = record {
  frame = put_uint-IsFrame n f 2 2 k;
  count = get_uint-put_uint_self 2 2 k n (omega (arith, f.size)) b;
  same_type = get_uint-put_uint_apart 0 1 2 2 k n (inl (omega arith));
  same_next = get_uint-put_uint_apart 4 4 2 2 k n (inr (omega arith));
  keys = λ j. get_uint-put_uint_apart (8 + j * 8) 8 2 2 k n (inr (omega arith));
  tids = λ j.
      ap₂ (λ p s. record { page = p; slot = s })
        (get_uint-put_uint_apart (4680 + j * 6) 4 2 2 k n (inr (omega arith)))
        (get_uint-put_uint_apart (4680 + j * 6 + 4) 2 2 2 k n (inr (omega arith)));
  children = λ j. get_uint-put_uint_apart (5456 + j * 4) 4 2 2 k n (inr (omega arith));
}
