-- ===== src/Access/Nbtree/Insert/RootNode.antt =====
-- The bytes of a new root, and the meta page that names it.
use mini_db.Base.{ℕ, ◌^◌, ◌<◌, ◌≡◌, ◌∙◌, inl, false, List, length, some, arith}
use mini_db.Base.Endian.{length-put_uint, get_uint-put_uint_self, get_uint-put_uint_apart}
use mini_db.Page.{new_page as zero_frame}
use mini_db.Access.Heap.Grow.{length-zero_frame}
use mini_db.Access.Nbtree.Node.{
  is_leaf, key_count, init_internal, init_type, set_key_at, set_child_at, set_key_count,
}
use mini_db.Access.Nbtree.Node.Fields.{
  IsFrame, key, child, set_key_at_lem, set_child_at_lem, set_key_count_lem,
}
use mini_db.Access.Nbtree.Node.Init.{init_type_lem}
use mini_db.Access.Nbtree.Tree.{magic, meta_root, set_meta_root}
use mini_db.Access.Nbtree.Tree.Inners.{is_inner_of_type}

-- A node with one separator and two children.
pub record IsRootNode (n : List ℕ) (sep left right : ℕ) : Type 0 where
  pub frame : IsFrame n
  pub inner : is_leaf n ≡ false
  pub one_key : key_count n ≡ 1
  pub separator : key n 0 ≡ sep
  pub left_child : child n 0 ≡ left
  pub right_child : child n 1 ≡ right

-- The bytes that Insert writes to the new root, one step after the other.
pub record RootSteps (sep left right : ℕ) (m₁ m₂ m₃ : List ℕ) : Type 0 where
  pub key_set : set_key_at 0 sep (init_internal zero_frame) ≡ some m₁
  pub left_set : set_child_at 0 left m₁ ≡ some m₂
  pub right_set : set_child_at 1 right m₂ ≡ some m₃
  pub size₀ : length (init_internal zero_frame) ≡ 8192
  pub size₁ : length m₁ ≡ 8192
  pub size₂ : length m₂ ≡ 8192
  pub size₃ : length m₃ ≡ 8192
  pub made : IsRootNode (set_key_count 1 m₃) sep left right

pub root_node :
    (sep left right : ℕ)
    → sep < 2 ^ 64
    → left < 2 ^ 32
    → right < 2 ^ 32
    → (m₁ m₂ m₃ : List ℕ) × RootSteps sep left right m₁ m₂ m₃
unfolding init_internal
root_node sep left right a b c =
    let empty = init_type_lem 0 zero_frame length-zero_frame (omega arith) in
    let (m₁, run₁, w₁) =
      set_key_at_lem (init_type 0 zero_frame) empty.frame 0 sep (omega arith) a in
    let (m₂, run₂, w₂) = set_child_at_lem m₁ w₁.frame 0 left (omega arith) b in
    let (m₃, run₃, w₃) = set_child_at_lem m₂ w₂.frame 1 right (omega arith) c in
    let w₄ = set_key_count_lem m₃ 1 w₃.frame (omega arith) in
    (
      m₁,
      m₂,
      m₃,
      record {
        key_set = run₁;
        left_set = run₂;
        right_set = run₃;
        size₀ = empty.frame.size;
        size₁ = w₁.frame.size;
        size₂ = w₂.frame.size;
        size₃ = w₃.frame.size;
        made = record {
          frame = w₄.frame;
          inner = is_inner_of_type (set_key_count 1 m₃) (
              w₄.same_type
              ∙ (w₃.header.same_type
                  ∙ (w₂.header.same_type ∙ (w₁.header.same_type ∙ empty.is_kind))));
          one_key = w₄.count;
          separator = w₄.keys 0 ∙ (w₃.keys 0 (omega arith) ∙ (w₂.keys 0 (omega arith) ∙ w₁.here));
          left_child = w₄.children 0 ∙ (w₃.others 0 (λ e. omega arith) ∙ w₂.here);
          right_child = w₄.children 1 ∙ w₃.here;
        };
      },
    )

pub magic-set_meta_root : (pid : ℕ) (m : List ℕ) → magic (set_meta_root pid m) ≡ magic m
unfolding magic set_meta_root
magic-set_meta_root pid m = get_uint-put_uint_apart 0 4 4 4 pid m (inl (omega arith))

pub meta_root-set_meta_root :
    (pid : ℕ) (m : List ℕ) → length m ≡ 8192 → pid < 2 ^ 32 → meta_root (set_meta_root pid m) ≡ pid
unfolding meta_root set_meta_root
meta_root-set_meta_root pid m size h = get_uint-put_uint_self 4 4 pid m (omega (arith, size)) h

pub length-set_meta_root : (pid : ℕ) (m : List ℕ) → length (set_meta_root pid m) ≡ length m
unfolding set_meta_root
length-set_meta_root pid m = length-put_uint 4 4 pid m
