-- ===== src/Access/Nbtree/Node/Init.antt =====
-- A formatted node is empty, whatever the frame held.
use mini_db.Base.{
  ℕ, ◌<◌, ◌^◌, ◌≡◌, refl, ap, ◌∙◌, inr, List, length, replicate, length-replicate, arith,
}
use mini_db.Base.Endian.{get_uint, from_be, get_uint-put_uint_apart, get_uint-put_uint_self}
use mini_db.Page.Slotted.Reads.{zeros-IsBytes}
use mini_db.Access.Nbtree.Node.{node_type, key_count, next_leaf, init_type}
use mini_db.Access.Nbtree.Node.Fields.{IsFrame, put_uint-IsFrame}

pub record IsEmptyNode (kind : ℕ) (n : List ℕ) : Type 0 where
  pub frame : IsFrame n
  pub is_kind : node_type n ≡ kind
  pub no_keys : key_count n ≡ 0
  pub no_sibling : next_leaf n ≡ 0

zero_count : get_uint 2 2 (replicate 8192 0) ≡ 0
unfolding get_uint from_be
zero_count = refl

zero_next : get_uint 4 4 (replicate 8192 0) ≡ 0
unfolding get_uint from_be
zero_next = refl

pub init_type_lem :
    (kind : ℕ) (n : List ℕ) → length n ≡ 8192 → kind < 2 ^ 8 → IsEmptyNode kind (init_type kind n)
unfolding init_type node_type key_count next_leaf
init_type_lem kind n h b =
    let zeros = replicate (length n) 0 in
    let sized : length zeros ≡ 8192 = length-replicate (length n) 0 ∙ h in
    record {
      frame =
          put_uint-IsFrame zeros (record { size = sized; bytes = zeros-IsBytes (length n) }) 0 1
            kind;
      is_kind = get_uint-put_uint_self 0 1 kind zeros (omega (arith, sized)) b;
      no_keys =
          get_uint-put_uint_apart 2 2 0 1 kind zeros (inr (omega arith))
          ∙ ap (λ z. get_uint 2 2 (replicate z 0)) h
          ∙ zero_count;
      no_sibling =
          get_uint-put_uint_apart 4 4 0 1 kind zeros (inr (omega arith))
          ∙ ap (λ z. get_uint 4 4 (replicate z 0)) h
          ∙ zero_next;
    }
