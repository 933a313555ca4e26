-- ===== src/Access/Nbtree/Tree.antt =====
-- internal/access/nbtree/nbtree.go: the index over its pages. Page 0 is the meta page, which records the root.
-- A *split is none where it is nil, and Search's found flag is the option. A loop down the tree runs on
-- fuel, one more than the number of pages; a run that exceeds it is the error endless.
pub mod Index
pub mod Answer
pub mod Lookup
pub mod Create
pub mod Span
pub mod Bounds
pub mod Fan
pub mod Divided
pub mod Leaves
pub mod Halves
pub mod Inners
pub mod Roomy
mod Tests
use mini_db.Base.{
  ℕ, zero, suc, ◌+◌, ◌-◌, Bool, true, false, List, Option, none, some, ltb, leb, ◌==◌,
  if◌then◌else◌,
}
use mini_db.Base.Endian.{get_uint, put_uint}
use mini_db.Base.Exec.{Exec, ◌>>=◌, ◌>>◌, done, fail}
use mini_db.Base.Outcome.{Outcome, ok, err, panic}
use mini_db.Access.Pager.{Pager, discard}
use mini_db.Access.Heap.{Tid, wrapped, beside}
use mini_db.Access.Nbtree.Node.{
  is_leaf, key_count, next_leaf, set_next_leaf, set_key_count, init_leaf, init_internal, key_at,
  set_key_at, child_at, set_child_at, tid_at, search, child_index, full, key_lt, insert_leaf_at,
  insert_internal_at, split_leaf, split_internal, ◌>>=◌ as chain,
}

abbrev pub meta_magic : ℕ
meta_magic = 0x6E627472

unfoldable pub magic : List ℕ → ℕ
magic m = get_uint 0 4 m

unfoldable pub set_magic : ℕ → List ℕ → List ℕ
set_magic v m = put_uint 0 4 v m

unfoldable pub meta_root : List ℕ → ℕ
meta_root m = get_uint 4 4 m

unfoldable pub set_meta_root : ℕ → List ℕ → List ℕ
set_meta_root pid m = put_uint 4 4 pid m

pub data TreeError (E : Type 0) : Type 0 where
  pager_error : E → TreeError E
  bad_magic duplicate_key endless : TreeError E

-- `interrupted` is the callback's own error.
pub data WalkError (E C : Type 0) : Type 0 where
  walk_failed : TreeError E → WalkError E C
  interrupted : C → WalkError E C

pub record Split : Type 0 where
  pub sep_key : ℕ
  pub right : ℕ

-- What Search reads of a leaf, and the child that a descent takes.
unfoldable pub leaf_lookup : ℕ → List ℕ → Option (Option Tid)
leaf_lookup key n =
    chain (search key n) λ r. if r.1 then chain (tid_at r.0 n) (λ t. some (some t)) else some none

unfoldable pub child_for : ℕ → List ℕ → Option ℕ
child_for key n = chain (child_index key n) λ c. child_at c n

-- An access that panics where it reads out of range.
abbrev pub or_panic : {S E A : Type 0} → Option A → Exec S E A
or_panic none s = (s, panic)
or_panic (some a) s = (s, ok a)

-- A call that leaves the pool alone.
abbrev pub aside : {S T E A : Type 0} → Exec T E A → Exec (S × T) E A
aside m (s, t) = ((s, (m t).0), (m t).1)

-- `_ = m; return` behind a call that returned an error, and behind one that returned.
abbrev pub after_error : {S E A : Type 0} → Exec S E (Unit {0}) → S × Outcome E A → S × Outcome E A
after_error m (s, ok a) = (s, ok a)
after_error m (s, err e) = (m >> fail e) s
after_error m (s, panic) = (s, panic)

abbrev pub after_call : {S E A : Type 0} → Exec S E (Unit {0}) → S × Outcome E A → S × Outcome E A
after_call m (s, ok a) = (m >> done a) s
after_call m (s, err e) = (m >> fail e) s
after_call m (s, panic) = (s, panic)

module _ {S P E : Type 0} (pager : Pager S P E) where
  abbrev pub fetch_node : ℕ → Exec S (TreeError E) P
  fetch_node pid = wrapped pager_error (pager.fetch_page pid)

  abbrev pub fresh_page : Exec S (TreeError E) (P × ℕ)
  fresh_page = wrapped pager_error pager.new_page

  abbrev pub let_go : ℕ → Bool → Exec S (TreeError E) (Unit {0})
  let_go pid dirty = discard (pager.unpin_page pid dirty)

  -- A change of the bytes behind a page pointer.
  abbrev pub edit : P → (List ℕ → Option (List ℕ)) → Exec S (TreeError E) (Unit {0})
  edit p f s = elim (f (pager.load p s)) [ none ↦ (s, panic) | some b ↦ (pager.store p b s, ok tt) ]

  -- A change of the bytes behind two page pointers, and a read.
  abbrev pub edit_both :
      P → P → (List ℕ → List ℕ → Option (List ℕ × List ℕ)) → Exec S (TreeError E) (Unit {0})
  edit_both p q f s = elim (f (pager.load p s) (pager.load q s)) [
    | none ↦ (s, panic)
    | some (a, b) ↦ (pager.store q b (pager.store p a s), ok tt)
  ]

  abbrev pub peek : {A : Type 0} → P → (List ℕ → Option A) → Exec S (TreeError E) A
  peek p f s = or_panic (f (pager.load p s)) s

  unfoldable pub bootstrap : Exec S (TreeError E) (Unit {0})
  bootstrap = fresh_page >>= λ m. (λ s. after_error (let_go m.1 false) (fresh_page s)) >>= λ r.
      edit r.0 (λ n. some (init_leaf n))
      >> edit m.0 (λ n. some (set_meta_root r.1 (set_magic meta_magic n)))
      >> let_go r.1 true
      >> let_go m.1 true

  unfoldable pub new_btree : Exec S (TreeError E) (Unit {0})
  new_btree s =
      if pager.num_pages s == 0
      then bootstrap s
      else (fetch_node 0 >>= λ mp t.
            (let_go 0 false
                >> (if magic (pager.load mp t) == meta_magic then done tt else fail bad_magic))
              t)
          s

  unfoldable pub root : Exec S (TreeError E) ℕ
  root = fetch_node 0 >>= λ mp s. (let_go 0 false >> done (meta_root (pager.load mp s))) s

  unfoldable pub set_root : ℕ → Exec S (TreeError E) (Unit {0})
  set_root pid = fetch_node 0 >>= λ mp. edit mp (λ m. some (set_meta_root pid m)) >> let_go 0 true

  -- The loop of Search from page `pid` on.
  unfoldable pub search_from : ℕ → ℕ → ℕ → Exec S (TreeError E) (Option Tid)
  search_from zero pid key = fail endless
  search_from (suc fuel) pid key = fetch_node pid >>= λ p s.
      (if is_leaf (pager.load p s)
          then (or_panic (leaf_lookup key (pager.load p s)) >>= λ r. let_go pid false >> done r)
          else (or_panic (child_for key (pager.load p s)) >>= λ child.
              let_go pid false >> search_from fuel child key))
        s

  unfoldable pub search_tree : ℕ → Exec S (TreeError E) (Option Tid)
  search_tree key = root >>= λ pid s. search_from (suc (pager.num_pages s)) pid key s

  -- The loop of findLeaf.
  unfoldable pub find_leaf_from : ℕ → ℕ → ℕ → Exec S (TreeError E) ℕ
  find_leaf_from zero pid key = fail endless
  find_leaf_from (suc fuel) pid key = fetch_node pid >>= λ p s.
      (if is_leaf (pager.load p s)
          then (let_go pid false >> done pid)
          else (or_panic (child_for key (pager.load p s)) >>= λ child.
              let_go pid false >> find_leaf_from fuel child key))
        s

  unfoldable pub find_leaf : ℕ → Exec S (TreeError E) ℕ
  find_leaf key = root >>= λ pid s. find_leaf_from (suc (pager.num_pages s)) pid key s

  -- splitLeafNode, whose split is never nil.
  unfoldable pub split_leaf_node : P → Exec S (TreeError E) Split
  split_leaf_node p = fresh_page >>= λ r.
      edit r.0 (λ n. some (init_leaf n))
      >> edit_both p r.0 split_leaf
      >> (peek p (λ n. some (next_leaf n)) >>= λ next.
          edit r.0 (λ n. some (set_next_leaf next n))
          >> edit p (λ n. some (set_next_leaf r.1 n))
          >> (peek r.0 (key_at 0) >>= λ sep.
              let_go r.1 true >> done (record { sep_key = sep; right = r.1 })))

  unfoldable pub split_internal_node : P → Exec S (TreeError E) Split
  split_internal_node p = fresh_page >>= λ r.
      edit r.0 (λ n. some (init_internal n))
      >> (λ s. or_panic (split_internal (pager.load p s) (pager.load r.0 s)) s)
      >>= λ halves.
          edit p (λ n. some halves.1)
          >> edit r.0 (λ n. some halves.2)
          >> let_go r.1 true
          >> done (record { sep_key = halves.0; right = r.1 })

  -- What insertInto does behind the change of a node.
  abbrev pub split_if_full :
      ℕ → P → (P → Exec S (TreeError E) Split) → Exec S (TreeError E) (Option Split)
  split_if_full pid p split s =
      if full (pager.load p s)
      then after_call (let_go pid true) ((split p >>= λ sp. done (some sp)) s)
      else (let_go pid true >> done none) s

  unfoldable pub insert_into_leaf : ℕ → P → ℕ → Tid → Exec S (TreeError E) (Option Split)
  insert_into_leaf pid p key tid = peek p (search key) >>= λ r.
      if r.1
      then let_go pid false >> fail duplicate_key
      else edit p (insert_leaf_at r.0 key tid) >> split_if_full pid p split_leaf_node

  -- What insertInto makes of the split of the child `ci`.
  abbrev pub absorb : ℕ → P → ℕ → Option Split → Exec S (TreeError E) (Option Split)
  absorb pid p ci none = let_go pid false >> done none
  absorb pid p ci (some sp) =
      edit p (insert_internal_at ci sp.sep_key sp.right) >> split_if_full pid p split_internal_node

  unfoldable pub insert_into : ℕ → ℕ → ℕ → Tid → Exec S (TreeError E) (Option Split)
  insert_into zero pid key tid = fail endless
  insert_into (suc fuel) pid key tid = fetch_node pid >>= λ p s.
      (if is_leaf (pager.load p s)
          then insert_into_leaf pid p key tid
          else (peek p (child_index key) >>= λ ci. peek p (child_at ci) >>= λ child.
              (λ t. after_error (let_go pid false) (insert_into fuel child key tid t)) >>= λ r.
              absorb pid p ci r))
        s

  -- A new root over the old one and the new right node.
  unfoldable pub grow_root : ℕ → Split → Exec S (TreeError E) (Unit {0})
  grow_root left sp = fresh_page >>= λ r.
      edit r.0 (λ n. some (init_internal n))
      >> edit r.0 (set_key_at 0 sp.sep_key)
      >> edit r.0 (set_child_at 0 left)
      >> edit r.0 (set_child_at 1 sp.right)
      >> edit r.0 (λ n. some (set_key_count 1 n))
      >> let_go r.1 true
      >> set_root r.1

  unfoldable pub insert_tree : ℕ → Tid → Exec S (TreeError E) (Unit {0})
  insert_tree key tid = root >>= λ left.
      (λ s. insert_into (suc (pager.num_pages s)) left key tid s) >>= λ r. elim r [
        | none ↦ done tt
        | some sp ↦ grow_root left sp
      ]

  module _ {T C : Type 0} (fn : ℕ → Tid → Exec T C (Unit {0})) where
    -- scanLeaf from slot `i` on, with `left` slots to go.
    unfoldable pub scan_leaf : ℕ → ℕ → ℕ → List ℕ → Exec T (WalkError E C) Bool
    scan_leaf zero i hi n = done false
    scan_leaf (suc left) i hi n = or_panic (key_at i n) >>= λ k.
        if key_lt hi k
        then done true
        else (or_panic (tid_at i n) >>= λ t.
            wrapped interrupted (fn k t) >> scan_leaf left (i + 1) hi n)

    -- The loop of Scan from leaf `pid` on; only the first leaf is searched for the lower end.
    unfoldable pub scan_leaves : ℕ → ℕ → Bool → ℕ → ℕ → Exec (S × T) (WalkError E C) (Unit {0})
    scan_leaves zero pid first lo hi = fail (walk_failed endless)
    scan_leaves (suc fuel) pid first lo hi =
        if pid == 0
        then done tt
        else (beside (wrapped walk_failed (fetch_node pid)) >>= λ p x.
            let n = pager.load p x.0 in
            (or_panic (if first then chain (search lo n) (λ r. some r.0) else some 0) >>= λ i.
            (λ y.
              after_call (beside (discard (pager.unpin_page pid false)))
                (aside (scan_leaf (key_count n - i) i hi n) y))
            >>= λ finished.
                if finished then done tt else scan_leaves fuel (next_leaf n) false lo hi)
              x)

    unfoldable pub scan_tree : ℕ → ℕ → Exec (S × T) (WalkError E C) (Unit {0})
    scan_tree lo hi = beside (wrapped walk_failed (find_leaf lo)) >>= λ pid x.
        scan_leaves (suc (pager.num_pages x.0)) pid true lo hi x
