-- ===== src/Access/Nbtree/Tree/Roomy.antt =====
-- An index whose nodes all have room for one more key.
use mini_db.Base.{ℕ, zero, suc, ◌^◌, ◌<◌, ◌≡◌, List, length, some, get_elem?, arith}
use mini_db.Access.Pager.{Pager, PagerLaws}
use mini_db.Access.Nbtree.Tree.{magic, meta_magic, meta_root}
use mini_db.Access.Nbtree.Tree.Index.{IsIndexed, IsIndex}
use mini_db.Access.Nbtree.Tree.Lookup.{IsQuiet}
use mini_db.Access.Nbtree.Tree.Span.{IsSub}
use mini_db.Access.Nbtree.Tree.Bounds.{IsSub-IsTree}

-- The pages of an index that may take a key: a meta page that names the root, and below the root a tree whose
-- nodes all have room for one more key, less high than there are pages. The next_leaf links, which only Scan
-- of the index reads, are not part of it.
pub record IsRoomy (ps : List (List ℕ)) (height top : ℕ) : Type 0 where
  pub meta : List ℕ
  pub meta_page : get_elem? ps 0 ≡ some meta
  pub meta_size : length meta ≡ 8192
  pub marked : magic meta ≡ meta_magic
  pub rooted : meta_root meta ≡ top
  pub tree : IsSub ps height top 0 0 (2 ^ 64)
  pub shallow : height < length ps

-- The root of the whole tree need not have a key.
pub IsSub-loosen :
    (ps : List (List ℕ)) (h pid lo hi : ℕ) → IsSub ps h pid 1 lo hi → IsSub ps h pid 0 lo hi
IsSub-loosen ps zero pid lo hi (n, at, x) = (
  n,
  at,
  record {
    nonzero = x.nonzero;
    frame = x.frame;
    leaf = x.leaf;
    filled = omega arith;
    room = x.room;
    run = x.run;
  },
)
IsSub-loosen ps (suc h) pid lo hi sub = sub

pub IsRoomy-IsIndexed :
    (ps : List (List ℕ)) (height top : ℕ) → IsRoomy ps height top → IsIndexed ps height top
IsRoomy-IsIndexed ps height top x = record {
  meta = x.meta;
  meta_page = x.meta_page;
  marked = x.marked;
  rooted = x.rooted;
  tree = IsSub-IsTree ps height top 0 0 (2 ^ 64) x.tree;
  shallow = x.shallow;
}

module _ {S P E : Type 0} {pager : Pager S P E} (laws : PagerLaws pager) where
  -- An index between two calls, with room.
  pub record IsRoomyIndex (s : S) (height top : ℕ) : Type 0 where
    pub quiet : IsQuiet laws s
    pub roomy : IsRoomy (laws.pages s) height top

  pub IsRoomyIndex-IsIndex :
      (s : S) (height top : ℕ) → IsRoomyIndex s height top → IsIndex laws s height top
  IsRoomyIndex-IsIndex s height top x = record {
    valid = x.quiet.valid;
    settled = x.quiet.settled;
    indexed = IsRoomy-IsIndexed (laws.pages s) height top x.roomy;
  }
