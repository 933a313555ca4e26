-- ===== src/Access/Nbtree.antt =====
-- internal/access/nbtree: a B+ tree index over its own file.
pub mod Node
pub mod Tree
pub mod Insert
