-- ===== src/Access.antt =====
-- internal/access: the access methods over the buffer pool.
pub mod Pager
pub mod Heap
pub mod Nbtree
mod Places
mod Pooled
mod Memory
