-- ===== src/Buffer.antt =====
-- internal/storage/buffer: the replacer and the pool that uses it.
pub mod Lru
pub mod Pool
pub mod Backing
pub mod Content
mod Tests
