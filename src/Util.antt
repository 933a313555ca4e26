-- ===== src/Util.antt =====
-- internal/util.
pub mod Bits
