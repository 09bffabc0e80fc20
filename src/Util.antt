-- ===== src/Util.antt =====
-- src/util: what stands beside the byte buffer.
pub mod Config
pub mod Stun
