-- ===== src/Crt.antt =====
-- The C containers under crt/.
pub mod Alloc
pub mod Vec
pub mod Buf
pub mod Hmap
pub mod Arena
