-- ===== src/Read.antt =====
-- backends/c/runtime/bbq_read.h: the cursor and the decoders of the C readers.
pub mod Ctx
pub mod Stacks
pub mod Window
pub mod Fixed
pub mod Leb
pub mod Owned
