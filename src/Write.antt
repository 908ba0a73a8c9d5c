-- ===== src/Write.antt =====
-- backends/c/runtime/bbq_runtime.h: the write context and the primitives of the C writers.
pub mod Buffer
pub mod Fixed
pub mod Leb
pub mod Stacks
pub mod Holes
