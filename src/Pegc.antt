-- ===== src/Pegc.antt =====
-- The analysis of a parser's grammar, pegc/frontend/PegAnalysis.cpp.
pub mod Names
pub mod Ast
pub mod Sets
pub mod First
pub mod Worklist
pub mod Collect
pub mod Kildall
pub mod Graph
pub mod LeftRec
pub mod Warnings
pub mod Follow
pub mod Analyze
