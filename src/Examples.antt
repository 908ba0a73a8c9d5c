-- ===== src/Examples.antt =====
-- Runs of the C runtime on concrete data, where the conditions of the theorems hold.
mod Memory
mod Reader
mod Writer
mod Sample
mod Grammar
mod Faults
