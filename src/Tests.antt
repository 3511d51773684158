-- ===== src/Tests.antt =====
-- Runs of the model on concrete inputs, and the theorems at inputs that meet their hypotheses.
pub mod Division
pub mod Integers
pub mod Bits
pub mod Interpreting
pub mod Calls
pub mod Known
pub mod Addresses
pub mod Layouts
pub mod Sets
pub mod Graphs
