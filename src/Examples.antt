-- ===== src/Examples.antt =====
-- Runs of the theorems at concrete inputs, and tests of the definitions.
mod Sets
mod Graphs
mod Jobs
mod Pools
mod Database
mod Compiler
mod Lowering
mod Loading
mod Systems
