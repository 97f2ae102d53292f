-- ===== src/WantC.antt =====
-- The package internal/wantc: the compiler, which turns the configuration of a module into graphs.
pub mod Exprs
pub mod Keys
pub mod Graph
pub mod Denote
pub mod Sound
pub mod Merging
pub mod Paths
pub mod Queries
pub mod Vfs
pub mod Lookups
pub mod Compile
pub mod Lower
pub mod Lowered
pub mod Stmts
pub mod Loaded
pub mod Targets
pub mod Ordered
pub mod Plans
pub mod Cycles
pub mod Silent
pub mod Names
pub mod Settings
pub mod Built
pub mod Whole
