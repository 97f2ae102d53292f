-- ===== src/StringSets.antt =====
-- src/internal/stringsets: sets of strings as expression trees.
pub mod Sets
pub mod Methods
pub mod Adequacy
pub mod Answers
pub mod Simplify
pub mod Meaning
pub mod Termination
pub mod Combine
pub mod Prefixes
pub mod Bounding
pub mod BoundingUnion
pub mod PathSets
pub mod Print
pub mod Rewrites
