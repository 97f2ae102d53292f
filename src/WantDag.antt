-- ===== src/WantDag.antt =====
-- src/internal/wantdag: computation graphs, their builder, their wire format and their execution.
pub mod Nodes
pub mod Inputs
pub mod Builder
pub mod Wire
pub mod RoundTrip
pub mod Json
pub mod Exec
pub mod Serial
pub mod Parallel
pub mod Counts
pub mod Schedules
pub mod Initial
pub mod AnyOrder
pub mod Race
