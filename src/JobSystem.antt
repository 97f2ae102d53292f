-- ===== src/JobSystem.antt =====
-- src/want/job.go: the job system above the tables of internal/wantdb.
pub mod Once
pub mod Shared
pub mod Jobs
pub mod Process
pub mod Recorded
pub mod Roots
