-- ===== src/WantJob.antt =====
-- src/wantjob: tasks, results and the executors that route tasks by the name of their operation.
pub mod Results
pub mod Executors
pub mod Mem
