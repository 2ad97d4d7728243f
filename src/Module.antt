-- ===== src/Module.antt =====
-- The background jobs of internal/core/module: the job repository and the operations of jobs.go.
pub mod Jobs
pub mod Interrupted
pub mod History
mod Examples
