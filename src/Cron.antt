-- ===== src/Cron.antt =====
-- The cron jobs of the Agent: internal/agent/cron.
pub mod Schedule
pub mod Tokens
pub mod Validate
pub mod Manager
pub mod Operations
pub mod Requests
pub mod Protected
pub mod Retention
mod Examples
mod ManagerExamples
