-- ===== src/Archive.antt =====
-- The extraction of archives by the Agent: internal/agent/archive/manager.go.
pub mod Extract
pub mod Limits
pub mod Confinement
mod Examples
