-- ===== src/Files.antt =====
-- The paths that the Agent may work on: internal/agent/filesystem/path_resolver.go.
pub mod Paths
pub mod Resolution
mod Examples
