-- ===== src/Update.antt =====
-- internal/update: the release manifest, update requests, and the engine that installs a release and
-- rolls it back.
pub mod Patterns
pub mod Manifest
pub mod Artifacts
pub mod Disk
pub mod Engine
pub mod Snapshots
pub mod Recovery
pub mod Gates
pub mod History
mod Examples
