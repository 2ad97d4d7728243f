-- ===== src/ControlPlane.antt =====
-- internal/core/controlplane/manager.go and pkg/controlcapabilities/registry.go: the live Agent
-- sessions of Core, and the commands and streams that are routed over them.
pub mod Capabilities
pub mod Model
pub mod Commands
pub mod Waiters
pub mod Registry
pub mod Reconnect
pub mod Dispatch
pub mod Steps
pub mod Online
mod Examples
