-- ===== src/Site.antt =====
-- The sites of internal/core/site: validation.go, domain.go, repository.go, and the services that
-- provision sites through the Agent and the modules.
pub mod Validation
pub mod Safety
pub mod Records
pub mod Effects
pub mod Lifecycle
pub mod Create
pub mod Update
pub mod Keeps
pub mod Requests
pub mod Updates
pub mod Domains
pub mod Calm
pub mod Undoing
pub mod Creation
mod Examples
mod ServiceExamples
