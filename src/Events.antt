-- ===== src/Events.antt =====
-- The event bus of internal/platform/events/bus.go.
pub mod Bus
pub mod Delivery
mod Examples
