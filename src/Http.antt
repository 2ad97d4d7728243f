-- ===== src/Http.antt =====
-- What guards the HTTP interface: the rate limiter of internal/core/server/middleware/ratelimit.go and the
-- WebSocket tickets of internal/core/dashboard/tickets.go.
pub mod Tickets
pub mod OneUse
pub mod Limiter
pub mod Credit
mod Examples
