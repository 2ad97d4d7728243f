-- ===== src/Firewall.antt =====
-- The validation of firewall rules: modules/firewall/validation.go.
pub mod Rules
pub mod Accepted
mod Examples
