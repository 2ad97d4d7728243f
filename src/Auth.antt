-- ===== src/Auth.antt =====
-- internal/core/auth: roles and permissions, users and refresh sessions, and the auth service over
-- its SQLite repositories.
pub mod Roles
pub mod Store
pub mod Service
pub mod Users
pub mod Hoare
pub mod Rows
pub mod Lockout
pub mod Tokens
pub mod Rotation
mod Examples
