-- ===== src/Apperrors.antt =====
-- internal/platform/apperrors/errors.go: typed application errors, and the chains that Go's `%w` and
-- `Unwrap` build. The random error id is left out.
pub mod Defs
pub mod Chain
mod Examples
