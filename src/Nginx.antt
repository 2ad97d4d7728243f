-- ===== src/Nginx.antt =====
-- The web server's configuration of the managed sites: modules/nginx/sites.go for the local host, and
-- internal/agent/nginxsite/manager.go for a remote one.
pub mod Host
pub mod Sites
pub mod Managed
pub mod Applied
pub mod Undo
mod Examples
