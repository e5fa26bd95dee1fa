-- ===== src/Terminal.antt =====
-- src/terminal-server.js: the shells that a machine serves to browsers.
pub mod Capture
pub mod Output
pub mod Leases
pub mod Lines
pub mod Sessions
