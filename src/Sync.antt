-- ===== src/Sync.antt =====
-- src/protocol.js, `RepositorySynchronizer`: what a repository's machines send each other, and what
-- they make of it.
pub mod Chunks
pub mod Records
pub mod Saved
pub mod Manifest
pub mod Heads
