-- ===== src/Update.antt =====
-- src/auto-update.js and src/peer-update.js: builds that are newer, and how they are fetched and installed.
pub mod Version
pub mod Release
pub mod Install
pub mod Recorded
pub mod Schedule
pub mod Transfer
pub mod Offers
