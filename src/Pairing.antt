-- ===== src/Pairing.antt =====
-- src/pairing-identity.js: the pairing window of a machine, its one-time phrase, and the statements
-- that prove the phrase.
pub mod Hex
pub mod Phrase
pub mod Window
