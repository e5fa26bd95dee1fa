-- ===== src/Examples.antt =====
-- The theorems at concrete inputs, and tests of the definitions.
mod CacheRuns
mod FleetRuns
mod ChunkRuns
mod HeadRuns
mod HistoryRuns
mod InstallRuns
mod ManifestRuns
mod SavedRuns
mod ShareRuns
mod OfferRuns
mod PairingRuns
mod PeersRuns
mod SnapshotRuns
mod TerminalRuns
mod UpdateRuns
