-- ===== src/Lib.antt =====
-- GitPigeon keeps Git repositories of several machines in step over a peer-to-peer mesh. This library
-- models the parts of it that decide something, and shows what they guarantee.
--
-- Parts, and the files here that model them:
--
-- * src/fleet-convergence.js, in Fleet: two machines that were paired may hold one index under two
--   secrets; `preferred_fleet_index` decides which one stands and `should_offer_index_to_peer` who
--   hands over. The order of the decisions is in Fleet/Order, what follows in Fleet/Agreement and
--   Fleet/Offers.
-- * src/share-precedence.js, in Share: which of several shares of a repository every side uses.
-- * src/pairing-identity.js, in Pairing: the file `pairing-window.json` is an `Option Window`; each
--   function that changes it returns the new one. Pairing/Phrase is `createPairingPhrase`, whose
--   random blocks are an input.
-- * src/snapshot-stream.js, in Snapshot: `handle` is `#handle`, with the cache's answers as functions;
--   the set `serving` is a list.
-- * src/auto-update.js and src/peer-update.js, in Update: versions and their order, the offers of other
--   machines (Offers), the fetch of a build from one of them, chunk by chunk (Transfer), the choice of a
--   release (Release), its installation with the directory `updates` as a record (Install), the
--   reading of what is recorded (Recorded), and the timer of the checks (Schedule).
-- * src/cache.js and src/retention.js, in Cache: what a pruning removes, and the files of chunks. The
--   two directories are lists of names, and a function yields what a manifest holds.
-- * src/terminal-history.js, in History: the entries and the set of those seen, as a record that each
--   operation takes and returns; History/Seen is about the set, History/Merge about the entries.
-- * src/terminal-server.js, in Terminal: Capture is `#captureHistory`, with what it carries from one piece
--   of output to the next; Output is the way of a shell's output from `#gateOutput` to the frames that
--   `#flushOutput` sends, as a record that each operation takes and returns with the frames; Lines is what
--   is typed into a shell. Sessions is the table of sessions: Opening has `#open`, cut where it waits, and
--   Serving `#receive`, the sweep and the shells; whatever happens is a list of `Happening`. Shells follows
--   a shell from its start to its end, Limits is about the number of sessions, Late about a frame that
--   comes again. Senders tells whom a frame is from, and Leases is about the rooms that the server
--   listens to.
-- * src/fleet-peers.js, in Peers: each operation takes the peers that are read and returns those that
--   are written; Peers/Pinning is about finding them, Peers/Reading about the file.
-- * src/protocol.js, in Sync: Sync/Chunks is `#cacheChunks` and `#retrieveChunks`, with the cache as a
--   list that each operation takes and returns; Sync/Records and Sync/Manifest are what the storage's
--   records must be, with the digests of src/workspace.js and src/live-workspace.js; Sync/Heads is what
--   a head that is received does to the synchroniser's state, and Sync/Saved what is taken of a state
--   that was saved.
--
-- Prelude has what these share: texts as lists of UTF-16 code units (`Text`), instants as whole
-- milliseconds (`ℤ`), patterns, lists, results, maps (Prelude/Assoc), and choices by a strict order
-- (Prelude/Choice). Examples has the theorems at concrete inputs.
--
-- What the code takes from elsewhere is a parameter: the engine's `Date.parse`, `toISOString`,
-- `toUpperCase`, `localeCompare` and writing of numbers, the digests and the cipher of node:crypto,
-- for Terminal the decoders, the encoding of a frame's text, its length in UTF-8 and how the start of a
-- shell ends, for Update what requests yield, for
-- Snapshot the cache, for Sync the mesh's storage and how an import ends, and whether a message or a
-- write succeeds.
-- A missing field and null are both `none`. A write to a file is done before the next message is read;
-- in particular the statements that reach a pairing window are judged one after the other. The files in
-- quarantine (`trashFiles`) stand in the manifests of Cache, Snapshot and Sync, and are passed over
-- where the sources pass over them.
-- Bounds on rounds are that of `exchange` in Update/Transfer/Progress, a round for each 16 KiB and one at
-- least, and the length of the text for the loops of Terminal/Capture and Terminal/Output, of which each
-- round takes some away; they are shown to be enough. The parts of a version are whole numbers; the
-- engine's are exact up to 2^53.
--
-- Not modelled: the mesh, encryption, processes, the file system and git itself, which the sources
-- call; the command line; and for now the machine index, the publishing and importing of snapshots,
-- the workspaces, how the terminal's shells are started, and the services around them.
mod Prelude
pub mod Cache
pub mod Fleet
pub mod History
pub mod Share
pub mod Pairing
pub mod Peers
pub mod Snapshot
pub mod Sync
pub mod Terminal
pub mod Update
mod Examples
