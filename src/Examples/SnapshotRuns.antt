-- ===== src/Examples/SnapshotRuns.antt =====
-- Requests for snapshot chunks, by src/snapshot-stream.js.
use git_pigeon.Prelude.{ℕ, ◌≡◌, refl, none, some, List, [], ◌∷◌, map, filter, All}
use git_pigeon.Prelude.Text.{Text, text, text_eq, contains}
use git_pigeon.Prelude.Patterns.{is_hex}
use git_pigeon.Snapshot.{
  Manifest, Frame, chunk, Read, bytes, Lookup, found, referenced, asked, handle,
}
use git_pigeon.Snapshot.Replies.{handle-IsSound, IsSound}
use git_pigeon.Snapshot.Complete.{handle_complete, digest_of}

abbrev snapshot : Text
snapshot = text "00112233445566778899aabbccddeeff00112233445566778899aabbccddeeff"

abbrev one_chunk : Text
one_chunk = text "ffeeddccbbaa99887766554433221100ffeeddccbbaa99887766554433221100"

abbrev sha256 : List ℕ → Text
sha256 payload = one_chunk

abbrev read_chunk : Text → Read
read_chunk digest = bytes (1 ∷ 2 ∷ [])

abbrev manifest : Manifest
manifest = record {
  snapshot_id = snapshot;
  chunks = some (one_chunk ∷ []);
  files = [];
  live_files = [];
  trash_files = [];
}

abbrev read_manifest : Text → Lookup
read_manifest id = found manifest

abbrev frame : Frame
frame = record {
  kind = text "chunk-request";
  request_id = text "q";
  snapshot_id = snapshot;
  digests = some (one_chunk ∷ snapshot ∷ text "short" ∷ []);
}

frame_run :
    handle sha256 read_chunk none read_manifest frame
    ≡ chunk (text "q") snapshot one_chunk (1 ∷ 2 ∷ []) ∷ []
unfolding handle is_hex text_eq contains filter
frame_run = refl

handle-IsSound_example :
    All
      (IsSound sha256 read_chunk read_manifest frame)
      (handle sha256 read_chunk none read_manifest frame)
handle-IsSound_example = handle-IsSound sha256 read_chunk none read_manifest frame

handle_complete_example :
    map digest_of (handle sha256 read_chunk none read_manifest frame)
    ≡ filter (λ d. contains d (referenced manifest)) (asked frame)
unfolding is_hex text_eq
handle_complete_example =
    handle_complete sha256 read_chunk none read_manifest frame manifest refl refl refl refl
