-- ===== src/Examples/HeadRuns.antt =====
-- Heads that are received, by `#acceptHead` of src/protocol.js.
use git_pigeon.Prelude.{ℕ, ◌≡◌, refl, none, some, [], ◌∷◌}
use git_pigeon.Prelude.Text.{Text, text, text_eq}
use git_pigeon.Prelude.Patterns.{is_hex}
use git_pigeon.Prelude.Assoc.{get}
use git_pigeon.Sync.Chunks.{protocol}
use git_pigeon.Sync.Records.{RawHead, Head, validate_head, is_device}
use git_pigeon.Sync.Heads.{State, Import, Effect, no_manifest, accept_head}
use git_pigeon.Sync.Heads.Own.{own_snapshot, accept_head-own_snapshot}

abbrev repository : Text
repository = text "repository"

abbrev first_snapshot : Text
first_snapshot = text "00112233445566778899aabbccddeeff00112233445566778899aabbccddeeff"

abbrev other_snapshot : Text
other_snapshot = text "ffeeddccbbaa99887766554433221100ffeeddccbbaa99887766554433221100"

abbrev head_from : Text → Text → RawHead
head_from device_id snapshot_id = record {
  protocol = protocol;
  repository_id = repository;
  device_id = device_id;
  snapshot_id = snapshot_id;
  refs_digest = none;
  content_digest = none;
  updated_at = text "2026-01-01T00:00:00.000Z";
}

-- A machine that published a snapshot.
abbrev published : State
published = record {
  heads = (text "own-device", head_from (text "own-device") first_snapshot) ∷ [];
  imported = [];
  imported_refs = [];
  devices = [];
  registry_devices = [];
  backoff = [];
}

abbrev no_source : Head → Import
no_source head = no_manifest

abbrev received : ℕ → RawHead → State → State × Effect
received now head s = accept_head repository (text "own-device") no_source now (some head) s

foreign_own_head :
    (received 5 (head_from (text "own-device") other_snapshot) published).0.heads ≡ published.heads
unfolding accept_head text_eq is_device is_hex get
foreign_own_head = refl

published_snapshot : own_snapshot repository (text "own-device") published ≡ some first_snapshot
unfolding own_snapshot validate_head get text_eq is_device is_hex
published_snapshot = refl

accept_head-own_snapshot_example :
    own_snapshot repository
      (text "own-device")
      (received 5 (head_from (text "own-device") other_snapshot) published).0
    ≡ some first_snapshot
accept_head-own_snapshot_example =
    accept_head-own_snapshot repository (text "own-device") no_source 5
      (some (head_from (text "own-device") other_snapshot)) published first_snapshot
      published_snapshot
