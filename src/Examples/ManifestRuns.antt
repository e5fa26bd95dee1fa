-- ===== src/Examples/ManifestRuns.antt =====
-- Manifests that are let through, by `#validateManifest` of src/protocol.js. Here the texts that stand
-- for the files and for the snapshot have digests of their own, and every other text one that is no hex.
use git_pigeon.Prelude.{
  ℕ, ◌≡◌, refl, sym, ap, true, false, Option, none, some, [], ◌∷◌, ◌++◌, ◌∙◌, Bool-cases, inl, inr,
  drop, arith, if◌then◌else◌,
}
use git_pigeon.Prelude.Text.{Text, text, text_eq, text_eq→eq, text_lt, contains}
use git_pigeon.Prelude.Patterns.{is_hex}
use git_pigeon.Prelude.Sorting.{sort_by, insert_by}
use git_pigeon.Sync.Chunks.{Bytes, protocol}
use git_pigeon.Sync.Records.{is_device}
use git_pigeon.Sync.Manifest.{RawManifest, RawFile, Manifest, File, absent, null, present}
use git_pigeon.Sync.Manifest.Check.{validate_manifest, or_zero}
use git_pigeon.Sync.Manifest.Valid.{IsManifest, validate_manifest-IsManifest}
use git_pigeon.Sync.Manifest.Identity.{snapshot_id-injective}

abbrev files_id : Text
files_id = text "00112233445566778899aabbccddeeff00112233445566778899aabbccddeeff"

abbrev live_id : Text
live_id = text "ffeeddccbbaa99887766554433221100ffeeddccbbaa99887766554433221100"

abbrev snapshot : Text
snapshot = text "0123456789abcdef0123456789abcdef0123456789abcdef0123456789abcdef"

abbrev no_files : Text
no_files = text "gitpigeon-workspace-v1" ++ (0 ∷ [])

abbrev chunk_id : Text
chunk_id = text "eeeeeeeeeeeeeeeeeeeeeeeeeeeeeeeeeeeeeeeeeeeeeeeeeeeeeeeeeeeeeeee"

abbrev is_shown : ℕ → Text
is_shown n = n ∷ []

abbrev one_live_file : Text
one_live_file =
    text "gitpigeon-live-workspace-v1"
    ++ (0
        ∷ (text "a.txt"
            ++ (0 ∷ (chunk_id ++ (0 ∷ (is_shown 3 ++ (0 ∷ (text "-" ++ (0 ∷ text "-")))))))))

abbrev whole : Text
whole =
    text "gitpigeon-snapshot-v3"
    ++ (0 ∷ (text "-" ++ (0 ∷ (files_id ++ (0 ∷ (live_id ++ (0 ∷ is_shown 16384)))))))

abbrev digest_text : Text → Text
digest_text s =
    if text_eq s no_files
    then files_id
    else if text_eq s one_live_file
    then live_id
    else if text_eq s whole
    then snapshot
    else 0 ∷ s

abbrev undone : Text → Text
undone d =
    if text_eq d files_id
    then no_files
    else if text_eq d live_id
    then one_live_file
    else if text_eq d snapshot
    then whole
    else drop 1 d

undone-digest_text : (s : Text) → undone (digest_text s) ≡ s
unfolding text_eq
undone-digest_text s = elim (Bool-cases (text_eq s no_files)) [
  | inl one ↦ rw one (sym (text_eq→eq s no_files one))
  | inr not_one ↦ elim (Bool-cases (text_eq s one_live_file)) [
    | inl two ↦ rw (not_one, two) (sym (text_eq→eq s one_live_file two))
    | inr not_two ↦ elim (Bool-cases (text_eq s whole)) [
      | inl three ↦ rw (not_one, not_two, three) (sym (text_eq→eq s whole three))
      | inr not_three ↦ rw (not_one, not_two, not_three) refl
    ]
  ]
]

digest_text_injective : (s t : Text) → digest_text s ≡ digest_text t → s ≡ t
digest_text_injective s t e = sym (undone-digest_text s) ∙ ap undone e ∙ undone-digest_text t

shown_injective : (i j : ℕ) → is_shown i ≡ is_shown j → i ≡ j
shown_injective i j e = ground arith

abbrev itself : Bytes → Text
itself payload = payload

abbrev decoded : Text → Bytes
decoded s = s

abbrev raw_file : RawFile
raw_file = record {
  path = some (text "a.txt");
  deleted = some false;
  size = some 3;
  sha256 = some chunk_id;
  base_sha256 = none;
  executable = some false;
  chunks = some (record { sha256 = chunk_id; size = some 3 } ∷ []);
}

abbrev live_file : File
live_file = record {
  path = text "a.txt";
  deleted = false;
  size = 3;
  sha256 = some chunk_id;
  base_sha256 = none;
  executable = false;
  chunks = record { sha256 = chunk_id; size = 3 } ∷ [];
}

abbrev raw_manifest : Text → RawManifest
raw_manifest device_id = record {
  protocol = protocol;
  repository_id = text "repository";
  snapshot_id = snapshot;
  device_id = device_id;
  refs_digest = none;
  bundle_size = some 0;
  has_refs = true;
  chunks = some [];
  bundle_sha256 = null;
  pack_index = none;
  workspace_digest = present files_id;
  files = present (some []);
  live_workspace_digest = present live_id;
  live_files = present (some (raw_file ∷ []));
  transport_chunk_size = absent;
  trash_files = absent;
}

abbrev manifest : Text → Manifest
manifest device_id = record {
  snapshot_id = snapshot;
  device_id = device_id;
  refs_digest = none;
  bundle_size = 0;
  bundle_sha256 = none;
  pack_index = none;
  chunks = [];
  workspace_digest = files_id;
  files = [];
  live_workspace_digest = live_id;
  live_files = live_file ∷ [];
  transport_chunk_size = some 16384;
  trash_files = absent;
}

manifest_run :
    validate_manifest digest_text itself decoded is_shown text_lt
      (text "repository")
      (some snapshot)
      (some (raw_manifest (text "own-device")))
    ≡ some (manifest (text "own-device"))
unfolding validate_manifest text_eq is_hex is_device sort_by insert_by contains
manifest_run = refl

other_run :
    validate_manifest digest_text itself decoded is_shown text_lt
      (text "repository")
      none
      (some (raw_manifest (text "other-device")))
    ≡ some (manifest (text "other-device"))
unfolding validate_manifest text_eq is_hex is_device sort_by insert_by contains
other_run = refl

validate_manifest-IsManifest_example :
    IsManifest digest_text itself decoded is_shown text_lt (manifest (text "own-device"))
validate_manifest-IsManifest_example =
    validate_manifest-IsManifest digest_text itself decoded is_shown text_lt (text "repository")
      (some snapshot) (raw_manifest (text "own-device")) (manifest (text "own-device")) manifest_run

snapshot_id-injective_example :
    (◌≡◌ {A = Option Text} none none)
    × (files_id ≡ files_id)
    × (live_id ≡ live_id)
    × (or_zero (some 16384) ≡ or_zero (some 16384))
snapshot_id-injective_example =
    snapshot_id-injective digest_text itself decoded is_shown text_lt (text "repository")
      (some snapshot) none (raw_manifest (text "own-device")) (raw_manifest (text "other-device"))
      (manifest (text "own-device")) (manifest (text "other-device")) digest_text_injective
      shown_injective (refl, refl) (refl, refl) manifest_run other_run refl
