-- ===== src/Snapshot.antt =====
-- src/snapshot-stream.js, `SnapshotStreamServer`: answers a peer's requests for metadata and chunks.
-- The cache, the digest and the transport are parameters: what `readManifest` and `readChunk` yield,
-- `createHash('sha256')` in hex, and whether sending a reply succeeds.
pub mod Serving
pub mod Replies
pub mod Complete
use git_pigeon.Prelude.{
  ℕ, Bool, true, false, not, ◌&&◌, ◌||◌, ◌==◌, Option, none, some, List, [], ◌∷◌, ◌++◌, take, flat,
  filter, length, if◌then◌else◌,
}
use git_pigeon.Prelude.Text.{Text, text, text_eq, contains}
use git_pigeon.Prelude.Patterns.{is_hex}

pub record Manifest : Type 0 where
  pub snapshot_id : Text
  -- `none` where `chunks` is no array. A chunk is named by its `sha256`.
  pub chunks : Option (List Text)
  pub files : List (List Text)
  pub live_files : List (List Text)
  -- The stream passes these over.
  pub trash_files : List (List Text)

-- A field of a JSON object: a string, or anything else.
pub data Field : Type 0 where
  str : Text → Field
  non_string : Field

pub record Frame : Type 0 where
  pub kind : Text
  pub request_id : Text
  pub snapshot_id : Text
  -- `none` where `digests` is no array.
  pub digests : Option (List Text)

pub data Reply : Type 0 where
  metadata : Text → List (Text × Text) → Reply
  not_available : Text → Reply
  chunk_error : Text → Text → Text → Reply
  corrupt : Text → Text → Reply
  chunk : Text → Text → Text → List ℕ → Reply

-- `readChunk`: the bytes, or the message of the error that it throws.
pub data Read : Type 0 where
  bytes : List ℕ → Read
  failed : Text → Read

pub data Lookup : Type 0 where
  found : Manifest → Lookup
  missing : Lookup
  unreadable : Lookup

abbrev pub max_chunks_per_request : ℕ
max_chunks_per_request = 8

abbrev pub is_digest : Text → Bool
is_digest = is_hex 64

abbrev field : Text → List (Text × Field) → Field
field key [] = non_string
field key ((k, v) ∷ o) = if text_eq k key then v else field key o

abbrev keep_strings : List Text → List (Text × Field) → List (Text × Text)
keep_strings [] o = []
keep_strings (key ∷ keys) o = elim (field key o) [
  | str s ↦ (key, s) ∷ keep_strings keys o
  | non_string ↦ keep_strings keys o
]

abbrev metadata_keys : List Text
metadata_keys =
    text "protocol"
    ∷ text "repositoryId"
    ∷ text "repositoryName"
    ∷ text "deviceId"
    ∷ text "serviceInstanceId"
    ∷ text "machineIndexId"
    ∷ text "deviceName"
    ∷ []

unfoldable pub watcher_service_metadata : Option (List (Text × Field)) → Option (List (Text × Text))
watcher_service_metadata none = none
watcher_service_metadata (some o) = some (keep_strings metadata_keys o)

abbrev or_nil : Option (List Text) → List Text
or_nil none = []
or_nil (some xs) = xs

-- Every chunk that the snapshot refers to.
unfoldable pub referenced : Manifest → List Text
referenced m = or_nil m.chunks ++ (flat m.files ++ flat m.live_files)

-- What is served of a request: valid digests, the first few.
unfoldable pub asked : Frame → List Text
asked f = take max_chunks_per_request (filter is_digest (or_nil f.digests))

module _ (sha256 : List ℕ → Text) (read_chunk : Text → Read) where
  -- What is sent for a chunk that has been read.
  unfoldable pub answer : Frame → Text → Read → Reply
  answer f digest (failed message) = chunk_error f.request_id digest message
  answer f digest (bytes payload) =
      if not (text_eq (sha256 payload) digest)
      then corrupt f.request_id digest
      else chunk f.request_id f.snapshot_id digest payload

  -- The replies of the loop over the digests.
  unfoldable pub serve_chunks : Frame → List Text → List Text → List Reply
  unfolding answer
  serve_chunks f known [] = []
  serve_chunks f known (digest ∷ digests) =
      let rest = serve_chunks f known digests in
      if not (contains digest known) then rest else answer f digest (read_chunk digest) ∷ rest

  abbrev pub is_usable : Text → Manifest → Bool
  is_usable id m = text_eq m.snapshot_id id && elim m.chunks [ none ↦ false | some cs ↦ true ]

  unfoldable pub serve_from : Frame → Lookup → List Reply
  unfolding serve_chunks asked referenced
  serve_from f unreadable = []
  serve_from f missing = not_available f.request_id ∷ []
  serve_from f (found m) =
      if is_usable f.snapshot_id m
      then serve_chunks f (referenced m) (asked f)
      else not_available f.request_id ∷ []

  abbrev pub metadata_replies : Frame → Option (List (Text × Text)) → List Reply
  metadata_replies f none = []
  metadata_replies f (some m) = metadata f.request_id m ∷ []

  -- The replies to one frame, as far as they can be sent.
  unfoldable pub handle : Option (List (Text × Field)) → (Text → Lookup) → Frame → List Reply
  unfolding serve_from watcher_service_metadata
  handle get_metadata read_manifest f =
      if text_eq f.kind (text "metadata-request")
      then metadata_replies f (watcher_service_metadata get_metadata)
      else if not (text_eq f.kind (text "chunk-request"))
      then []
      else if not (is_digest f.snapshot_id)
      then []
      else if length (asked f) == 0
      then []
      else serve_from f (read_manifest f.snapshot_id)

-- A reply that cannot be sent throws, and ends the loop.
unfoldable pub send_all : (Reply → Bool) → List Reply → List Reply
send_all sends [] = []
send_all sends (r ∷ rs) = let rest = send_all sends rs in if sends r then r ∷ rest else []

-- The set of the snapshots that are being served, `this.serving`: one enters it before the loop over
-- its chunks and leaves it after, also where a reply throws.
unfoldable pub begin_serving : Text → List Text → List Text
begin_serving id serving = if contains id serving then serving else id ∷ serving

unfoldable pub finish_serving : Text → List Text → List Text
finish_serving id serving = filter (λ s. not (text_eq id s)) serving

unfoldable pub active_snapshot_ids : List Text → List Text
active_snapshot_ids serving = serving
