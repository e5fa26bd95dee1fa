-- ===== src/Sync/Manifest/Check.antt =====
-- src/protocol.js, `#validateManifest`, and the digests that name a snapshot, with those of
-- src/workspace.js and src/live-workspace.js. The digest of a text and of bytes, a path's
-- normalisation, `localeCompare`, the writing of numbers and base 64 are parameters.
use git_pigeon.Prelude.{
  ℕ, Bool, true, false, not, ◌&&◌, ◌||◌, ◌==◌, Option, none, some, List, [], ◌∷◌, ◌++◌, map, leb,
  ltb, length, if◌then◌else◌,
}
use git_pigeon.Prelude.Text.{Text, text, text_eq}
use git_pigeon.Prelude.Sorting.{sort_by}
use git_pigeon.Prelude.Result.{◌>>=◌, ◌>>◌, guard}
use git_pigeon.Sync.Chunks.{Chunk, protocol, Bytes}
use git_pigeon.Sync.Records.{is_digest, is_device, is_digest_or_none}
use git_pigeon.Sync.Manifest.{
  File, RawFile, RawChunk, Property, absent, null, present, PackIndex, RawManifest, Manifest,
  default_chunk_size, max_chunks, max_files, is_present, value_of, listed, total_size, valid_chunks,
  is_missing, valid_files,
}

abbrev pub or_else : Option Text → Text → Text
or_else none s = s
or_else (some t) s = t

abbrev pub is_same : Option Text → Text → Bool
is_same none s = true
is_same (some t) s = text_eq s t

abbrev pub at_least : ℕ → Option ℕ → Bool
at_least n none = false
at_least n (some m) = leb n m

-- `(size === 0) === (sha256 === null)`
abbrev pub matches_empty : ℕ → Option Text → Bool
matches_empty size sha256 = if size == 0 then is_missing sha256 else not (is_missing sha256)

-- `value.transportChunkSize ?? DEFAULT_CHUNK_SIZE`
abbrev pub chunk_size_of : Property (Option ℕ) → Option ℕ
chunk_size_of absent = some default_chunk_size
chunk_size_of null = some default_chunk_size
chunk_size_of (present n) = n

-- Whether the manifest has private files, and whether it has live ones.
abbrev pub is_extended : RawManifest → Bool
is_extended v = is_present v.workspace_digest || is_present v.bundle_sha256 || is_present v.files

abbrev pub has_live : RawManifest → Bool
has_live v = is_present v.live_workspace_digest || is_present v.live_files

abbrev pub join : Text → List Text → Text
join separator [] = []
join separator (s ∷ []) = s
join separator (s ∷ t ∷ ts) = s ++ (separator ++ join separator (t ∷ ts))

pub record Bundle : Type 0 where
  pub size : ℕ
  pub sha256 : Option Text
  pub pack_index : Option PackIndex
  pub chunks : List Chunk

abbrev pub or_zero : Option ℕ → ℕ
or_zero none = 0
or_zero (some n) = n

-- The chunks of a bundle of the size that is stated.
unfoldable pub sized_chunks : Option ℕ → Bool → Option (List RawChunk) → Option (ℕ × List Chunk)
unfolding valid_chunks
sized_chunks stated has_refs raw = do
  size ← stated
  guard has_refs
  raw_chunks ← raw
  guard (leb (length raw_chunks) max_chunks)
  chunks ← valid_chunks raw_chunks
  guard (total_size chunks == size)
  some (size, chunks)

-- The files of a list that is not too long.
unfoldable pub checked_files : Bool → Option (List RawFile) → Option (List File)
unfolding valid_files
checked_files live raw = do
  files ← raw
  guard (leb (length files) max_files)
  valid_files live [] 0 files

-- The digest that is stated must be the calculated one; where none need be stated, that one counts.
unfoldable pub stated_files : Bool → Option Text → Text → List File → Option (Text × List File)
stated_files must stated calculated files = do
  let digest = if must then or_else stated [] else calculated
  guard (is_digest digest && text_eq digest calculated)
  some (digest, files)

module _ (digest_text : Text → Text) (digest : Bytes → Text) (base64 : Text → Bytes)
    (show : ℕ → Text) (locale_lt : Text → Text → Bool) where
  -- `${file.sha256}\0${file.size}`, or a dash.
  unfoldable pub content_line : File → Text
  content_line f =
      if f.deleted then text "-" else or_else f.sha256 (text "null") ++ (0 ∷ show f.size)

  unfoldable pub workspace_digest : List File → Text
  unfolding content_line
  workspace_digest files = digest_text (
      text "gitpigeon-workspace-v1"
      ++ (0 ∷ join [] (map (λ f. f.path ++ (0 ∷ (content_line f ++ (10 ∷ [])))) files)))

  unfoldable pub live_line : File → Text
  unfolding content_line
  live_line f =
      f.path
      ++ (0
          ∷ (content_line f
              ++ (0
                  ∷ (or_else f.base_sha256 (text "-")
                      ++ (0 ∷ (if f.executable then text "x" else text "-"))))))

  unfoldable pub live_workspace_digest : List File → Text
  unfolding live_line
  live_workspace_digest files =
      digest_text (text "gitpigeon-live-workspace-v1" ++ (0 ∷ join (10 ∷ []) (map live_line files)))

  -- `snapshotDigest` of a snapshot with live files, and of one without.
  unfoldable pub live_statement : Option Text → Text → Text → ℕ → Text
  live_statement bundle_sha256 files_digest live_digest chunk_size =
      text "gitpigeon-snapshot-v3"
      ++ (0
          ∷ (or_else bundle_sha256 (text "-")
              ++ (0 ∷ (files_digest ++ (0 ∷ (live_digest ++ (0 ∷ show chunk_size)))))))

  unfoldable pub plain_statement : Option Text → Text → Text
  plain_statement bundle_sha256 files_digest =
      text "gitpigeon-snapshot-v1" ++ (0 ∷ (or_else bundle_sha256 (text "-") ++ (0 ∷ files_digest)))

  abbrev pub is_pack_index : PackIndex → ℕ → Bool
  is_pack_index p size =
      text_eq p.encoding (text "base64")
      && leb 1 size
      && is_digest p.sha256
      && length (base64 p.payload) == size
      && text_eq (digest (base64 p.payload)) p.sha256

  unfoldable pub valid_pack_index : Option PackIndex → Option (Option PackIndex)
  valid_pack_index none = some none
  valid_pack_index (some p) = do size ← p.size; guard (is_pack_index p size); some (some p)

  abbrev pub bundle_digest : RawManifest → Option Text
  bundle_digest v = if is_extended v then value_of v.bundle_sha256 else some v.snapshot_id

  -- The bundle's size and digest, and the references, go together.
  unfoldable pub is_bundle : RawManifest → ℕ → List Chunk → Bool
  is_bundle v size chunks =
      matches_empty size (bundle_digest v)
      && is_digest_or_none (bundle_digest v)
      && not (ltb 0 size && is_missing v.refs_digest)
      && not (size == 0 && ltb 0 (length chunks))
      && not (ltb 0 size && length chunks == 0)

  abbrev pub bundle_of : RawManifest → ℕ → List Chunk → Option PackIndex → Bundle
  bundle_of v size chunks pack_index = record {
    size = size;
    sha256 = bundle_digest v;
    pack_index = pack_index;
    chunks = chunks;
  }

  unfoldable pub valid_bundle : RawManifest → Option Bundle
  unfolding valid_pack_index sized_chunks is_bundle
  valid_bundle v = do
    sized ← sized_chunks v.bundle_size v.has_refs v.chunks
    guard (is_bundle v sized.0 sized.1)
    pack_index ← valid_pack_index v.pack_index
    some (bundle_of v sized.0 sized.1 pack_index)

  abbrev pub sorted : List File → List File
  sorted = sort_by (λ f g. locale_lt f.path g.path)

  -- The digest of the private files, and the files.
  unfoldable pub valid_workspace : RawManifest → Option (Text × List File)
  unfolding checked_files workspace_digest stated_files
  valid_workspace v = do
    files ← checked_files false (listed v.files)
    stated_files (is_extended v) (value_of v.workspace_digest) (workspace_digest (sorted files))
        (sorted files)

  -- The digest of the live files, and the files.
  unfoldable pub valid_live : RawManifest → Option (Text × List File)
  unfolding checked_files live_workspace_digest stated_files
  valid_live v = do
    guard (not (has_live v) || at_least 1 (chunk_size_of v.transport_chunk_size))
    files ← checked_files true (listed v.live_files)
    stated_files (has_live v) (value_of v.live_workspace_digest)
        (live_workspace_digest (sorted files)) (sorted files)

  -- The snapshot ID that the parts make.
  unfoldable pub snapshot_digest : RawManifest → Option Text → Text → Text → Text
  unfolding live_statement plain_statement
  snapshot_digest v bundle_sha256 files_digest live_digest = digest_text (
      if has_live v
      then live_statement bundle_sha256 files_digest live_digest
          (or_zero (chunk_size_of v.transport_chunk_size))
      else plain_statement bundle_sha256 files_digest)

  abbrev pub is_named : Text → Option Text → RawManifest → Bool
  is_named repository_id expected v =
      text_eq v.protocol protocol
      && text_eq v.repository_id repository_id
      && is_digest v.snapshot_id
      && is_same expected v.snapshot_id
      && is_device v.device_id
      && is_digest_or_none v.refs_digest

  -- The snapshot ID is the one that the parts make, or the manifest is of a kind that has none.
  unfoldable pub is_identified : RawManifest → Option Text → Text → Text → Bool
  unfolding snapshot_digest
  is_identified v bundle_sha256 files_digest live_digest =
      not (is_extended v)
      || text_eq (snapshot_digest v bundle_sha256 files_digest live_digest) v.snapshot_id

  abbrev pub manifest_of : RawManifest → Bundle → Text × List File → Text × List File → Manifest
  manifest_of v bundle workspace live = record {
    snapshot_id = v.snapshot_id;
    device_id = v.device_id;
    refs_digest = v.refs_digest;
    bundle_size = bundle.size;
    bundle_sha256 = bundle.sha256;
    pack_index = bundle.pack_index;
    chunks = bundle.chunks;
    workspace_digest = workspace.0;
    files = workspace.1;
    live_workspace_digest = live.0;
    live_files = live.1;
    transport_chunk_size = chunk_size_of v.transport_chunk_size;
    trash_files = v.trash_files;
  }

  -- `#validateManifest`
  unfoldable pub validate_manifest : Text → Option Text → Option RawManifest → Option Manifest
  unfolding valid_bundle valid_workspace valid_live is_identified
  validate_manifest repository_id expected none = none
  validate_manifest repository_id expected (some v) = do
    guard (is_named repository_id expected v)
    bundle ← valid_bundle v
    workspace ← valid_workspace v
    live ← valid_live v
    guard (is_identified v bundle.sha256 workspace.0 live.0)
    some (manifest_of v bundle workspace live)

-- `#manifestFitsChunkSize`
abbrev pub all_fit : ℕ → List Chunk → Bool
all_fit chunk_size [] = true
all_fit chunk_size (c ∷ cs) = leb c.size chunk_size && all_fit chunk_size cs

abbrev pub files_fit : ℕ → List File → Bool
files_fit chunk_size [] = true
files_fit chunk_size (f ∷ fs) = all_fit chunk_size f.chunks && files_fit chunk_size fs

abbrev pub is_equal : Option ℕ → ℕ → Bool
is_equal none n = false
is_equal (some m) n = m == n

unfoldable pub manifest_fits_chunk_size : ℕ → Option Manifest → Bool
manifest_fits_chunk_size chunk_size none = false
manifest_fits_chunk_size chunk_size (some m) =
    is_equal m.transport_chunk_size chunk_size
    && all_fit chunk_size m.chunks
    && files_fit chunk_size m.files
    && files_fit chunk_size m.live_files
