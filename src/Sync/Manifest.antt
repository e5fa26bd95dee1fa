-- ===== src/Sync/Manifest.antt =====
-- src/protocol.js, `#validateManifest`: a manifest as it is found, and its chunks and files.
pub mod Check
pub mod Files
pub mod Valid
pub mod Identity
use git_pigeon.Prelude.{
  ℕ, ◌+◌, Bool, true, false, not, ◌&&◌, ◌||◌, ◌==◌, Option, none, some, List, [], ◌∷◌, ◌++◌, map,
  leb, ltb, length, if◌then◌else◌,
}
use git_pigeon.Prelude.Text.{Text, text, text_eq, contains}
use git_pigeon.Prelude.Sorting.{sort_by}
use git_pigeon.Prelude.Result.{◌>>=◌, ◌>>◌, guard}
use git_pigeon.Sync.Chunks.{Chunk, protocol, Bytes}
use git_pigeon.Sync.Records.{is_digest, is_device, is_digest_or_none}

-- A number is `none` where it is no natural number that the engine has exactly.
pub record RawChunk : Type 0 where
  pub sha256 : Text
  pub size : Option ℕ

-- A file of a manifest, private or live. `path` is `none` where its normalisation throws, `deleted`
-- and `executable` where they are no Booleans, `chunks` where it is no array.
pub record RawFile : Type 0 where
  pub path : Option Text
  pub deleted : Option Bool
  pub size : Option ℕ
  pub sha256 : Option Text
  pub base_sha256 : Option Text
  pub executable : Option Bool
  pub chunks : Option (List RawChunk)

pub record File : Type 0 where
  pub path : Text
  pub deleted : Bool
  pub size : ℕ
  pub sha256 : Option Text
  -- For a live file only.
  pub base_sha256 : Option Text
  pub executable : Bool
  pub chunks : List Chunk

-- A property of an object.
pub data Property {ℓ} (A : Type ℓ) : Type ℓ where
  absent null : Property A
  present : A → Property A

pub record PackIndex : Type 0 where
  pub encoding : Text
  pub size : Option ℕ
  pub sha256 : Text
  pub payload : Text

-- A quarantined file; nothing of it is validated.
pub record RawTrash : Type 0 where
  pub path : Option Text
  pub trashed_at : Option Text
  pub size : Option ℕ
  pub sha256 : Option Text
  pub chunks : Option (List RawChunk)

pub record RawManifest : Type 0 where
  pub protocol : Text
  pub repository_id : Text
  pub snapshot_id : Text
  pub device_id : Text
  pub refs_digest : Option Text
  pub bundle_size : Option ℕ
  -- Whether `refs` is an array.
  pub has_refs : Bool
  pub chunks : Option (List RawChunk)
  pub bundle_sha256 : Property Text
  pub pack_index : Option PackIndex
  pub workspace_digest : Property Text
  -- Inside, `none` is what is no array.
  pub files : Property (Option (List RawFile))
  pub live_workspace_digest : Property Text
  pub live_files : Property (Option (List RawFile))
  pub transport_chunk_size : Property (Option ℕ)
  pub trash_files : Property (Option (List RawTrash))

pub record Manifest : Type 0 where
  pub snapshot_id : Text
  pub device_id : Text
  pub refs_digest : Option Text
  pub bundle_size : ℕ
  pub bundle_sha256 : Option Text
  pub pack_index : Option PackIndex
  pub chunks : List Chunk
  pub workspace_digest : Text
  pub files : List File
  pub live_workspace_digest : Text
  pub live_files : List File
  pub transport_chunk_size : Option ℕ
  -- As it was found.
  pub trash_files : Property (Option (List RawTrash))

abbrev pub default_chunk_size : ℕ
default_chunk_size = 16384

abbrev pub max_chunks : ℕ
max_chunks = 1000000

abbrev pub max_files : ℕ
max_files = 100000

abbrev pub is_present {ℓ} : {A : Type ℓ} → Property A → Bool
is_present absent = false
is_present null = true
is_present (present a) = true

abbrev pub value_of {ℓ} : {A : Type ℓ} → Property A → Option A
value_of absent = none
value_of null = none
value_of (present a) = some a

-- `value.files ?? []`, or `none` where that is no array.
abbrev pub listed : Property (Option (List RawFile)) → Option (List RawFile)
listed absent = some []
listed null = some []
listed (present files) = files

abbrev pub total_size : List Chunk → ℕ
total_size [] = 0
total_size (c ∷ cs) = c.size + total_size cs

abbrev pub is_chunk : Text → ℕ → Bool
is_chunk sha256 size = is_digest sha256 && leb 1 size

unfoldable pub valid_chunk : RawChunk → Option Chunk
valid_chunk raw = do
  size ← raw.size
  guard (is_chunk raw.sha256 size)
  some (record { sha256 = raw.sha256; size = size })

-- The chunks, if each is valid.
unfoldable pub valid_chunks : List RawChunk → Option (List Chunk)
unfolding valid_chunk
valid_chunks [] = some []
valid_chunks (raw ∷ raws) = do c ← valid_chunk raw; cs ← valid_chunks raws; some (c ∷ cs)

abbrev pub is_some_digest : Option Text → Bool
is_some_digest none = false
is_some_digest (some s) = is_digest s

abbrev pub is_missing : Option Text → Bool
is_missing none = true
is_missing (some s) = false

-- A deleted file has no content, and another one has a digest.
unfoldable pub is_consistent : File → Bool
is_consistent f =
    if f.deleted
    then f.size == 0 && is_missing f.sha256 && length f.chunks == 0 && not f.executable
    else is_some_digest f.sha256

abbrev pub file_of : Text → Bool → ℕ → Option Text → Bool → RawFile → List Chunk → File
file_of path deleted size base_sha256 executable raw chunks = record {
  path = path;
  deleted = deleted;
  size = size;
  sha256 = raw.sha256;
  base_sha256 = base_sha256;
  executable = executable;
  chunks = chunks;
}

-- What the loops over the files check of one of them, in the light of the paths before and of the
-- chunks counted so far: the file, and the count. A private file has no base and is not executable.
unfoldable pub valid_content :
    Bool → Text → Bool → Option Text → Bool → RawFile → ℕ → Option (File × ℕ)
unfolding valid_chunks is_consistent
valid_content live path deleted base_sha256 executable raw total = do
  raw_chunks ← raw.chunks
  guard (leb (length raw_chunks) max_chunks)
  guard (leb (total + length raw_chunks) max_chunks)
  chunks ← valid_chunks raw_chunks
  size ← raw.size
  guard (total_size chunks == size)
  guard (is_digest_or_none base_sha256)
  let file = file_of path deleted size base_sha256 executable raw chunks
  guard (is_consistent file)
  some (file, total + length raw_chunks)

unfoldable pub valid_file : Bool → List Text → ℕ → RawFile → Option (File × ℕ)
unfolding valid_content
valid_file live seen total raw = do
  path ← raw.path
  guard (not (contains path seen))
  deleted ← raw.deleted
  executable ← if live then raw.executable else some false
  valid_content live path deleted (if live then raw.base_sha256 else none) executable raw total

-- The loop: `none` where a file is not valid.
unfoldable pub valid_files : Bool → List Text → ℕ → List RawFile → Option (List File)
unfolding valid_file
valid_files live seen total [] = some []
valid_files live seen total (raw ∷ raws) = do
  checked ← valid_file live seen total raw
  files ← valid_files live (checked.0.path ∷ seen) checked.1 raws
  some (checked.0 ∷ files)
