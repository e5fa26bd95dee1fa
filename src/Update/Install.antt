-- ===== src/Update/Install.antt =====
-- src/auto-update.js, `downloadReleaseUpdate` and `pruneOldUpdates`: a release is fetched, checked and
-- recorded. What the requests yield is a parameter, and so are the parsing of the releases, the
-- decoding of texts, the digest, and whether a file runs. The file with a temporary name is the value
-- that is handed on; it is gone in the end, whatever happens.
pub mod Checks
pub mod Kept
use git_pigeon.Prelude.{
  ℕ, Bool, true, false, not, ◌&&◌, ◌||◌, ◌==◌, ◌+◌, Option, none, some, List, [], ◌∷◌, ◌++◌, filter,
  flat, length, ltb, if◌then◌else◌,
}
use git_pigeon.Prelude.Text.{Text, text, text_eq, is_empty, contains}
use git_pigeon.Prelude.Assoc.{Assoc, get, put, remove_if}
use git_pigeon.Prelude.Result.{Result, ok, err}
use git_pigeon.Prelude.Checked.{◌>>=◌, ◌>>◌, ensure, or_throw}
use git_pigeon.Update.Version.{Version, safe_version, is_newer_version, leading_digits}
use git_pigeon.Update.Release.{
  Asset, Release, Body, written, written_of, highest_complete_release, release_asset, checksum_for,
  checksums_name,
}

abbrev pub Bytes : Type 0
Bytes = List ℕ

abbrev pub max_metadata_bytes : ℕ
max_metadata_bytes = 2097152

abbrev pub max_checksum_bytes : ℕ
max_checksum_bytes = 262144

abbrev pub max_executable_bytes : ℕ
max_executable_bytes = 268435456

-- `updateAssetName`
unfoldable pub update_asset_name : Text → Text → Option Text
update_asset_name platform arch =
    if text_eq platform (text "darwin") && text_eq arch (text "arm64")
    then some (text "GitPigeon-macos-arm64")
    else if text_eq platform (text "darwin") && text_eq arch (text "x64")
    then some (text "GitPigeon-macos-x64")
    else if text_eq platform (text "linux") && text_eq arch (text "x64")
    then some (text "GitPigeon-linux-x64")
    else if text_eq platform (text "win32") && text_eq arch (text "x64")
    then some (text "GitPigeon-windows-x64.exe")
    else none

-- A response: `declared` is its `content-length`, if that is a number, and the data come in pieces.
pub record Response : Type 0 where
  pub status : ℕ
  pub declared : Option ℕ
  pub pieces : List Bytes

pub data UpdateError : Type 0 where
  too_large check_failed not_parsed missing_asset checksum_failed missing_checksum : UpdateError
  wrong_asset_digest download_failed wrong_digest does_not_run : UpdateError

pub data Outcome : Type 0 where
  unsupported unchanged current : Outcome
  updated : Text → Text → Outcome

-- `updates/current.json`; the executable is the one in the directory of its version.
pub record Installed : Type 0 where
  pub release_version : Text
  pub sha256 : Text

-- The directory `updates`: its directories, each with its executable, and what is recorded.
pub record Disk : Type 0 where
  pub directories : Assoc (Option Bytes)
  pub recorded : Option Installed

-- `response.ok`
abbrev pub is_ok : Response → Bool
is_ok r = not (ltb r.status 200) && ltb r.status 300

abbrev pub exceeds : Option ℕ → ℕ → Bool
exceeds none maximum = false
exceeds (some n) maximum = ltb maximum n

-- `responseText`, before the decoding
unfoldable pub response_bytes : Response → ℕ → Result UpdateError Bytes
response_bytes r maximum = do
  ensure (not (exceeds r.declared maximum)) too_large
  ensure (not (ltb maximum (length (flat r.pieces)))) too_large
  ok (flat r.pieces)

abbrev pub onto : Bytes → Option Bytes → Option Bytes
onto p none = none
onto p (some file) = some (p ++ file)

-- The transformation `guard` of `downloadExecutable`: what is passed on, unless it becomes too much.
unfoldable pub received_within : ℕ → ℕ → List Bytes → Option Bytes
received_within maximum received [] = some []
received_within maximum received (p ∷ ps) =
    let rest = received_within maximum (received + length p) ps in
    if ltb maximum (received + length p) then none else onto p rest

-- `executableAsset.digest && executableAsset.digest !== `sha256:${expected}``
abbrev pub contradicts : Option Text → Text → Bool
contradicts none expected = false
contradicts (some digest) expected =
    not (is_empty digest) && not (text_eq digest (text "sha256:" ++ expected))

-- What a release check finds: nothing new, or a release.
pub data Latest : Type 0 where
  not_modified : Latest
  found : Option Release → Latest

-- A build that passed all checks.
pub record Build : Type 0 where
  pub version : Text
  pub sha256 : Text
  pub file : Bytes

-- `\d+` and then a dot, at the front of a text: what is left.
abbrev pub after_dotted : Text × Text → Option Text
after_dotted ([], rest) = none
after_dotted (c ∷ digits, []) = none
after_dotted (c ∷ digits, d ∷ rest) = if d == b'.' then some rest else none

abbrev begins_digit : Option Text → Bool
begins_digit none = false
begins_digit (some s) = not (is_empty (leading_digits s).0)

abbrev second_part : Option Text → Option Text
second_part none = none
second_part (some s) = after_dotted (leading_digits s)

-- `/^\d+\.\d+\.\d+/`
unfoldable pub is_version_name : Text → Bool
unfolding leading_digits is_empty
is_version_name name = begins_digit (second_part (after_dotted (leading_digits name)))

-- A directory that a pruning removes.
unfoldable pub is_old : List Text → Text → Bool
unfolding is_version_name contains
is_old keep name = not (contains name (filter (λ k. not (is_empty k)) keep)) && is_version_name name

-- `pruneOldUpdates`
unfoldable pub prune_old_updates : List Text → Disk → Disk
unfolding is_old
prune_old_updates keep disk = record disk { directories = remove_if (is_old keep) disk.directories }

abbrev pub made : Text → Option (Option Bytes) → Disk → Disk
made name none disk = record disk { directories = put name none disk.directories }
made name (some held) disk = disk

-- `mkdir` with `recursive`: a directory that is there stays as it is.
unfoldable pub make_directory : Text → Disk → Disk
make_directory name disk = made name (get name disk.directories) disk

unfoldable pub install : Build → Disk → Disk
install b disk = record {
  directories = put b.version (some b.file) disk.directories;
  recorded = some (record { release_version = b.version; sha256 = b.sha256 });
}

abbrev pub build_of : Text → Text → Bytes → Build
build_of version expected file = record { version = version; sha256 = expected; file = file }

-- From the directory's creation on.
unfoldable pub install_verified :
    Text → Text → Disk → Text → Result UpdateError Bytes → Result UpdateError Outcome × Disk
unfolding install prune_old_updates
install_verified version current_version disk expected (err e) = (err e, disk)
install_verified version current_version disk expected (ok file) = (
  ok (updated version expected),
  prune_old_updates (version ∷ current_version ∷ [])
      (install (build_of version expected file) disk),
)

abbrev pub version_of : Option Release → Option Version
version_of none = none
version_of (some r) = safe_version r.tag_name

module _ (show : ℕ → Text) (lower : Text → Text) (decode : Bytes → Text)
    (parse : Text → Option Body) (digest : Bytes → Text) (runs : Bytes → Bool)
    (fetch : Text → Response) where
  -- `downloadExecutable`
  unfoldable pub download_executable : Asset → Text → Result UpdateError Bytes
  unfolding received_within
  download_executable asset expected = do
    ensure (not (exceeds asset.size max_executable_bytes)) too_large
    ensure (is_ok (fetch asset.url)) download_failed
    ensure (not (exceeds (fetch asset.url).declared max_executable_bytes)) too_large
    file ← or_throw (received_within max_executable_bytes 0 (fetch asset.url).pieces) too_large
    ensure (text_eq (digest file) expected) wrong_digest
    ok file

  -- `releaseRequest`
  unfoldable pub release_request : Response → Result UpdateError Latest
  unfolding response_bytes highest_complete_release
  release_request r = if r.status == 304 then ok not_modified else do
    ensure (is_ok r) check_failed
    bytes ← response_bytes r max_metadata_bytes
    body ← or_throw (parse (decode bytes)) not_parsed
    ok (found (highest_complete_release show body))

  -- The checksum of the build, as the release states it.
  unfoldable pub stated_checksum : Release → Asset → Text → Result UpdateError Text
  unfolding release_asset response_bytes checksum_for
  stated_checksum release asset name = do
    sums ← or_throw (release_asset release checksums_name) missing_asset
    ensure (is_ok (fetch sums.url)) checksum_failed
    bytes ← response_bytes (fetch sums.url) max_checksum_bytes
    expected ← or_throw (checksum_for lower (decode bytes) name) missing_checksum
    ensure (not (contradicts asset.digest expected)) wrong_asset_digest
    ok expected

  -- The build of a release, and what it should have as its digest.
  unfoldable pub stated_build : Release → Text → Result UpdateError (Asset × Text)
  unfolding release_asset stated_checksum
  stated_build release name = do
    asset ← or_throw (release_asset release name) missing_asset
    expected ← stated_checksum release asset name
    ok (asset, expected)

  unfoldable pub verified_file : Asset → Text → Result UpdateError Bytes
  unfolding download_executable
  verified_file asset expected = do
    file ← download_executable asset expected
    ensure (runs file) does_not_run
    ok file

  unfoldable pub install_stated :
      Text → Text → Disk → Result UpdateError (Asset × Text) → Result UpdateError Outcome × Disk
  unfolding make_directory verified_file install_verified
  install_stated version current_version disk (err e) = (err e, disk)
  install_stated version current_version disk (ok (asset, expected)) =
      install_verified version current_version (make_directory version disk) expected
        (verified_file asset expected)

  unfoldable pub install_newer :
      Text → Text → Disk → Option Release → Option Version → Result UpdateError Outcome × Disk
  unfolding stated_build install_stated
  install_newer name current_version disk none version = (ok current, disk)
  install_newer name current_version disk (some release) none = (ok current, disk)
  install_newer name current_version disk (some release) (some version) =
      if not (is_newer_version (written show version) current_version)
      then (ok current, disk)
      else install_stated (written show version) current_version disk (stated_build release name)

  abbrev pub install_latest :
      Text → Text → Disk → Result UpdateError Latest → Result UpdateError Outcome × Disk
  install_latest name current_version disk (err e) = (err e, disk)
  install_latest name current_version disk (ok not_modified) = (ok unchanged, disk)
  install_latest name current_version disk (ok (found release)) =
      install_newer name current_version disk release (version_of release)

  -- `downloadReleaseUpdate`, from the build's name on, with the answer of the release check.
  unfoldable pub download_release_update :
      Option Text → Response → Text → Disk → Result UpdateError Outcome × Disk
  unfolding release_request install_newer
  download_release_update none response current_version disk = (ok unsupported, disk)
  download_release_update (some name) response current_version disk =
      install_latest name current_version disk (release_request response)
