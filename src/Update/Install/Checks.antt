-- ===== src/Update/Install/Checks.antt =====
-- src/auto-update.js, `downloadReleaseUpdate`: a build that is installed.
use git_pigeon.Prelude.{
  ℕ, ◌+◌, ◌≤◌, ◌≡◌, ◌⊎◌, inl, inr, refl, sym, ap, ◌∙◌, Bool, true, false, not, Option, none, some,
  List, [], ◌∷◌, ◌++◌, arith, length, ltb, length-append, Bool-cases, filter,
}
use git_pigeon.Prelude.Text.{Text, text_eq, text_eq→eq, text_eq_refl, is_empty, contains}
use git_pigeon.Prelude.Assoc.{get, put, get-put_self, get-remove_if}
use git_pigeon.Prelude.Result.{Result, ok, err, some_injective}
use git_pigeon.Prelude.Checked.{
  or_throw, >>=-eq-ok, ensure-eq-ok, or_throw-eq-ok, ok_injective, Result-cases,
}
use git_pigeon.Update.Version.{Version, safe_version, is_newer_version}
use git_pigeon.Update.Release.{
  Asset, Release, Body, written, checksum_for, release_asset, checksums_name,
}
use git_pigeon.Update.Install.{
  Bytes, Response, UpdateError, Outcome, updated, Disk, Build, not_modified, found,
  max_executable_bytes, max_checksum_bytes, received_within, onto, download_executable,
  verified_file, stated_checksum, stated_build, install_verified, install_stated, install_newer,
  download_release_update, build_of, install, prune_old_updates, is_old, make_directory, made,
  response_bytes, exceeds, is_ok, contradicts, version_of, release_request,
}

received_within-le :
    (maximum received : ℕ) (pieces : List Bytes) (file : Bytes)
    → received ≤ maximum
    → received_within maximum received pieces ≡ some file
    → received + length file ≤ maximum
unfolding received_within
received_within-le maximum received [] file h e = rw (sym (some_injective e)) (omega arith)
received_within-le maximum received (p ∷ ps) file h e =
    elim (Bool-cases (ltb maximum (received + length p))) [
      | inl much ↦ absurd (ground (arith, rw much at e))
      | inr fits ↦
          onto_le maximum received p (received_within maximum (received + length p) ps) file
            (λ rest d. received_within-le maximum (received + length p) ps rest (ground arith) d)
            (rw fits at e)
    ]
  where
    onto_le :
        (maximum received : ℕ) (p : Bytes) (o : Option Bytes) (file : Bytes)
        → ((rest : Bytes) → o ≡ some rest → received + length p + length rest ≤ maximum)
        → onto p o ≡ some file
        → received + length file ≤ maximum
    onto_le maximum received p none file k e = absurd (ground arith)
    onto_le maximum received p (some rest) file k e =
        rw (sym (some_injective e)) (ground (arith, length-append p rest, k rest refl))

-- A file that may be installed under a checksum.
pub record IsVerified (digest : Bytes → Text) (runs : Bytes → Bool) (sha256 : Text) (file : Bytes)
    : Type 0 where
  pub digest_eq : digest file ≡ sha256
  pub runs_ok : runs file ≡ true
  pub within : length file ≤ max_executable_bytes

-- A digest that the release's checksums, as they are fetched, state for the file of that name.
pub record IsStated (lower : Text → Text) (decode : Bytes → Text) (fetch : Text → Response)
    (release : Release) (name sha256 : Text) : Type 0 where
  pub sums : Asset
  pub sums_bytes : Bytes
  pub sums_asset : release_asset release checksums_name ≡ some sums
  pub sums_fetched : response_bytes (fetch sums.url) max_checksum_bytes ≡ ok sums_bytes
  pub checksum_eq : checksum_for lower (decode sums_bytes) name ≡ some sha256

written_nonempty : (show : ℕ → Text) (v : Version) → is_empty (written show v) ≡ false
unfolding written is_empty
written_nonempty show v = nonempty (show v.major) b'.' _
  where
    nonempty : (s : Text) (c : ℕ) (t : Text) → is_empty (s ++ (c ∷ t)) ≡ false
    nonempty [] c t = refl
    nonempty (d ∷ s) c t = refl

-- A pruning leaves the first of the versions that it keeps.
is_old-first :
    (version current_version : Text)
    → is_empty version ≡ false
    → is_old (version ∷ current_version ∷ []) version ≡ false
unfolding is_old filter contains
is_old-first version current_version h = rw h (rw (text_eq_refl version) refl)

-- What the disk is like once a build is installed.
pub record IsOn (disk : Disk) (b : Build) : Type 0 where
  pub recorded_eq : disk.recorded ≡ some (record { release_version = b.version; sha256 = b.sha256 })
  pub directory_eq : get b.version disk.directories ≡ some (some b.file)

install-IsOn :
    (current_version : Text) (b : Build) (disk : Disk)
    → is_empty b.version ≡ false
    → IsOn (prune_old_updates (b.version ∷ current_version ∷ []) (install b disk)) b
unfolding prune_old_updates install
install-IsOn current_version b disk h = record {
  recorded_eq = refl;
  directory_eq =
      get-remove_if (is_old (b.version ∷ current_version ∷ [])) b.version
        (put b.version (some b.file) disk.directories)
      ∙ (rw (is_old-first b.version current_version h)
          (get-put_self b.version (some b.file) disk.directories));
}

module _ (show : ℕ → Text) (lower : Text → Text) (decode : Bytes → Text)
    (parse : Text → Option Body) (digest : Bytes → Text) (runs : Bytes → Bool)
    (fetch : Text → Response) where
  verified_file-IsVerified :
      (asset : Asset) (expected : Text) (file : Bytes)
      → verified_file show lower decode parse digest runs fetch asset expected ≡ ok file
      → IsVerified digest runs expected file
  unfolding verified_file download_executable
  verified_file-IsVerified asset expected file h =
      let (f, downloaded, then_runs) =
        >>=-eq-ok (download_executable show lower decode parse digest runs fetch asset expected) _
          h in
      let (r, same) = ensure-eq-ok (runs f) _ _ then_runs in
      let (small, h1) =
        ensure-eq-ok (not (exceeds asset.size max_executable_bytes)) _ _ downloaded in
      let (answered, h2) = ensure-eq-ok (is_ok (fetch asset.url)) _ _ h1 in
      let (declared, h3) =
        ensure-eq-ok (not (exceeds (fetch asset.url).declared max_executable_bytes)) _ _ h2 in
      let (g, received, h4) =
        >>=-eq-ok (or_throw (received_within max_executable_bytes 0 (fetch asset.url).pieces) _) _
          h3 in
      let (right, h5) = ensure-eq-ok (text_eq (digest g) expected) _ _ h4 in
      let same_file : g ≡ file = ok_injective h5 ∙ ok_injective same in
      record {
        digest_eq = ap digest (sym same_file) ∙ text_eq→eq (digest g) expected right;
        runs_ok = ap runs (sym (ok_injective same)) ∙ r;
        within = ground (
          arith,
          received_within-le max_executable_bytes 0 (fetch asset.url).pieces file (ground arith) (
              or_throw-eq-ok (received_within max_executable_bytes 0 (fetch asset.url).pieces) _
                received
              ∙ ap some same_file),
        );
      }

  stated_build-IsStated :
      (release : Release) (name : Text) (asset : Asset) (expected : Text)
      → stated_build show lower decode parse digest runs fetch release name ≡ ok (asset, expected)
      → IsStated lower decode fetch release name expected
  unfolding stated_build stated_checksum
  stated_build-IsStated release name asset expected h =
      let (a, named, h1) = >>=-eq-ok (or_throw (release_asset release name) _) _ h in
      let (e, checked, h2) =
        >>=-eq-ok (stated_checksum show lower decode parse digest runs fetch release a name) _ h1 in
      let same : e ≡ expected = ap (λ (r : Asset × Text). r.1) (ok_injective h2) in
      let (sums, listed, h3) =
        >>=-eq-ok (or_throw (release_asset release checksums_name) _) _ checked in
      let (answered, h4) = ensure-eq-ok (is_ok (fetch sums.url)) _ _ h3 in
      let (bytes, read, h5) = >>=-eq-ok (response_bytes (fetch sums.url) _) _ h4 in
      let (d, found_digest, h6) =
        >>=-eq-ok (or_throw (checksum_for lower (decode bytes) name) _) _ h5 in
      let (agrees, h7) = ensure-eq-ok (not (contradicts a.digest d)) _ _ h6 in
      record {
        sums = sums;
        sums_bytes = bytes;
        sums_asset = or_throw-eq-ok (release_asset release checksums_name) _ listed;
        sums_fetched = read;
        checksum_eq =
            or_throw-eq-ok (checksum_for lower (decode bytes) name) _ found_digest
            ∙ ap some (ok_injective h7 ∙ same);
      }

  -- How a check for updates can end with something installed.
  pub record IsSound (response : Response) (name current_version : Text)
      (r : Result UpdateError Outcome × Disk) : Type 0 where
    pub release : Release
    pub version : Version
    pub sha256 : Text
    pub file : Bytes
    pub release_found :
        release_request show lower decode parse digest runs fetch response
        ≡ ok (found (some release))
    pub version_eq : safe_version release.tag_name ≡ some version
    pub newer : is_newer_version (written show version) current_version ≡ true
    pub stated : IsStated lower decode fetch release name sha256
    pub verified : IsVerified digest runs sha256 file
    pub outcome_eq : r.0 ≡ ok (updated (written show version) sha256)
    pub on_disk : IsOn r.1 (record { version = written show version; sha256 = sha256; file = file })

  -- Nothing is installed: what is recorded stays, and the outcome is another one.
  abbrev pub IsUntouched : Disk → Result UpdateError Outcome × Disk → Type 0
  IsUntouched disk r =
      (r.1.recorded ≡ disk.recorded)
      × ((version sha256 : Text) → ¬ (r.0 ≡ ok (updated version sha256)))

  make_directory-recorded :
      (name : Text) (disk : Disk) → (make_directory name disk).recorded ≡ disk.recorded
  unfolding make_directory
  make_directory-recorded name disk = made-recorded name (get name disk.directories) disk
    where
      made-recorded :
          (name : Text) (o : Option (Option Bytes)) (disk : Disk)
          → (made name o disk).recorded ≡ disk.recorded
      made-recorded name none disk = refl
      made-recorded name (some held) disk = refl

  failed-IsUntouched :
      (e : UpdateError) (disk after : Disk)
      → after.recorded ≡ disk.recorded
      → IsUntouched disk (err e, after)
  failed-IsUntouched e disk after same = (same, λ version sha256 h. cc)

  install_stated-IsSound :
      (response : Response) (name current_version : Text) (disk : Disk) (release : Release)
      (version : Version)
      → release_request show lower decode parse digest runs fetch response
        ≡ ok (found (some release))
      → safe_version release.tag_name ≡ some version
      → is_newer_version (written show version) current_version ≡ true
      → IsSound response name current_version (
          install_stated show lower decode parse digest runs fetch
            (written show version)
            current_version
            disk
            (stated_build show lower decode parse digest runs fetch release name))
        ⊎ IsUntouched disk (
            install_stated show lower decode parse digest runs fetch
              (written show version)
              current_version
              disk
              (stated_build show lower decode parse digest runs fetch release name))
  unfolding install_stated install_verified
  install_stated-IsSound response name current_version disk release version at tag newer =
      let v = written show version in
      elim (Result-cases (stated_build show lower decode parse digest runs fetch release name)) [
        | inl (e, failed) ↦ inr (rw failed (failed-IsUntouched e disk disk refl))
        | inr ((asset, expected), stated) ↦
            rw stated
              (elim (Result-cases
                (verified_file show lower decode parse digest runs fetch asset expected)) [
                  | inl (e, failed) ↦ inr (
                      rw failed (
                        failed-IsUntouched e disk (make_directory v disk)
                          (make_directory-recorded v disk)))
                  | inr (file, verified) ↦ inl (
                      rw verified (record {
                        release = release;
                        version = version;
                        sha256 = expected;
                        file = file;
                        release_found = at;
                        version_eq = tag;
                        newer = newer;
                        stated = stated_build-IsStated release name asset expected stated;
                        verified = verified_file-IsVerified asset expected file verified;
                        outcome_eq = refl;
                        on_disk =
                            install-IsOn current_version (build_of v expected file)
                              (make_directory v disk) (written_nonempty show version);
                      }))
                ])
      ]

  install_newer-IsSound :
      (response : Response) (name current_version : Text) (disk : Disk) (release : Option Release)
      (version : Option Version)
      → release_request show lower decode parse digest runs fetch response ≡ ok (found release)
      → version_of release ≡ version
      → IsSound response name current_version (
          install_newer show lower decode parse digest runs fetch name current_version disk release
            version)
        ⊎ IsUntouched disk (
            install_newer show lower decode parse digest runs fetch name current_version disk
              release version)
  unfolding install_newer
  install_newer-IsSound response name current_version disk none version at tag =
      inr (refl, λ v sha256 h. cc)
  install_newer-IsSound response name current_version disk (some release) none at tag =
      inr (refl, λ v sha256 h. cc)
  install_newer-IsSound response name current_version disk (some release) (some version) at tag =
      elim (Bool-cases (is_newer_version (written show version) current_version)) [
        | inl newer ↦
            rw newer (
              install_stated-IsSound response name current_version disk release version at tag
                newer)
        | inr older ↦ rw older (inr (refl, λ v sha256 h. cc))
      ]

  -- A check for updates either installs a build, or leaves what is recorded. A build that is installed
  -- is of a release that GitHub answered with, newer than the version that runs; its file has the digest
  -- that this release's checksums, as they are fetched, state under the build's name, is no longer than
  -- 256 MiB, runs, and is recorded and in the directory of its version afterwards.
  pub download_release_update-IsSound :
      (response : Response) (name current_version : Text) (disk : Disk)
      → (let r =
            download_release_update show lower decode parse digest runs fetch
              (some name)
              response
              current_version
              disk in
          IsSound response name current_version r ⊎ IsUntouched disk r)
  unfolding download_release_update
  download_release_update-IsSound response name current_version disk =
      elim (Result-cases (release_request show lower decode parse digest runs fetch response)) [
        | inl (e, failed) ↦ rw failed (inr (failed-IsUntouched e disk disk refl))
        | inr (not_modified, same) ↦ rw same (inr (refl, λ v sha256 h. cc))
        | inr (found release, at) ↦ rw at (
            install_newer-IsSound response name current_version disk release (version_of release) at
              refl)
      ]
