-- ===== src/Update/Install/Kept.antt =====
-- src/auto-update.js, `downloadReleaseUpdate` and `pruneOldUpdates`: the directory of the
-- version that runs.
use git_pigeon.Prelude.{
  ℕ, ◌≡◌, inl, inr, refl, sym, ap, ◌∙◌, Bool, true, false, Option, none, some, [], ◌∷◌, arith,
  Bool-cases, filter,
}
use git_pigeon.Prelude.Text.{Text, text_eq, text_eq→eq, text_eq_refl, is_empty, contains}
use git_pigeon.Prelude.Assoc.{get, put, get-put, get-remove_if}
use git_pigeon.Prelude.Result.{Result, ok, err}
use git_pigeon.Prelude.Checked.{Result-cases}
use git_pigeon.Update.Version.{Version, safe_version, is_newer_version}
use git_pigeon.Update.Version.Order.{newer_strict_order, newer_malformed}
use git_pigeon.Update.Release.{Asset, Release, Body, written}
use git_pigeon.Update.Install.{
  Bytes, Response, UpdateError, Disk, Build, not_modified, found, verified_file, stated_build,
  install_verified, install_stated, install_newer, download_release_update, build_of, install,
  prune_old_updates, is_old, make_directory, made, version_of, release_request,
}

newer-ne : (a b : Text) → is_newer_version a b ≡ true → text_eq a b ≡ false
newer-ne a b h = elim (Bool-cases (text_eq a b)) [
  | inl same ↦
      let k : is_newer_version b b ≡ true =
        ap (λ c. is_newer_version c b) (sym (text_eq→eq a b same)) ∙ h in
      absurd (true_ne (sym k ∙ (newer_strict_order b b b k k).1))
  | inr other ↦ other
]
  where
    true_ne : ¬ (true ≡ false)
    true_ne e = cc

newer-nonempty : (a b : Text) → is_newer_version a b ≡ true → is_empty b ≡ false
unfolding is_empty safe_version
newer-nonempty a [] h = absurd (true_ne (sym h ∙ (newer_malformed [] a refl).1))
  where
    true_ne : ¬ (true ≡ false)
    true_ne e = cc
newer-nonempty a (c ∷ s) h = refl

is_old-second :
    (version running : Text)
    → is_empty running ≡ false
    → is_old (version ∷ running ∷ []) running ≡ false
unfolding is_old filter contains
is_old-second version running h = elim (Bool-cases (is_empty version)) [
  | inl e ↦ rw (e, h) (rw (text_eq_refl running) refl)
  | inr e ↦ rw (e, h) (rw (text_eq_refl running) (ground arith))
]

-- The directory of the version that runs holds the same.
abbrev pub IsKept : Text → Disk → Disk → Type 0
IsKept running disk after = get running after.directories ≡ get running disk.directories

make_directory-IsKept :
    (version running : Text) (disk : Disk)
    → text_eq version running ≡ false
    → IsKept running disk (make_directory version disk)
unfolding make_directory
make_directory-IsKept version running disk h = made-IsKept (get version disk.directories)
  where
    made-IsKept : (o : Option (Option Bytes)) → IsKept running disk (made version o disk)
    made-IsKept none = get-put version running none disk.directories ∙ rw h refl
    made-IsKept (some held) = refl

install-IsKept :
    (b : Build) (running : Text) (disk : Disk)
    → text_eq b.version running ≡ false
    → is_empty running ≡ false
    → IsKept running disk (prune_old_updates (b.version ∷ running ∷ []) (install b disk))
unfolding install prune_old_updates
install-IsKept b running disk h k =
    get-remove_if (is_old (b.version ∷ running ∷ [])) running
      (put b.version (some b.file) disk.directories)
    ∙ rw (is_old-second b.version running k)
        (get-put b.version running (some b.file) disk.directories ∙ rw h refl)

module _ (show : ℕ → Text) (lower : Text → Text) (decode : Bytes → Text)
    (parse : Text → Option Body) (digest : Bytes → Text) (runs : Bytes → Bool)
    (fetch : Text → Response) where
  install_verified-IsKept :
      (version running : Text) (disk : Disk) (expected : Text) (r : Result UpdateError Bytes)
      → text_eq version running ≡ false
      → is_empty running ≡ false
      → IsKept running disk (install_verified version running disk expected r).1
  unfolding install_verified
  install_verified-IsKept version running disk expected (err e) h k = refl
  install_verified-IsKept version running disk expected (ok file) h k =
      install-IsKept (build_of version expected file) running disk h k

  install_stated-IsKept :
      (version running : Text) (disk : Disk) (r : Result UpdateError (Asset × Text))
      → is_newer_version version running ≡ true
      → IsKept running disk
          (install_stated show lower decode parse digest runs fetch version running disk r).1
  unfolding install_stated
  install_stated-IsKept version running disk (err e) h = refl
  install_stated-IsKept version running disk (ok (asset, expected)) h =
      install_verified-IsKept version running (make_directory version disk) expected
        (verified_file show lower decode parse digest runs fetch asset expected)
        (newer-ne version running h) (newer-nonempty version running h)
      ∙ make_directory-IsKept version running disk (newer-ne version running h)

  install_newer-IsKept :
      (name running : Text) (disk : Disk) (release : Option Release) (version : Option Version)
      → IsKept running disk
          (install_newer show lower decode parse digest runs fetch name running disk release
            version).1
  unfolding install_newer
  install_newer-IsKept name running disk none version = refl
  install_newer-IsKept name running disk (some release) none = refl
  install_newer-IsKept name running disk (some release) (some version) =
      elim (Bool-cases (is_newer_version (written show version) running)) [
        | inl newer ↦ rw newer (
            install_stated-IsKept (written show version) running disk
              (stated_build show lower decode parse digest runs fetch release name) newer)
        | inr older ↦ rw older refl
      ]

  -- A check for updates, however it ends, leaves what is in the directory of the version that runs.
  pub download_release_update-IsKept :
      (name : Option Text) (response : Response) (running : Text) (disk : Disk)
      → IsKept running disk
          (download_release_update show lower decode parse digest runs fetch name response running
            disk).1
  unfolding download_release_update
  download_release_update-IsKept none response running disk = refl
  download_release_update-IsKept (some name) response running disk =
      elim (Result-cases (release_request show lower decode parse digest runs fetch response)) [
        | inl (e, failed) ↦ rw failed refl
        | inr (not_modified, same) ↦ rw same refl
        | inr (found release, at) ↦
            rw at (install_newer-IsKept name running disk release (version_of release))
      ]
