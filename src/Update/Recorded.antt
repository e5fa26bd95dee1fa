-- ===== src/Update/Recorded.antt =====
-- src/auto-update.js, `readInstalledUpdate` and `clearInstalledUpdate`: the file `current.json`, which is
-- `none` where it is missing or cannot be parsed. `path.resolve`, the separator and whether a path is a
-- file are parameters.
use git_pigeon.Prelude.{
  ℕ, ◌≡◌, Bool, true, false, not, ◌&&◌, ◌==◌, Option, none, some, ◌++◌, take, length, arith,
  if◌then◌else◌,
}
use git_pigeon.Prelude.Text.{Text, text_eq, is_empty}
use git_pigeon.Prelude.Patterns.{is_hex}
use git_pigeon.Update.Version.{Version, safe_version}

-- What the file says; `version` is `none` where it is no natural number.
pub record Recorded : Type 0 where
  pub version : Option ℕ
  pub release_version : Text
  pub executable : Text
  pub sha256 : Text

abbrev is_one : Option ℕ → Bool
is_one none = false
is_one (some n) = n == 1

abbrev is_parsed : Option Version → Bool
is_parsed none = false
is_parsed (some v) = true

module _ (resolve : Text → Text) (separator updates : Text) (is_file : Text → Bool) where
  -- Whether the path lies below the directory of the updates.
  abbrev pub is_below : Text → Bool
  is_below path =
      text_eq (take (length (resolve updates ++ separator)) path) (resolve updates ++ separator)

  -- `readInstalledUpdate`
  unfoldable pub read_installed_update : Option Recorded → Option Recorded
  unfolding safe_version is_hex text_eq
  read_installed_update none = none
  read_installed_update (some r) =
      if is_one r.version
        && is_parsed (safe_version r.release_version)
        && is_below (resolve r.executable)
        && is_hex 64 r.sha256
        && is_file (resolve r.executable)
      then some (record r { executable = resolve r.executable })
      else none

  abbrev is_other : Option Text → Recorded → Bool
  is_other none installed = false
  is_other (some executable) installed =
      not (is_empty executable) && not (text_eq (resolve executable) installed.executable)

  abbrev cleared : Option Recorded → Option Recorded → Option Text → Option Recorded × Bool
  cleared file none executable = (file, false)
  cleared file (some installed) executable =
      if is_other executable installed then (file, false) else (none, true)

  -- `clearInstalledUpdate`: the file that is left, and whether it was removed.
  unfoldable pub clear_installed_update : Option Recorded → Option Text → Option Recorded × Bool
  unfolding read_installed_update
  clear_installed_update file executable = cleared file (read_installed_update file) executable

  -- A file that is not removed stays as it is, and none is left to read where it is.
  clear_installed_update-removed :
      (file : Option Recorded) (executable : Option Text)
      → (let (left, removed) = clear_installed_update file executable in
          left ≡ (if removed then none else file))
  unfolding clear_installed_update
  clear_installed_update-removed file executable = ground arith
