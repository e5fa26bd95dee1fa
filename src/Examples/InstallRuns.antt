-- ===== src/Examples/InstallRuns.antt =====
-- A release that is installed, by src/auto-update.js. Numbers below ten are written as one digit, a
-- file is its own digest, and a text its own bytes.
use git_pigeon.Prelude.{
  ℕ, ◌≡◌, ◌⊎◌, refl, sym, ◌∙◌, any, filter, Bool, true, false, Option, none, some, List, [], ◌∷◌,
  ◌++◌, ◌+◌, All, length, if◌then◌else◌, ◌==◌,
}
use git_pigeon.Prelude.Text.{Text, text, text_eq}
use git_pigeon.Prelude.Assoc.{get, put, remove_if}
use git_pigeon.Prelude.Result.{Result, ok, some_injective}
use mathlib.Core.List.{Memᴰ}
use git_pigeon.Update.Version.{Version, safe_version, is_newer_version, both_newer}
use git_pigeon.Update.Release.{
  Asset, Release, Body, listed, written, highest_complete_release, checksum_for, is_complete,
  written_of,
}
use git_pigeon.Update.Release.Highest.{
  IsReadable, IsCandidate, IsTop, HasNone, highest_complete_release-IsTop,
}
use git_pigeon.Update.Install.{
  Bytes, Response, Disk, Outcome, updated, UpdateError, download_release_update,
}
use git_pigeon.Update.Install.Checks.{IsSound, IsUntouched, download_release_update-IsSound}
use git_pigeon.Update.Install.Kept.{IsKept, download_release_update-IsKept}
use git_pigeon.Update.Schedule.{
  Updater, started, starts, steps, fires, ends, yielded, Reachable, run, finish,
}
use git_pigeon.Update.Schedule.Steady.{IsSteady, Reachable-IsSteady}

abbrev digit : ℕ → Text
digit n = (n + b'0') ∷ []

abbrev itself : Text → Text
itself s = s

abbrev build_digest : Text
build_digest = text "00112233445566778899aabbccddeeff00112233445566778899aabbccddeeff"

abbrev sums : Text
sums =
    text "ffeeddccbbaa99887766554433221100ffeeddccbbaa99887766554433221100  other"
    ++ (13 ∷ 10 ∷ (build_digest ++ text " *GitPigeon-linux-x64"))

checksum_run : checksum_for itself sums (text "GitPigeon-linux-x64") ≡ some build_digest
unfolding checksum_for text_eq
checksum_run = refl

abbrev asset : Text → Text → Asset
asset name url = record {
  name = name;
  url = text "https://github.com/PeerPigeon/GitPigeon/releases/download/" ++ url;
  size = some 3;
  digest = none;
}

abbrev release : Text → Release
release tag = record {
  tag_name = tag;
  draft = false;
  prerelease = false;
  assets =
      asset (text "GitPigeon-linux-x64") (text "build")
      ∷ asset (text "SHA256SUMS") (text "sums")
      ∷ [];
}

abbrev releases : List (Option Release)
releases = some (release (text "v0.1.9")) ∷ none ∷ some (release (text "v0.2.1")) ∷ []

IsReadable-as :
    (r : Release) (w : Version)
    → safe_version r.tag_name ≡ some w
    → safe_version (written digit w) ≡ some w
    → IsReadable digit (some r)
unfolding IsReadable
IsReadable-as r w e k v d = rw (some_injective (sym d ∙ e)) k

abbrev older : Version
older = record { major = 0; minor = 1; patch = 9 }

abbrev newest_version : Version
newest_version = record { major = 0; minor = 2; patch = 1 }

releases-IsReadable : All (IsReadable digit) releases
unfolding safe_version written IsReadable
releases-IsReadable = (
  IsReadable-as (release (text "v0.1.9")) older refl refl,
  (tt, (IsReadable-as (release (text "v0.2.1")) newest_version refl refl, tt)),
)

highest_run : highest_complete_release digit (listed releases) ≡ some (release (text "v0.2.1"))
unfolding highest_complete_release text_eq safe_version is_newer_version is_complete any both_newer
    written_of
highest_run = refl

highest_complete_release-IsTop_example :
    ((b : Release) × (v : Version) × (highest_complete_release digit (listed releases) ≡ some b)
      × IsCandidate b v
      × Memᴰ (some b) releases
      × All (IsTop v) releases)
    ⊎ ((highest_complete_release digit (listed releases) ≡ none) × All HasNone releases)
highest_complete_release-IsTop_example =
    highest_complete_release-IsTop digit releases releases-IsReadable

abbrev payload : Bytes
payload = 7 ∷ 8 ∷ 9 ∷ []

abbrev digest : Bytes → Text
digest file = if length file == 3 then build_digest else []

abbrev runs : Bytes → Bool
runs file = true

abbrev parse : Text → Option Body
parse body = some (listed releases)

abbrev answered : Bytes → Response
answered body = record { status = 200; declared = none; pieces = body ∷ [] }

abbrev fetch : Text → Response
fetch url =
    if text_eq url (text "https://github.com/PeerPigeon/GitPigeon/releases/download/sums")
    then answered sums
    else answered payload

abbrev before : Disk
before = record {
  directories = (text "0.1.9", some (1 ∷ [])) ∷ (text "0.1.8", none) ∷ [];
  recorded = none;
}

abbrev outcome : Result UpdateError Outcome × Disk
outcome =
    download_release_update digit itself itself parse digest runs fetch
      (some (text "GitPigeon-linux-x64")) (answered []) (text "0.1.9") before

install_run : outcome ≡ (
  ok (updated (text "0.2.1") build_digest),
  record {
    directories = (text "0.1.9", some (1 ∷ [])) ∷ (text "0.2.1", some payload) ∷ [];
    recorded = some (record { release_version = text "0.2.1"; sha256 = build_digest });
  },
)
unfolding download_release_update text_eq safe_version is_complete any is_newer_version both_newer
    written_of remove_if filter put get
install_run = refl

download_release_update-IsSound_example :
    IsSound digit itself itself parse digest runs fetch
      (answered [])
      (text "GitPigeon-linux-x64")
      (text "0.1.9")
      outcome
    ⊎ IsUntouched digit itself itself parse digest runs fetch before outcome
download_release_update-IsSound_example =
    download_release_update-IsSound digit itself itself parse digest runs fetch (answered [])
      (text "GitPigeon-linux-x64") (text "0.1.9") before

download_release_update-IsKept_example : IsKept (text "0.1.9") before outcome.1
download_release_update-IsKept_example =
    download_release_update-IsKept digit itself itself parse digest runs fetch
      (some (text "GitPigeon-linux-x64")) (answered []) (text "0.1.9") before

abbrev idle : Updater
idle = started 5

abbrev busy : Updater
busy = run true (record idle { timer = none })

abbrev done : Updater
done = finish (yielded true none) busy

idle_timer : idle.timer ≡ some 5
unfolding started
idle_timer = refl

busy_checking : busy.checking ≡ true
unfolding run started
busy_checking = refl

done_stopped : done.stopped ≡ true
unfolding finish run started
done_stopped = refl

done-Reachable : Reachable 5 done
done-Reachable =
    steps busy done (steps idle busy starts (fires 5 true idle_timer))
      (ends (yielded true none) busy_checking)

Reachable-IsSteady_example : IsSteady done
Reachable-IsSteady_example = Reachable-IsSteady 5 done done-Reachable
