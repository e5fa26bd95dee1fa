-- ===== src/Update/Release.antt =====
-- src/auto-update.js, `highestCompleteRelease`, `releaseAsset` and `checksumFor`: which release is
-- taken, and what is read of its files. How the engine writes a number is a parameter, and so is
-- `toLowerCase`.
pub mod Highest
use git_pigeon.Prelude.{
  ℕ, Bool, true, false, not, ◌&&◌, ◌||◌, ◌==◌, Option, none, some, List, [], ◌∷◌, ◌++◌, take, drop,
  any, length, leb, if◌then◌else◌,
}
use git_pigeon.Prelude.Text.{Text, text, text_eq, is_empty, is_space, trim, trim_start}
use git_pigeon.Prelude.Patterns.{every, is_digit}
use git_pigeon.Update.Version.{Version, safe_version, is_newer_version}

pub record Asset : Type 0 where
  pub name : Text
  -- `String(url ?? '')`
  pub url : Text
  -- `none` where it is no number.
  pub size : Option ℕ
  pub digest : Option Text

pub record Release : Type 0 where
  pub tag_name : Text
  pub draft : Bool
  pub prerelease : Bool
  -- Empty where they are no array.
  pub assets : List Asset

-- What GitHub answers: one release, or a list; what is null or missing is `none`.
pub data Body : Type 0 where
  single : Option Release → Body
  listed : List (Option Release) → Body

abbrev pub checksums_name : Text
checksums_name = text "SHA256SUMS"

abbrev pub is_named : Text → Asset → Bool
is_named name a = text_eq a.name name

-- A release that is published and has its checksums.
unfoldable pub is_complete : Release → Bool
is_complete r = not (r.draft || r.prerelease) && any (is_named checksums_name) r.assets

module _ (show : ℕ → Text) where
  -- `version.value`
  unfoldable pub written : Version → Text
  written v = show v.major ++ (b'.' ∷ (show v.minor ++ (b'.' ∷ show v.patch)))

  unfoldable pub written_of : Option Version → Text
  unfolding written
  written_of none = []
  written_of (some v) = written v

  abbrev pub is_better : Release → Option Release → Bool
  is_better r none = true
  is_better r (some best) =
      is_newer_version (written_of (safe_version r.tag_name))
        (written_of (safe_version best.tag_name))

  abbrev pub has_version : Option Version → Bool
  has_version none = false
  has_version (some v) = true

  -- One turn of the loop.
  abbrev pub better : Option Release → Option Release → Option Release
  better best none = best
  better best (some r) =
      if has_version (safe_version r.tag_name) && is_complete r && is_better r best
      then some r
      else best

  unfoldable pub highest : Option Release → List (Option Release) → Option Release
  highest best [] = best
  highest best (r ∷ rs) = highest (better best r) rs

  -- `highestCompleteRelease`
  unfoldable pub highest_complete_release : Body → Option Release
  unfolding highest
  highest_complete_release (single r) = r
  highest_complete_release (listed rs) = highest none rs

abbrev pub download_prefix : Text
download_prefix = text "https://github.com/PeerPigeon/GitPigeon/releases/download/"

abbrev pub is_prefix : Text → Text → Bool
is_prefix p s = text_eq (take (length p) s) p

unfoldable pub find_asset : Text → List Asset → Option Asset
find_asset name [] = none
find_asset name (a ∷ more) =
    let rest = find_asset name more in if is_named name a then some a else rest

abbrev pub downloadable : Option Asset → Option Asset
downloadable none = none
downloadable (some a) = if is_prefix download_prefix a.url then some a else none

-- `releaseAsset`; `none` where it throws.
unfoldable pub release_asset : Release → Text → Option Asset
unfolding find_asset
release_asset r name = downloadable (find_asset name r.assets)

abbrev begins_lf : Text → Bool
begins_lf [] = false
begins_lf (c ∷ s) = c == 10

abbrev onto_first : ℕ → List Text → List Text
onto_first c [] = (c ∷ []) ∷ []
onto_first c (l ∷ ls) = (c ∷ l) ∷ ls

-- `text.split(/\r?\n/)`
unfoldable pub split_lines : Text → List Text
split_lines [] = [] ∷ []
split_lines (c ∷ s) =
    let rest = split_lines s in
    if c == 10 then [] ∷ rest else if c == 13 && begins_lf s then rest else onto_first c rest

abbrev pub is_any_hex_digit : ℕ → Bool
is_any_hex_digit c = is_digit c || leb b'a' c && leb c b'f' || leb b'A' c && leb c b'F'

abbrev is_within_line : ℕ → Bool
is_within_line c = not (c == 10 || c == 13 || c == 8232 || c == 8233)

abbrev without_star : Text → Text
without_star [] = []
without_star (c ∷ []) = c ∷ []
without_star (c ∷ d ∷ s) = if c == b'*' then d ∷ s else c ∷ d ∷ s

abbrev begins_space : Text → Bool
begins_space [] = false
begins_space (c ∷ s) = is_space c

-- `/^([a-fA-F0-9]{64})\s+\*?(.+)$/`
unfoldable pub checksum_line : Text → Option (Text × Text)
unfolding every is_space trim_start is_empty
checksum_line line =
    let name = without_star (trim_start (drop 64 line)) in
    if length (take 64 line) == 64
      && every is_any_hex_digit (take 64 line)
      && begins_space (drop 64 line)
      && not (is_empty name)
      && every is_within_line name
    then some (take 64 line, name)
    else none

abbrev pub names : Option (Text × Text) → Text → Option Text
names none name = none
names (some (digest, file)) name = if text_eq file name then some digest else none

abbrev pub or_rest : Option Text → Option Text → Option Text
or_rest none rest = rest
or_rest (some digest) rest = some digest

-- The digest on the first line that names the file.
unfoldable pub named_digest : List Text → Text → Option Text
unfolding checksum_line trim
named_digest [] name = none
named_digest (l ∷ ls) name =
    let rest = named_digest ls name in or_rest (names (checksum_line (trim l)) name) rest

abbrev pub lowered : (Text → Text) → Option Text → Option Text
lowered lower none = none
lowered lower (some digest) = some (lower digest)

-- `checksumFor`; `none` where it throws.
unfoldable pub checksum_for : (Text → Text) → Text → Text → Option Text
unfolding named_digest split_lines
checksum_for lower sums name = lowered lower (named_digest (split_lines sums) name)
