-- ===== src/Sync/Records.antt =====
-- src/protocol.js, `#validateHead` and `#validateRegistry`: what a synchroniser takes of the records
-- that it finds. A field that is null or missing is `none`; a text field is what `String` makes of it.
use git_pigeon.Prelude.{
  Bool, true, not, ◌&&◌, Option, none, some, List, [], ◌∷◌, filter, leb, ltb, length,
}
use git_pigeon.Prelude.Text.{Text, text_eq, text_lt}
use git_pigeon.Prelude.Patterns.{is_hex, is_url_safe, every}
use git_pigeon.Prelude.Sorting.{sort_by}
use git_pigeon.Prelude.Result.{◌>>=◌, ◌>>◌, guard}
use git_pigeon.Sync.Chunks.{protocol}

abbrev pub is_digest : Text → Bool
is_digest = is_hex 64

-- `/^[a-zA-Z0-9_-]{8,128}$/`
unfoldable pub is_device : Text → Bool
unfolding every
is_device s = leb 8 (length s) && leb (length s) 128 && every is_url_safe s

-- Null, or a digest.
abbrev pub is_digest_or_none : Option Text → Bool
is_digest_or_none none = true
is_digest_or_none (some s) = is_digest s

unfoldable pub dedup : List Text → List Text
dedup [] = []
dedup (s ∷ ss) = let rest = dedup ss in s ∷ filter (λ t. not (text_eq s t)) rest

-- `[...new Set(values)].sort()`
unfoldable pub sorted_unique : List Text → List Text
unfolding dedup sort_by
sorted_unique values = sort_by text_lt (dedup values)

pub record RawHead : Type 0 where
  pub protocol : Text
  pub repository_id : Text
  pub device_id : Text
  pub snapshot_id : Text
  pub refs_digest : Option Text
  pub content_digest : Option Text
  pub updated_at : Text

pub record Head : Type 0 where
  pub device_id : Text
  pub snapshot_id : Text
  pub refs_digest : Option Text
  pub content_digest : Text
  pub updated_at : Text

abbrev pub or_else : Option Text → Text → Text
or_else none s = s
or_else (some t) s = t

abbrev pub head_of : RawHead → Head
head_of v = record {
  device_id = v.device_id;
  snapshot_id = v.snapshot_id;
  refs_digest = v.refs_digest;
  content_digest = or_else v.content_digest v.snapshot_id;
  updated_at = v.updated_at;
}

-- `#validateHead`
unfoldable pub validate_head : Text → Option RawHead → Option Head
validate_head repository_id none = none
validate_head repository_id (some v) = do
  guard (text_eq v.protocol protocol && text_eq v.repository_id repository_id)
  guard (is_device v.device_id && is_digest v.snapshot_id)
  guard (is_digest_or_none v.refs_digest)
  guard (is_digest (or_else v.content_digest v.snapshot_id))
  some (head_of v)

pub record RawRegistry : Type 0 where
  pub protocol : Text
  pub repository_id : Text
  -- `none` where it is no array.
  pub devices : Option (List Text)

-- `#validateRegistry`: the devices.
unfoldable pub validate_registry : Text → Option RawRegistry → Option (List Text)
unfolding sorted_unique
validate_registry repository_id none = none
validate_registry repository_id (some v) = do
  guard (text_eq v.protocol protocol && text_eq v.repository_id repository_id)
  raw ← v.devices
  let devices = sorted_unique (filter is_device raw)
  guard (not (ltb 10000 (length devices)))
  some devices
