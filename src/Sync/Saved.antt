-- ===== src/Sync/Saved.antt =====
-- src/protocol.js, `#normalizeState`: what a synchroniser takes of the state that it saved. The two
-- normalisations of paths are parameters, `none` where they throw. Objects are lists of keys and values.
pub mod Clean
use git_pigeon.Prelude.{
  ◌≡◌, refl, ◌&&◌, Bool, true, false, Option, none, some, List, [], ◌∷◌, All, Bool-cases,
  Option-cases, inl, inr, if◌then◌else◌,
}
use git_pigeon.Prelude.Text.{Text}
use git_pigeon.Prelude.Assoc.{Assoc, put, All-put_at}
use git_pigeon.Sync.Records.{RawHead, is_device, is_digest_or_none}

-- A value that is not null: what `String` makes of it, and whether it is a string itself.
pub record SavedValue : Type 0 where
  pub string : Text
  pub is_string : Bool

-- Null is `none`.
abbrev pub Baselines : Type 0
Baselines = Assoc (Option SavedValue)

abbrev pub string_of : Option SavedValue → Option Text
string_of none = none
string_of (some v) = some v.string

-- `baseline === null || DIGEST.test(String(baseline))`
abbrev pub is_null_or_digest : Option SavedValue → Bool
is_null_or_digest v = is_digest_or_none (string_of v)

-- A property that is no object is `none`.
pub record RawState : Type 0 where
  pub heads : Option (Assoc RawHead)
  pub imported : Option (Assoc Text)
  pub file_baselines : Option Baselines
  pub live_baselines : Option (Assoc (Option Baselines))
  pub imported_refs : Option Baselines

pub record SavedState : Type 0 where
  pub heads : Assoc RawHead
  pub imported : Assoc Text
  pub file_baselines : Baselines
  pub live_baselines : Assoc Baselines
  pub imported_refs : Baselines

abbrev pub or_empty {ℓ} : {A : Type ℓ} → Option (List A) → List A
or_empty none = []
or_empty (some entries) = entries

abbrev pub keep_baseline : Option Text → Option SavedValue → Baselines → Baselines
keep_baseline none baseline kept = kept
keep_baseline (some path) baseline kept =
    if is_null_or_digest baseline then put path baseline kept else kept

-- The loop over the baselines of paths.
unfoldable pub normalize_baselines : (Text → Option Text) → Baselines → Baselines → Baselines
normalize_baselines normalize [] kept = kept
normalize_baselines normalize ((file, baseline) ∷ entries) kept =
    normalize_baselines normalize entries (keep_baseline (normalize file) baseline kept)

abbrev pub keep_live :
    (Text → Option Text) → Text → Option Baselines → Assoc Baselines → Assoc Baselines
keep_live normalize device_id none kept = kept
keep_live normalize device_id (some entries) kept =
    if is_device device_id
    then put device_id (normalize_baselines normalize entries []) kept
    else kept

unfoldable pub normalize_live :
    (Text → Option Text) → Assoc (Option Baselines) → Assoc Baselines → Assoc Baselines
unfolding normalize_baselines is_device
normalize_live normalize [] kept = kept
normalize_live normalize ((device_id, entries) ∷ devices) kept =
    normalize_live normalize devices (keep_live normalize device_id entries kept)

unfoldable pub normalize_refs : Baselines → Baselines → Baselines
unfolding is_device
normalize_refs [] kept = kept
normalize_refs ((device_id, digest) ∷ entries) kept =
    normalize_refs entries
      (if is_device device_id && is_null_or_digest digest then put device_id digest kept else kept)

module _ (normalize normalize_live_path : Text → Option Text) where
  -- `#normalizeState`
  unfoldable pub normalize_state : Option RawState → SavedState
  unfolding normalize_baselines normalize_live normalize_refs
  normalize_state none = record {
    heads = [];
    imported = [];
    file_baselines = [];
    live_baselines = [];
    imported_refs = [];
  }
  normalize_state (some v) = record {
    heads = or_empty v.heads;
    imported = or_empty v.imported;
    file_baselines = normalize_baselines normalize (or_empty v.file_baselines) [];
    live_baselines = normalize_live normalize_live_path (or_empty v.live_baselines) [];
    imported_refs = normalize_refs (or_empty v.imported_refs) [];
  }
