-- ===== src/Examples/SavedRuns.antt =====
-- A saved state that is read, by `#normalizeState` of src/protocol.js.
use git_pigeon.Prelude.{◌≡◌, refl, true, Option, none, some, [], ◌∷◌, if◌then◌else◌}
use git_pigeon.Prelude.Text.{Text, text, text_eq}
use git_pigeon.Prelude.Patterns.{is_hex}
use git_pigeon.Prelude.Assoc.{put}
use git_pigeon.Sync.Records.{is_device}
use git_pigeon.Sync.Saved.{RawState, normalize_state}
use git_pigeon.Sync.Saved.Clean.{IsClean, normalize_state-IsClean}

-- Only one path is unsafe.
abbrev normalize : Text → Option Text
normalize path = if text_eq path (text "../x") then none else some path

abbrev raw_state : RawState
raw_state = record {
  heads = none;
  imported = none;
  file_baselines = some (
      (text "../x", none)
      ∷ (text "a", none)
      ∷ (text "b", some (record { string = text "no digest"; is_string = true }))
      ∷ []);
  live_baselines =
      some ((text "short", some []) ∷ (text "own-device", some ((text "a", none) ∷ [])) ∷ []);
  imported_refs = some ((text "own-device", none) ∷ []);
}

state_run : normalize_state normalize normalize (some raw_state) ≡ record {
  heads = [];
  imported = [];
  file_baselines = (text "a", none) ∷ [];
  live_baselines = (text "own-device", (text "a", none) ∷ []) ∷ [];
  imported_refs = (text "own-device", none) ∷ [];
}
unfolding normalize_state text_eq is_device is_hex put
state_run = refl

normalize_state-IsClean_example :
    IsClean normalize normalize (normalize_state normalize normalize (some raw_state))
normalize_state-IsClean_example = normalize_state-IsClean normalize normalize (some raw_state)
