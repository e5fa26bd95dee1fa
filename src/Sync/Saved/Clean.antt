-- ===== src/Sync/Saved/Clean.antt =====
-- src/protocol.js, `#normalizeState`: the paths, device IDs and digests that it leaves.
use git_pigeon.Prelude.{
  ◌≡◌, ◌&&◌, and_left, and_right, true, Option, none, some, [], ◌∷◌, All, Bool-cases, Option-cases,
  inl, inr,
}
use git_pigeon.Prelude.Text.{Text}
use git_pigeon.Prelude.Assoc.{Assoc, put, All-put_at}
use git_pigeon.Sync.Records.{is_device}
use git_pigeon.Sync.Saved.{
  SavedValue, is_null_or_digest, Baselines, RawState, SavedState, or_empty, keep_baseline,
  normalize_baselines, keep_live, normalize_live, normalize_refs, normalize_state,
}

-- A path that a normalisation yields, with null or a value of which `String` makes a digest.
abbrev pub IsBaseline : (Text → Option Text) → Text × Option SavedValue → Type 0
IsBaseline normalize e =
    ((file : Text) × (normalize file ≡ some e.0)) × (is_null_or_digest e.1 ≡ true)

abbrev pub IsLive : (Text → Option Text) → Text × Baselines → Type 0
IsLive normalize e = (is_device e.0 ≡ true) × All (IsBaseline normalize) e.1

abbrev pub IsRef : Text × Option SavedValue → Type 0
IsRef e = (is_device e.0 ≡ true) × (is_null_or_digest e.1 ≡ true)

keep_baseline-IsBaseline :
    (normalize : Text → Option Text) (file : Text) (baseline : Option SavedValue) (kept : Baselines)
    → All (IsBaseline normalize) kept
    → All (IsBaseline normalize) (keep_baseline (normalize file) baseline kept)
keep_baseline-IsBaseline normalize file baseline kept k = elim (Option-cases (normalize file)) [
  | inl unsafe ↦ rw unsafe k
  | inr (path, safe) ↦ elim (Bool-cases (is_null_or_digest baseline)) [
    | inl good ↦
        rw (safe, good)
          (All-put_at (IsBaseline normalize) path baseline kept ((file, safe), good) k)
    | inr bad ↦ rw (safe, bad) k
  ]
]

normalize_baselines-IsBaseline :
    (normalize : Text → Option Text) (entries kept : Baselines)
    → All (IsBaseline normalize) kept
    → All (IsBaseline normalize) (normalize_baselines normalize entries kept)
unfolding normalize_baselines
normalize_baselines-IsBaseline normalize [] kept k = k
normalize_baselines-IsBaseline normalize ((file, baseline) ∷ entries) kept k =
    normalize_baselines-IsBaseline normalize entries (keep_baseline (normalize file) baseline kept)
      (keep_baseline-IsBaseline normalize file baseline kept k)

keep_live-IsLive :
    (normalize : Text → Option Text) (device_id : Text) (entries : Option Baselines)
    (kept : Assoc Baselines)
    → All (IsLive normalize) kept
    → All (IsLive normalize) (keep_live normalize device_id entries kept)
keep_live-IsLive normalize device_id none kept k = k
keep_live-IsLive normalize device_id (some entries) kept k =
    elim (Bool-cases (is_device device_id)) [
      | inl good ↦ rw good (
          All-put_at (IsLive normalize) device_id (normalize_baselines normalize entries []) kept
            (good, normalize_baselines-IsBaseline normalize entries [] tt) k)
      | inr bad ↦ rw bad k
    ]

normalize_live-IsLive :
    (normalize : Text → Option Text) (devices : Assoc (Option Baselines)) (kept : Assoc Baselines)
    → All (IsLive normalize) kept
    → All (IsLive normalize) (normalize_live normalize devices kept)
unfolding normalize_live
normalize_live-IsLive normalize [] kept k = k
normalize_live-IsLive normalize ((device_id, entries) ∷ devices) kept k =
    normalize_live-IsLive normalize devices (keep_live normalize device_id entries kept)
      (keep_live-IsLive normalize device_id entries kept k)

normalize_refs-IsRef :
    (entries kept : Baselines) → All IsRef kept → All IsRef (normalize_refs entries kept)
unfolding normalize_refs
normalize_refs-IsRef [] kept k = k
normalize_refs-IsRef ((device_id, digest) ∷ entries) kept k =
    elim (Bool-cases (is_device device_id && is_null_or_digest digest)) [
      | inl good ↦ rw good (
          normalize_refs-IsRef entries (put device_id digest kept) (
            All-put_at IsRef device_id digest kept
              (
                and_left (is_device device_id) (is_null_or_digest digest) good,
                and_right (is_device device_id) (is_null_or_digest digest) good,
              )
              k))
      | inr bad ↦ rw bad (normalize_refs-IsRef entries kept k)
    ]

-- A state in which each path is one that its normalisation yields, each device ID is well formed, and
-- each baseline is null, or a value of which `String` makes a digest.
pub record IsClean (normalize normalize_live_path : Text → Option Text) (s : SavedState)
    : Type 0 where
  pub files_clean : All (IsBaseline normalize) s.file_baselines
  pub live_clean : All (IsLive normalize_live_path) s.live_baselines
  pub refs_clean : All IsRef s.imported_refs

-- Whatever was saved, the state that is taken from it has only baselines of paths that the normalisations
-- yield, under well-formed device IDs, and each baseline is null or a value of which `String` makes a
-- digest, a string or not.
pub normalize_state-IsClean :
    (normalize normalize_live_path : Text → Option Text) (value : Option RawState)
    → IsClean normalize normalize_live_path (normalize_state normalize normalize_live_path value)
unfolding normalize_state
normalize_state-IsClean normalize normalize_live_path none = record {
  files_clean = tt;
  live_clean = tt;
  refs_clean = tt;
}
normalize_state-IsClean normalize normalize_live_path (some v) = record {
  files_clean = normalize_baselines-IsBaseline normalize (or_empty v.file_baselines) [] tt;
  live_clean = normalize_live-IsLive normalize_live_path (or_empty v.live_baselines) [] tt;
  refs_clean = normalize_refs-IsRef (or_empty v.imported_refs) [] tt;
}
