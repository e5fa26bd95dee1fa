-- ===== src/Cache/Roles.antt =====
-- src/retention.js: when a machine keeps fewer snapshots than the standard ones.
use git_pigeon.Prelude.{ℕ, ◌≡◌, ◌<◌, Bool, true, arith}
use git_pigeon.Prelude.Text.{Text, text, text_eq→eq}
use git_pigeon.Cache.{
  Role, archive, standard, transient, retain, plan_of, normalize_storage_role, retention_plan,
  standard_retained_snapshots,
}

plan_thin :
    (r : Role) (online : Bool) (n ms : ℕ)
    → plan_of r online ≡ retain n ms
    → n < standard_retained_snapshots
    → (r ≡ transient) × (online ≡ true)
unfolding plan_of
plan_thin archive online n ms e l = absurd (ground arith)
plan_thin standard online n ms e l = absurd (ground arith)
plan_thin transient online n ms e l = ground arith

role_transient : (role : Text) → normalize_storage_role role ≡ transient → role ≡ text "transient"
unfolding normalize_storage_role
role_transient role e = text_eq→eq role (text "transient") (ground arith)

-- A machine keeps fewer than the four standard snapshots only if its role is `transient` and an
-- archive is online.
pub plan-floor :
    (role : Text) (online : Bool) (n ms : ℕ)
    → retention_plan role online ≡ retain n ms
    → n < standard_retained_snapshots
    → (role ≡ text "transient") × (online ≡ true)
unfolding retention_plan
plan-floor role online n ms e l =
    let thin = plan_thin (normalize_storage_role role) online n ms e l in
    (role_transient role thin.0, thin.1)
