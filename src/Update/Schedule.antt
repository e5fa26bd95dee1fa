-- ===== src/Update/Schedule.antt =====
-- src/auto-update.js, `startAutomaticUpdates`: when the updater checks. A state, the functions that the
-- timer, the end of a check and `stop` call, and the steps that these make.
pub mod Steady
use git_pigeon.Prelude.{ℕ, ◌≡◌, Bool, true, false, not, ◌||◌, Option, none, some, if◌then◌else◌}
use git_pigeon.Prelude.Text.{Text}

abbrev pub update_interval_ms : ℕ
update_interval_ms = 86400000

pub record Updater : Type 0 where
  pub stopped : Bool
  -- The delay of the timer, while one is set.
  pub timer : Option ℕ
  pub checking : Bool
  pub etag : Option Text

-- How a check ends: it throws, or yields whether there was an update, and a tag.
pub data Ending : Type 0 where
  failed : Ending
  yielded : Bool → Option Text → Ending

unfoldable pub schedule : ℕ → Updater → Updater
schedule delay u = if u.stopped then u else record u { timer = some delay }

-- `run`, which the timer calls.
unfoldable pub run : Bool → Updater → Updater
unfolding schedule
run should_check u =
    if u.stopped || u.checking
    then u
    else if not should_check
    then schedule update_interval_ms u
    else record u { checking = true }

abbrev pub or_tag : Option Text → Option Text → Option Text
or_tag none etag = etag
or_tag (some t) etag = some t

abbrev pub after_check : Ending → Updater → Updater
after_check failed u = u
after_check (yielded was_updated tag) u =
    if was_updated
    then record u { etag = or_tag tag u.etag; stopped = true }
    else record u { etag = or_tag tag u.etag }

-- The rest of `run`, with its `finally`.
unfoldable pub finish : Ending → Updater → Updater
unfolding schedule
finish ending u = schedule update_interval_ms (record (after_check ending u) { checking = false })

unfoldable pub stop : Updater → Updater
stop u = if u.stopped then u else record u { stopped = true; timer = none }

-- Right after `startAutomaticUpdates`, with updates enabled.
unfoldable pub started : ℕ → Updater
unfolding schedule
started initial_delay_ms =
    schedule initial_delay_ms
      (record { stopped = false; timer = none; checking = false; etag = none })

pub data Step (u : Updater) : Updater → Type 0 where
  fires :
      (delay : ℕ) (should_check : Bool)
      → u.timer ≡ some delay
      → Step u (run should_check (record u { timer = none }))
  ends : (ending : Ending) → u.checking ≡ true → Step u (finish ending u)
  stops : Step u (stop u)

pub data Reachable (initial_delay_ms : ℕ) : Updater → Type 0 where
  starts : Reachable initial_delay_ms (started initial_delay_ms)
  steps : (u v : Updater) → Reachable initial_delay_ms u → Step u v → Reachable initial_delay_ms v
