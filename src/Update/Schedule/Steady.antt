-- ===== src/Update/Schedule/Steady.antt =====
-- src/auto-update.js, `startAutomaticUpdates`: the timer and the checks, step by step.
use git_pigeon.Prelude.{
  ℕ, ◌≡◌, refl, ap, ◌∙◌, true, false, not, ◌&&◌, Option, none, some, is_some, arith,
}
use git_pigeon.Update.Schedule.{
  Updater, failed, yielded, run, finish, stop, started, Step, fires, ends, stops, Reachable, starts,
  steps,
}

-- A check is awaited exactly while there was no stop and none is under way.
unfoldable pub IsSteady : Updater → Type 0
IsSteady u = is_some u.timer ≡ (not u.stopped && not u.checking)

Step-IsSteady : (u v : Updater) → Step u v → IsSteady u → IsSteady v
unfolding IsSteady run finish stop
Step-IsSteady u _ (fires delay should_check t) s = ground arith
Step-IsSteady u _ (ends failed c) s = ground arith
Step-IsSteady u _ (ends (yielded true tag) c) s = ground arith
Step-IsSteady u _ (ends (yielded false tag) c) s = ground arith
Step-IsSteady u _ stops s = ground arith

-- From its start on, a timer is set exactly while the updater was not stopped and no check is under
-- way: it neither forgets to check nor checks twice at a time.
pub Reachable-IsSteady :
    (initial_delay_ms : ℕ) (u : Updater) → Reachable initial_delay_ms u → IsSteady u
unfolding IsSteady started
Reachable-IsSteady initial_delay_ms _ starts = refl
Reachable-IsSteady initial_delay_ms v (steps u _ r s) =
    Step-IsSteady u v s (Reachable-IsSteady initial_delay_ms u r)

stopped-timer : (u : Updater) → IsSteady u → u.stopped ≡ true → u.timer ≡ none
unfolding IsSteady
stopped-timer u s h = no_timer u.timer (s ∙ ap (λ b. not b && not u.checking) h)
  where
    no_timer : (o : Option ℕ) → is_some o ≡ false → o ≡ none
    no_timer none e = refl
    no_timer (some delay) e = cc

-- The updater is stopped for good, and a check that is not under way does not begin.
abbrev pub IsOver : Updater → Updater → Type 0
IsOver u v = (v.stopped ≡ true) × (v.timer ≡ none) × (u.checking ≡ false → v.checking ≡ false)

Step-IsOver : (u v : Updater) → Step u v → u.timer ≡ none → u.stopped ≡ true → IsOver u v
unfolding run finish stop
Step-IsOver u _ (fires delay should_check t) s h = absurd (ground arith)
Step-IsOver u _ (ends failed c) s h = rw h (refl, s, λ e. refl)
Step-IsOver u _ (ends (yielded true tag) c) s h = (refl, s, λ e. refl)
Step-IsOver u _ (ends (yielded false tag) c) s h = rw h (refl, s, λ e. refl)
Step-IsOver u _ stops s h = rw h (refl, s, λ e. e)

-- A stop is final, and so is an update that was installed: whatever happens next, the updater stays
-- stopped, no timer is set, and no check begins.
pub Step-stopped :
    (initial_delay_ms : ℕ) (u v : Updater)
    → Reachable initial_delay_ms u
    → u.stopped ≡ true
    → Step u v
    → IsOver u v
Step-stopped initial_delay_ms u v r h s =
    Step-IsOver u v s (stopped-timer u (Reachable-IsSteady initial_delay_ms u r) h) h
