-- ===== src/Terminal/Sessions/Late.antt =====
-- src/terminal-server.js, `receivedSequence`: a frame that arrives again long after.
pub mod Steps
pub mod Once
use mathlib.Core.Path.{subst}
use git_pigeon.Prelude.{
  ℕ, ◌+◌, Bool, true, false, not, ◌||◌, ◌&&◌, Option, none, some, is_some, List, [], ◌∷◌, ◌++◌,
  length, Option-cases, if-cases, ◌≡◌, refl, sym, inl, inr, arith, leb, and_left, and_right,
  Bool-cases, filter, not-true,
}
use git_pigeon.Prelude.Assoc.{Assoc, get, put, remove, remove_if, get-put_self}
use git_pigeon.Prelude.Tables.{Distinct}
use git_pigeon.Prelude.Text.{Text, text_eq→eq, text_eq, text_eq_refl}
use git_pigeon.Terminal.Output.{Event, Stream, OutputFrame, handle_event}
use git_pigeon.Terminal.Sessions.{
  Kind, open_kind, input_kind, resize_kind, ping_kind, close_kind, cwd_kind, Incoming, id_of,
  Session, Server, Effect, Chore, Flight, awaiting, answering, close_sessions, close_session,
  valid_roster, max_sessions,
}
use git_pigeon.Terminal.Sessions.Opening.{
  spawned, finish_open, begin_open, admit, spawned_at, answered_at, Spawned, failed, running,
  session_of,
}
use git_pigeon.Terminal.Sessions.Serving.{
  input_of, queued, perform, marked_seen, with_session, dispatch, with_kind, receive, finish_job,
  sweep_sessions, stop_server, shell_at, from_shell, Happening, received, shell_started, replied,
  job_done, from_pty, swept, began, ended, happen, happen_all, fresh_server, turn, take_turn, kept,
}
use git_pigeon.Terminal.Sessions.Shells.{IsApart, IsSound, Keeps}
use git_pigeon.Terminal.Sessions.Shells.Kept.{happen-Keeps, fresh_server-happen_all-Keeps}
use git_pigeon.Terminal.Sessions.Limits.Calm.{is_open}
use git_pigeon.Terminal.Sessions.Replays.{Saw, with_session-marked_seen, with_session-Saw}

-- Each session of the id saw the number.
unfoldable pub AllSaw : ℕ → Text → Assoc Session → Type 0
AllSaw sequence id [] = Unit {0}
AllSaw sequence id ((k, t) ∷ m) =
    (text_eq k id ≡ true → leb sequence t.received_sequence ≡ true) × AllSaw sequence id m

module _ (id : Text) where
  -- No shell is started for a session of the id.
  abbrev pub starts_other : Happening → Bool
  starts_other (received now peer room frame) = true
  starts_other (shell_started now key outcome) = not (text_eq key id)
  starts_other (replied key sent) = true
  starts_other (job_done key found) = true
  starts_other (from_pty key e) = true
  starts_other (swept now) = true
  starts_other began = true
  starts_other ended = true

  unfoldable pub start_others : List Happening → Bool
  start_others [] = true
  start_others (h ∷ hs) = starts_other h && start_others hs

module _ (sequence : ℕ) (id : Text) where
  pub filter-AllSaw :
      (test : Text × Session → Bool) (m : Assoc Session)
      → AllSaw sequence id m
      → AllSaw sequence id (filter test m)
  unfolding AllSaw filter
  filter-AllSaw test [] h = tt
  filter-AllSaw test ((k, t) ∷ m) (h, a) = elim (Bool-cases (test (k, t))) [
    | inl e ↦ rw e (h, filter-AllSaw test m a)
    | inr e ↦ rw e (filter-AllSaw test m a)
  ]

  pub put-AllSaw :
      (key : Text) (u : Session) (m : Assoc Session)
      → (text_eq key id ≡ true → leb sequence u.received_sequence ≡ true)
      → AllSaw sequence id m
      → AllSaw sequence id (put key u m)
  unfolding AllSaw put
  put-AllSaw key u [] h a = (h, tt)
  put-AllSaw key u ((k, t) ∷ m) h (b, a) = elim (Bool-cases (text_eq k key)) [
    | inl e ↦ rw e (λ j. h (subst (λ (l : Text). text_eq l id ≡ true) (text_eq→eq k key e) j), a)
    | inr e ↦ rw e (b, put-AllSaw key u m h a)
  ]

  get-AllSaw :
      (key : Text) (t : Session) (m : Assoc Session)
      → AllSaw sequence id m
      → get key m ≡ some t
      → text_eq key id ≡ true
      → leb sequence t.received_sequence ≡ true
  unfolding AllSaw get
  get-AllSaw key t [] a e q = cc
  get-AllSaw key t ((k, u) ∷ m) (b, a) e q = elim (Bool-cases (text_eq k key)) [
    | inl f ↦
        let same : u ≡ t = ground (arith, e, f) in
        subst (λ (v : Session). leb sequence v.received_sequence ≡ true) same
          (b (subst (λ (l : Text). text_eq l id ≡ true) (sym (text_eq→eq k key f)) q))
    | inr f ↦ get-AllSaw key t m a (ground (arith, e, f)) q
  ]

  -- A session is replaced by one that saw no less.
  pub kept_seen-AllSaw :
      (key : Text) (t u : Session) (m : Assoc Session)
      → get key m ≡ some t
      → leb t.received_sequence u.received_sequence ≡ true
      → AllSaw sequence id m
      → AllSaw sequence id (put key u m)
  kept_seen-AllSaw key t u m e l a =
      put-AllSaw key u m (λ q. ground (arith, get-AllSaw key t m a e q, l)) a

  pub AllSaw-Saw : (m : Assoc Session) → AllSaw sequence id m → Saw sequence (get id m)
  AllSaw-Saw m a = elim (Option-cases (get id m)) [
    | inl e ↦ subst (Saw sequence) (sym e) (unfold Saw in tt)
    | inr (t, e) ↦
        subst (Saw sequence) (sym e) (unfold Saw in get-AllSaw id t m a e (text_eq_refl id))
  ]

  absent-AllSaw : (m : Assoc Session) → get id m ≡ none → AllSaw sequence id m
  unfolding AllSaw get
  absent-AllSaw [] h = tt
  absent-AllSaw ((k, t) ∷ m) h = elim (Bool-cases (text_eq k id)) [
    | inl e ↦ absurd (ground (arith, h, e))
    | inr e ↦ (λ f. absurd (ground (arith, e, f)), absent-AllSaw m (ground (arith, h, e)))
  ]

  pub Saw-AllSaw : (m : Assoc Session) → Distinct m → Saw sequence (get id m) → AllSaw sequence id m
  unfolding AllSaw get Distinct
  Saw-AllSaw [] d h = tt
  Saw-AllSaw ((k, t) ∷ m) (n, d) h = elim (Bool-cases (text_eq k id)) [
    | inl e ↦ (
      λ f. unfold Saw in (rw e at h),
      absent-AllSaw m (subst (λ (j : Text). get j m ≡ none) (text_eq→eq k id e) n),
    )
    | inr e ↦ (λ f. absurd (ground (arith, e, f)), Saw-AllSaw m d (rw e at h))
  ]
