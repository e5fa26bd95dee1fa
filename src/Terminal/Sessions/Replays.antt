-- ===== src/Terminal/Sessions/Replays.antt =====
-- src/terminal-server.js, `#receive`: a frame that arrives again, at whatever time and from whatever room.
use mathlib.Core.Path.{subst}
use git_pigeon.Prelude.{
  if-cases, ℕ, Bool, true, not, ◌||◌, Option, none, some, is_some, List, [], length, leb,
  Bool-cases, ◌≡◌, refl, sym, ap, inl, inr, arith,
}
use git_pigeon.Prelude.Assoc.{Assoc, get, put, remove, get-put_self, get-remove_if}
use git_pigeon.Prelude.Patterns.{is_hex}
use git_pigeon.Prelude.Text.{Text, text_eq, text_eq_refl}
use git_pigeon.Terminal.Sessions.{
  Kind, open_kind, input_kind, resize_kind, ping_kind, close_kind, cwd_kind, Incoming, Session,
  Server, Effect, id_of, close_sessions, close_session, valid_roster, max_sessions,
}
use git_pigeon.Terminal.Sessions.Opening.{begin_open, admit}
use git_pigeon.Terminal.Sessions.Serving.{
  input_of, queued, perform, marked_seen, with_session, dispatch, with_kind, receive,
}

-- A session that saw the number, or is gone.
unfoldable pub Saw : ℕ → Option Session → Type 0
Saw sequence none = Unit {0}
Saw sequence (some t) = leb sequence t.received_sequence ≡ true

Saw-put :
    (sequence : ℕ) (id : Text) (t : Session) (m : Assoc Session)
    → leb sequence t.received_sequence ≡ true
    → Saw sequence (get id (put id t m))
unfolding Saw
Saw-put sequence id t m h = rw (get-put_self id t m) h

Saw-remove : (sequence : ℕ) (id : Text) (m : Assoc Session) → Saw sequence (get id (remove id m))
unfolding Saw remove
Saw-remove sequence id m = rw (get-remove_if (λ k. text_eq k id) id m, text_eq_refl id) tt

admit-is_started :
    (id peer room : Text) (sequence : ℕ) (frame : Incoming) (roster : Option (List Text))
    (q : Server × List Effect)
    → ((admit id peer room sequence frame roster q).0.is_started ≡ q.0.is_started)
      × (is_some (get id (admit id peer room sequence frame roster q).0.opening) ≡ true)
admit-is_started id peer room sequence frame none q =
    (refl, ap is_some (get-put_self id _ q.0.opening))
admit-is_started id peer room sequence frame (some roster) q =
    (refl, ap is_some (get-put_self id _ q.0.opening))

pub begin_open-opening :
    (id peer room : Text) (sequence : ℕ) (frame : Incoming) (s : Server)
    → ((begin_open id peer room sequence frame s).0.is_started ≡ s.is_started)
      × (is_some (get id (begin_open id peer room sequence frame s).0.opening) ≡ true)
unfolding begin_open close_sessions
begin_open-opening id peer room sequence frame s =
    let q = close_sessions (λ t. text_eq t.peer_id peer) s in
    if-cases
      (λ (r : Server × List Effect).
        (r.0.is_started ≡ s.is_started) × (is_some (get id r.0.opening) ≡ true))
      (leb max_sessions (length q.0.sessions)) _ _
      (refl, ap is_some (get-put_self id _ q.0.opening))
      (admit-is_started id peer room sequence frame (valid_roster frame.devices) q)

module _ (decode utf8 : Text → Text) where
  queued-Saw :
      (id : Text) (sequence : ℕ) (t : Session) (input : Option Text) (s : Server)
      → get id s.sessions ≡ some t
      → leb sequence t.received_sequence ≡ true
      → Saw sequence (get id (queued decode utf8 id t input s).0.sessions)
  queued-Saw id sequence t none s e h = subst (Saw sequence) (sym e) (unfold Saw in h)
  queued-Saw id sequence t (some input) s e h = Saw-put sequence id _ s.sessions h

  perform-Saw :
      (kind : Kind) (id : Text) (sequence : ℕ) (frame : Incoming) (t : Session) (s : Server)
      → get id s.sessions ≡ some t
      → leb sequence t.received_sequence ≡ true
      → Saw sequence (get id (perform decode utf8 kind id frame t s).0.sessions)
  perform-Saw open_kind id sequence frame t s e h = subst (Saw sequence) (sym e) (unfold Saw in h)
  perform-Saw input_kind id sequence frame t s e h =
      queued-Saw id sequence t (input_of decode utf8 frame.payload) s e h
  perform-Saw resize_kind id sequence frame t s e h = subst (Saw sequence) (sym e) (unfold Saw in h)
  perform-Saw ping_kind id sequence frame t s e h = Saw-put sequence id _ s.sessions h
  perform-Saw close_kind id sequence frame t s e h =
      unfold close_session in Saw-remove sequence id s.sessions
  perform-Saw cwd_kind id sequence frame t s e h = Saw-put sequence id _ s.sessions h

  queued-is_started :
      (id : Text) (t : Session) (input : Option Text) (s : Server)
      → (queued decode utf8 id t input s).0.is_started ≡ s.is_started
  queued-is_started id t none s = refl
  queued-is_started id t (some input) s = refl

  perform-is_started :
      (kind : Kind) (id : Text) (frame : Incoming) (t : Session) (s : Server)
      → (perform decode utf8 kind id frame t s).0.is_started ≡ s.is_started
  perform-is_started open_kind id frame t s = refl
  perform-is_started input_kind id frame t s =
      queued-is_started id t (input_of decode utf8 frame.payload) s
  perform-is_started resize_kind id frame t s = refl
  perform-is_started ping_kind id frame t s = refl
  perform-is_started close_kind id frame t s = unfold close_session in refl
  perform-is_started cwd_kind id frame t s = refl

  pub with_session-marked_seen :
      (now : ℕ) (kind : Kind) (id : Text) (sequence : ℕ) (frame : Incoming) (o : Option Session)
      (s : Server)
      → Saw sequence o
      → with_session decode utf8 now kind id sequence frame o s ≡ (s, [])
  unfolding Saw
  with_session-marked_seen now kind id sequence frame none s h = refl
  with_session-marked_seen now kind id sequence frame (some t) s h = rw h refl

  pub with_session-Saw :
      (now : ℕ) (kind : Kind) (id : Text) (sequence : ℕ) (frame : Incoming) (s : Server)
      (o : Option Session)
      → get id s.sessions ≡ o
      → let q = with_session decode utf8 now kind id sequence frame o s in
        (q.0.is_started ≡ s.is_started) × Saw sequence (get id q.0.sessions)
  with_session-Saw now kind id sequence frame s none e =
      (refl, subst (Saw sequence) (sym e) (unfold Saw in tt))
  with_session-Saw now kind id sequence frame s (some t) e =
      elim (Bool-cases (leb sequence t.received_sequence)) [
        | inl l ↦ rw l (refl, subst (Saw sequence) (sym e) (unfold Saw in l))
        | inr l ↦
            let t' = marked_seen now sequence t in
            let s' = record s { sessions = put id t' s.sessions } in
            rw l (
              perform-is_started kind id frame t' s',
              perform-Saw kind id sequence frame t' s' (get-put_self id t' s.sessions)
                  (ground arith),
            )
      ]

  -- What a frame leaves: the server is started as before, and the frame has no effect any more.
  Settled : Text → Text → Incoming → ℕ → Kind → Bool → Server → Type 0
  Settled id peer frame sequence kind is_started s =
      (s.is_started ≡ is_started)
      × ((now : ℕ) (room : Text)
          → dispatch decode utf8 now id peer room frame sequence kind s ≡ (s, []))

  opened-Settled :
      (now : ℕ) (id peer room : Text) (frame : Incoming) (sequence : ℕ) (s : Server)
      → Settled id peer frame sequence open_kind s.is_started
          (dispatch decode utf8 now id peer room frame sequence open_kind s).0
  unfolding Settled
  opened-Settled now id peer room frame sequence s =
      elim (Bool-cases (is_some (get id s.sessions) || is_some (get id s.opening))) [
        | inl e ↦ rw e (refl, λ (now' : ℕ) (room' : Text). rw e refl)
        | inr e ↦
            let (a, b) = begin_open-opening id peer room sequence frame s in
            rw e (a, λ (now' : ℕ) (room' : Text). ground (arith, b))
      ]

  kind-Settled :
      (now : ℕ) (id peer room : Text) (frame : Incoming) (sequence : ℕ) (kind : Kind) (s : Server)
      → Settled id peer frame sequence kind s.is_started
          (dispatch decode utf8 now id peer room frame sequence kind s).0
  kind-Settled now id peer room frame sequence open_kind s =
      opened-Settled now id peer room frame sequence s
  kind-Settled now id peer room frame sequence input_kind s =
      unfold Settled in
      let (a, b) = with_session-Saw now input_kind id sequence frame s _ refl in
      (a, λ now' room'. with_session-marked_seen now' input_kind id sequence frame _ _ b)
  kind-Settled now id peer room frame sequence resize_kind s =
      unfold Settled in
      let (a, b) = with_session-Saw now resize_kind id sequence frame s _ refl in
      (a, λ now' room'. with_session-marked_seen now' resize_kind id sequence frame _ _ b)
  kind-Settled now id peer room frame sequence ping_kind s =
      unfold Settled in
      let (a, b) = with_session-Saw now ping_kind id sequence frame s _ refl in
      (a, λ now' room'. with_session-marked_seen now' ping_kind id sequence frame _ _ b)
  kind-Settled now id peer room frame sequence close_kind s =
      unfold Settled in
      let (a, b) = with_session-Saw now close_kind id sequence frame s _ refl in
      (a, λ now' room'. with_session-marked_seen now' close_kind id sequence frame _ _ b)
  kind-Settled now id peer room frame sequence cwd_kind s =
      unfold Settled in
      let (a, b) = with_session-Saw now cwd_kind id sequence frame s _ refl in
      (a, λ now' room'. with_session-marked_seen now' cwd_kind id sequence frame _ _ b)

  with_kind-Settled :
      (now : ℕ) (id peer room : Text) (frame : Incoming) (kind : Option Kind) (sequence : Option ℕ)
      (s : Server)
      → let q = with_kind decode utf8 now id peer room frame kind sequence s in
        (q.0.is_started ≡ s.is_started)
        × ((now' : ℕ) (room' : Text)
            → with_kind decode utf8 now' id peer room' frame kind sequence q.0 ≡ (q.0, []))
  with_kind-Settled now id peer room frame (some kind) (some sequence) s =
      unfold Settled in kind-Settled now id peer room frame sequence kind s
  with_kind-Settled now id peer room frame (some kind) none s = (refl, λ now' room'. refl)
  with_kind-Settled now id peer room frame none sequence s = (refl, λ now' room'. refl)

  -- A frame, an open or another, that comes again from the same browser before anything else happens, in whatever
  -- room and at whatever time, leaves the server as its first arrival left it, and nothing is done.
  receive-again :
      (own : Text) (now now' : ℕ) (peer room room' : Text) (frame : Incoming) (s : Server)
      → let q = receive decode utf8 own now peer room frame s in
        receive decode utf8 own now' peer room' frame q.0 ≡ (q.0, [])
  unfolding receive
  receive-again own now now' peer room room' frame s =
      elim (Bool-cases (
        not s.is_started
        || not (text_eq frame.service_instance_id own)
        || not (is_hex 32 frame.session_id))) [
          | inl e ↦ rw e (rw e refl)
          | inr e ↦
              let (a, b) =
                with_kind-Settled now (id_of peer frame.session_id) peer room frame frame.kind
                  frame.sequence s in
              rw e (rw (a, e) (b now' room'))
        ]
