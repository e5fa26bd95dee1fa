-- ===== src/Terminal/Sessions/Late/Steps.antt =====
-- src/terminal-server.js: what a session has seen is not taken back by any operation.
use git_pigeon.Prelude.{
  ℕ, Bool, true, false, not, ◌||◌, Option, none, some, is_some, List, [], ◌∷◌, length, if-cases,
  ◌≡◌, refl, inl, inr, arith, leb, and_left, and_right, Bool-cases, not-true,
}
use git_pigeon.Prelude.Assoc.{Assoc, get, put, remove, remove_if, get-put_self}
use git_pigeon.Prelude.Text.{Text, text_eq}
use git_pigeon.Terminal.Output.{Event, Stream, OutputFrame, handle_event}
use git_pigeon.Terminal.Sessions.{
  Kind, open_kind, input_kind, resize_kind, ping_kind, close_kind, cwd_kind, Incoming, id_of,
  Session, Server, Effect, Chore, Flight, awaiting, answering, close_sessions, close_session,
  valid_roster, max_sessions,
}
use git_pigeon.Terminal.Sessions.Opening.{
  spawned, finish_open, begin_open, admit, spawned_at, answered_at, Spawned, failed, running,
  session_of,
}
use git_pigeon.Terminal.Sessions.Serving.{
  input_of, queued, perform, marked_seen, with_session, dispatch, with_kind, receive, finish_job,
  sweep_sessions, stop_server, shell_at, from_shell, Happening, received, shell_started, replied,
  job_done, from_pty, swept, began, ended, happen, happen_all, turn, take_turn, kept,
}
use git_pigeon.Terminal.Sessions.Late.{
  AllSaw, start_others, starts_other, filter-AllSaw, put-AllSaw, kept_seen-AllSaw,
}

module _ (sequence : ℕ) (id : Text) where
  abbrev Still : Server × List Effect → Type 0
  Still q = AllSaw sequence id q.0.sessions

  close_sessions-AllSaw :
      (test : Session → Bool) (s : Server)
      → AllSaw sequence id s.sessions
      → Still (close_sessions test s)
  unfolding close_sessions
  close_sessions-AllSaw test s a = filter-AllSaw sequence id (λ e. not (test e.1)) s.sessions a

  removed-AllSaw :
      (key : Text) (m : Assoc Session) → AllSaw sequence id m → AllSaw sequence id (remove key m)
  unfolding remove remove_if
  removed-AllSaw key m a =
      filter-AllSaw sequence id (λ (e : Text × Session). not (text_eq e.0 key)) m a

  admit-AllSaw :
      (key peer room : Text) (n : ℕ) (frame : Incoming) (roster : Option (List Text))
      (q : Server × List Effect)
      → Still q
      → Still (admit key peer room n frame roster q)
  admit-AllSaw key peer room n frame none q a = a
  admit-AllSaw key peer room n frame (some roster) q a = a

  begin_open-AllSaw :
      (key peer room : Text) (n : ℕ) (frame : Incoming) (s : Server)
      → AllSaw sequence id s.sessions
      → Still (begin_open key peer room n frame s)
  unfolding begin_open
  begin_open-AllSaw key peer room n frame s a =
      let q = close_sessions (λ t. text_eq t.peer_id peer) s in
      let b = close_sessions-AllSaw (λ t. text_eq t.peer_id peer) s a in
      if-cases Still (leb max_sessions (length q.0.sessions)) _ _ b
        (admit-AllSaw key peer room n frame (valid_roster frame.devices) q b)

  spawned_at-AllSaw :
      (now : ℕ) (key : Text) (outcome : Spawned) (o : Option Flight) (s : Server)
      → text_eq key id ≡ false
      → AllSaw sequence id s.sessions
      → Still (spawned_at now key outcome o s)
  spawned_at-AllSaw now key outcome none s n a = a
  spawned_at-AllSaw now key outcome (some (answering line)) s n a = a
  spawned_at-AllSaw now key (failed message) (some (awaiting r)) s n a = a
  spawned_at-AllSaw now key (running flavor line) (some (awaiting r)) s n a =
      put-AllSaw sequence id key (session_of now flavor r) s.sessions
        (λ q. absurd (ground (arith, n, q))) a

  answered_at-AllSaw :
      (key : Text) (sent : Bool) (o : Option Flight) (s : Server)
      → AllSaw sequence id s.sessions
      → Still (answered_at key sent o s)
  answered_at-AllSaw key sent none s a = a
  answered_at-AllSaw key sent (some (awaiting r)) s a = a
  answered_at-AllSaw key sent (some (answering none)) s a = a
  answered_at-AllSaw key sent (some (answering (some line))) s a = a

  turn-AllSaw :
      (key : Text) (found : Option Text) (t : Session) (jobs : List Chore) (s : Server)
      → get key s.sessions ≡ some t
      → AllSaw sequence id s.sessions
      → Still (turn key found t jobs s)
  turn-AllSaw key found t [] s e a = a
  turn-AllSaw key found t (job ∷ jobs) s e a =
      kept_seen-AllSaw sequence id key t _ s.sessions e (ground arith) a

  take_turn-AllSaw :
      (key : Text) (found : Option Text) (o : Option Session) (s : Server)
      → get key s.sessions ≡ o
      → AllSaw sequence id s.sessions
      → Still (take_turn key found o s)
  take_turn-AllSaw key found none s e a = a
  take_turn-AllSaw key found (some t) s e a = turn-AllSaw key found t t.pending s e a

  kept-AllSaw :
      (key : Text) (t : Session) (stream : Stream) (frames : List OutputFrame) (s : Server)
      → get key s.sessions ≡ some t
      → AllSaw sequence id s.sessions
      → Still (kept key t (stream, frames) s)
  kept-AllSaw key t stream frames s e a =
      if-cases (λ (u : Server). AllSaw sequence id u.sessions) stream.closed _ _
        (removed-AllSaw key s.sessions a)
        (kept_seen-AllSaw sequence id key t _ s.sessions e (ground arith) a)

  shell_at-AllSaw :
      (byte_length : Text → ℕ) (encode : Text → Text) (key : Text) (e : Event) (o : Option Session)
      (s : Server)
      → get key s.sessions ≡ o
      → AllSaw sequence id s.sessions
      → Still (shell_at byte_length encode key e o s)
  shell_at-AllSaw byte_length encode key e none s q a = a
  shell_at-AllSaw byte_length encode key e (some t) s q a =
      kept-AllSaw key t (handle_event byte_length encode e t.stream).0
        (handle_event byte_length encode e t.stream).1 s q a

  module _ (decode utf8 : Text → Text) where
    queued-AllSaw :
        (key : Text) (t : Session) (input : Option Text) (s : Server)
        → get key s.sessions ≡ some t
        → AllSaw sequence id s.sessions
        → Still (queued decode utf8 key t input s)
    queued-AllSaw key t none s e a = a
    queued-AllSaw key t (some input) s e a =
        kept_seen-AllSaw sequence id key t _ s.sessions e (ground arith) a

    perform-AllSaw :
        (kind : Kind) (key : Text) (frame : Incoming) (t : Session) (s : Server)
        → get key s.sessions ≡ some t
        → AllSaw sequence id s.sessions
        → Still (perform decode utf8 kind key frame t s)
    perform-AllSaw open_kind key frame t s e a = a
    perform-AllSaw input_kind key frame t s e a =
        queued-AllSaw key t (input_of decode utf8 frame.payload) s e a
    perform-AllSaw resize_kind key frame t s e a = a
    perform-AllSaw ping_kind key frame t s e a =
        kept_seen-AllSaw sequence id key t _ s.sessions e (ground arith) a
    perform-AllSaw close_kind key frame t s e a =
        unfold close_session in removed-AllSaw key s.sessions a
    perform-AllSaw cwd_kind key frame t s e a =
        kept_seen-AllSaw sequence id key t _ s.sessions e (ground arith) a

    with_session-AllSaw :
        (now : ℕ) (kind : Kind) (key : Text) (n : ℕ) (frame : Incoming) (o : Option Session)
        (s : Server)
        → get key s.sessions ≡ o
        → AllSaw sequence id s.sessions
        → Still (with_session decode utf8 now kind key n frame o s)
    with_session-AllSaw now kind key n frame none s e a = a
    with_session-AllSaw now kind key n frame (some t) s e a =
        let t' = marked_seen now n t in
        let s' = record s { sessions = put key t' s.sessions } in
        elim (Bool-cases (leb n t.received_sequence)) [
          | inl l ↦ rw l a
          | inr l ↦ simp l (
              perform-AllSaw kind key frame t' s' (get-put_self key t' s.sessions)
                (kept_seen-AllSaw sequence id key t t' s.sessions e (ground (arith, l)) a))
        ]

    dispatch-AllSaw :
        (now : ℕ) (key peer room : Text) (frame : Incoming) (n : ℕ) (kind : Kind) (s : Server)
        → AllSaw sequence id s.sessions
        → Still (dispatch decode utf8 now key peer room frame n kind s)
    dispatch-AllSaw now key peer room frame n open_kind s a =
        if-cases Still (is_some (get key s.sessions) || is_some (get key s.opening)) _ _ a
          (begin_open-AllSaw key peer room n frame s a)
    dispatch-AllSaw now key peer room frame n input_kind s a =
        with_session-AllSaw now input_kind key n frame _ s refl a
    dispatch-AllSaw now key peer room frame n resize_kind s a =
        with_session-AllSaw now resize_kind key n frame _ s refl a
    dispatch-AllSaw now key peer room frame n ping_kind s a =
        with_session-AllSaw now ping_kind key n frame _ s refl a
    dispatch-AllSaw now key peer room frame n close_kind s a =
        with_session-AllSaw now close_kind key n frame _ s refl a
    dispatch-AllSaw now key peer room frame n cwd_kind s a =
        with_session-AllSaw now cwd_kind key n frame _ s refl a

    with_kind-AllSaw :
        (now : ℕ) (key peer room : Text) (frame : Incoming) (kind : Option Kind) (n : Option ℕ)
        (s : Server)
        → AllSaw sequence id s.sessions
        → Still (with_kind decode utf8 now key peer room frame kind n s)
    with_kind-AllSaw now key peer room frame (some kind) (some n) s a =
        dispatch-AllSaw now key peer room frame n kind s a
    with_kind-AllSaw now key peer room frame (some kind) none s a = a
    with_kind-AllSaw now key peer room frame none n s a = a

  module _ (byte_length : Text → ℕ) (encode decode utf8 : Text → Text) (own : Text) where
    happen-AllSaw :
        (e : Happening) (s : Server)
        → starts_other id e ≡ true
        → AllSaw sequence id s.sessions
        → Still (happen byte_length encode decode utf8 own e s)
    unfolding happen
    happen-AllSaw (received now peer room frame) s n a =
        unfold receive in
        if-cases Still _ _ _ a (
          with_kind-AllSaw decode utf8 now (id_of peer frame.session_id) peer room frame frame.kind
            frame.sequence s a)
    happen-AllSaw (shell_started now key outcome) s n a =
        unfold spawned in spawned_at-AllSaw now key outcome (get key s.opening) s (not-true _ n) a
    happen-AllSaw (replied key sent) s n a =
        unfold finish_open in answered_at-AllSaw key sent (get key s.opening) s a
    happen-AllSaw (job_done key found) s n a =
        unfold finish_job in take_turn-AllSaw key found _ s refl a
    happen-AllSaw (from_pty key e) s n a =
        unfold from_shell in shell_at-AllSaw byte_length encode key e _ s refl a
    happen-AllSaw (swept now) s n a = unfold sweep_sessions in close_sessions-AllSaw _ s a
    happen-AllSaw began s n a = a
    happen-AllSaw ended s n a =
        unfold stop_server in
        if-cases Still s.is_started _ _
          (close_sessions-AllSaw (λ t. true) (record s { is_started = false }) a) a

    pub happen_all-AllSaw :
        (hs : List Happening) (s : Server)
        → start_others id hs ≡ true
        → AllSaw sequence id s.sessions
        → Still (happen_all byte_length encode decode utf8 own hs s)
    unfolding happen_all start_others
    happen_all-AllSaw [] s n a = a
    happen_all-AllSaw (h ∷ hs) s n a =
        happen_all-AllSaw hs (happen byte_length encode decode utf8 own h s).0 (and_right _ _ n)
          (happen-AllSaw h s (and_left _ _ n) a)
