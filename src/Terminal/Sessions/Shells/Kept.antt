-- ===== src/Terminal/Sessions/Shells/Kept.antt =====
-- src/terminal-server.js: the shells of the server, whatever happens to it.
use git_pigeon.Prelude.{
  ℕ, ◌+◌, true, false, ◌||◌, Option, none, some, is_some, List, [], ◌∷◌, Option-cases, if-cases,
  ◌≡◌, refl, inl, inr, arith, leb,
}
use git_pigeon.Prelude.Assoc.{get, put, get-put_self}
use git_pigeon.Prelude.Tables.{Distinct}
use git_pigeon.Prelude.Text.{Text}
use git_pigeon.Terminal.Sessions.{Session, Server, close_sessions}
use git_pigeon.Terminal.Output.{Event, handle_event}
use git_pigeon.Terminal.Sessions.{
  Kind, open_kind, input_kind, resize_kind, ping_kind, close_kind, cwd_kind, Incoming, id_of,
}
use git_pigeon.Terminal.Sessions.Opening.{spawned, finish_open}
use git_pigeon.Terminal.Sessions.Serving.{
  input_of, queued, perform, marked_seen, with_session, dispatch, with_kind, receive, finish_job,
  sweep_sessions, stop_server, shell_at, from_shell, Happening, received, shell_started, replied,
  job_done, from_pty, swept, began, ended, happen, happen_all, fresh_server,
}
use git_pigeon.Terminal.Sessions.Shells.{
  IsApart, IsSound, is_start, is_kill, count, count-append, silent, live, Keeps, Keeps-stay,
  Keeps-then, close_sessions-Keeps, close_session-Keeps, put-Keeps,
}
use git_pigeon.Terminal.Sessions.Shells.Steps.{
  begin_open-Keeps, spawned_at-Keeps, answered_at-Keeps, take_turn-Keeps, kept-Keeps, flag-Keeps,
}

module _ (byte_length : Text → ℕ) (encode decode utf8 : Text → Text) (own : Text) where
  shell_at-Keeps :
      (id : Text) (e : Event) (s : Server) (o : Option Session)
      → IsSound s
      → get id s.sessions ≡ o
      → Keeps s (shell_at byte_length encode id e o s)
  shell_at-Keeps id e s none h q = Keeps-stay s h
  shell_at-Keeps id e s (some t) h q =
      kept-Keeps id t (handle_event byte_length encode e t.stream).0
        (handle_event byte_length encode e t.stream).1 s h q

  queued-Keeps :
      (id : Text) (t : Session) (input : Option Text) (s : Server)
      → IsSound s
      → get id s.sessions ≡ some t
      → Keeps s (queued decode utf8 id t input s)
  queued-Keeps id t none s h e = Keeps-stay s h
  queued-Keeps id t (some input) s h e = put-Keeps s h id t _ _ e (unfold silent in refl)

  perform-Keeps :
      (kind : Kind) (id : Text) (frame : Incoming) (t : Session) (s : Server)
      → IsSound s
      → get id s.sessions ≡ some t
      → Keeps s (perform decode utf8 kind id frame t s)
  perform-Keeps open_kind id frame t s h e = Keeps-stay s h
  perform-Keeps input_kind id frame t s h e =
      queued-Keeps id t (input_of decode utf8 frame.payload) s h e
  perform-Keeps resize_kind id frame t s h e = record {
    sound = h;
    balance = λ key. unfold count in ground arith;
  }
  perform-Keeps ping_kind id frame t s h e = put-Keeps s h id t _ _ e (unfold silent in refl)
  perform-Keeps close_kind id frame t s h e = close_session-Keeps s h id
  perform-Keeps cwd_kind id frame t s h e = put-Keeps s h id t _ _ e (unfold silent in refl)

  with_session-Keeps :
      (now : ℕ) (kind : Kind) (id : Text) (sequence : ℕ) (frame : Incoming) (o : Option Session)
      (s : Server)
      → IsSound s
      → get id s.sessions ≡ o
      → Keeps s (with_session decode utf8 now kind id sequence frame o s)
  with_session-Keeps now kind id sequence frame none s h e = Keeps-stay s h
  with_session-Keeps now kind id sequence frame (some t) s h e =
      let t' = marked_seen now sequence t in
      let s' = record s { sessions = put id t' s.sessions } in
      let k = put-Keeps s h id t t' [] e (unfold silent in refl) in
      let q = perform decode utf8 kind id frame t' s' in
      if-cases (Keeps s) (leb sequence t.received_sequence) _ _ (Keeps-stay s h) (
        Keeps-then s s' q.0 q.1 k
          (perform-Keeps kind id frame t' s' k.sound (get-put_self id t' s.sessions)))

  dispatch-Keeps :
      (now : ℕ) (id peer room : Text) (frame : Incoming) (sequence : ℕ) (kind : Kind) (s : Server)
      → IsSound s
      → Keeps s (dispatch decode utf8 now id peer room frame sequence kind s)
  dispatch-Keeps now id peer room frame sequence open_kind s h =
      elim (Option-cases (get id s.sessions)) [
        | inl e ↦
            if-cases (Keeps s) (is_some (get id s.sessions) || is_some (get id s.opening)) _ _
              (Keeps-stay s h) (begin_open-Keeps id peer room sequence frame s h e)
        | inr (t, e) ↦ rw e (Keeps-stay s h)
      ]
  dispatch-Keeps now id peer room frame sequence input_kind s h =
      with_session-Keeps now input_kind id sequence frame _ s h refl
  dispatch-Keeps now id peer room frame sequence resize_kind s h =
      with_session-Keeps now resize_kind id sequence frame _ s h refl
  dispatch-Keeps now id peer room frame sequence ping_kind s h =
      with_session-Keeps now ping_kind id sequence frame _ s h refl
  dispatch-Keeps now id peer room frame sequence close_kind s h =
      with_session-Keeps now close_kind id sequence frame _ s h refl
  dispatch-Keeps now id peer room frame sequence cwd_kind s h =
      with_session-Keeps now cwd_kind id sequence frame _ s h refl

  with_kind-Keeps :
      (now : ℕ) (id peer room : Text) (frame : Incoming) (kind : Option Kind) (sequence : Option ℕ)
      (s : Server)
      → IsSound s
      → Keeps s (with_kind decode utf8 now id peer room frame kind sequence s)
  with_kind-Keeps now id peer room frame (some kind) (some sequence) s h =
      dispatch-Keeps now id peer room frame sequence kind s h
  with_kind-Keeps now id peer room frame (some kind) none s h = Keeps-stay s h
  with_kind-Keeps now id peer room frame none sequence s h = Keeps-stay s h

  stop_server-Keeps : (s : Server) → IsSound s → Keeps s (stop_server s)
  unfolding stop_server
  stop_server-Keeps s h =
      let s' = record s { is_started = false } in
      let q = close_sessions (λ (t : Session). true) s' in
      let k = flag-Keeps false s h in
      if-cases (Keeps s) s.is_started _ _
        (Keeps-then s s' q.0 q.1 k (close_sessions-Keeps s' k.sound (λ t. true))) (Keeps-stay s h)

  pub happen-Keeps :
      (e : Happening) (s : Server)
      → IsSound s
      → Keeps s (happen byte_length encode decode utf8 own e s)
  unfolding happen
  happen-Keeps (received now peer room frame) s h =
      unfold receive in
      if-cases (Keeps s) _ _ _ (Keeps-stay s h) (
        with_kind-Keeps now (id_of peer frame.session_id) peer room frame frame.kind frame.sequence
          s h)
  happen-Keeps (shell_started now id outcome) s h =
      unfold spawned in spawned_at-Keeps now id outcome s _ h refl
  happen-Keeps (replied id sent) s h =
      unfold finish_open in answered_at-Keeps id sent s (get id s.opening) h
  happen-Keeps (job_done id found) s h = unfold finish_job in take_turn-Keeps id found s _ h refl
  happen-Keeps (from_pty id e) s h = unfold from_shell in shell_at-Keeps id e s _ h refl
  happen-Keeps (swept now) s h = unfold sweep_sessions in close_sessions-Keeps s h _
  happen-Keeps began s h = flag-Keeps true s h
  happen-Keeps ended s h = stop_server-Keeps s h

  happen_all-Keeps :
      (hs : List Happening) (s : Server)
      → IsSound s
      → Keeps s (happen_all byte_length encode decode utf8 own hs s)
  unfolding happen_all
  happen_all-Keeps [] s h = Keeps-stay s h
  happen_all-Keeps (e ∷ hs) s h =
      let q = happen byte_length encode decode utf8 own e s in
      let r = happen_all byte_length encode decode utf8 own hs q.0 in
      let k = happen-Keeps e s h in
      let l = happen_all-Keeps hs q.0 k.sound in
      record {
        sound = l.sound;
        balance = λ id. omega (
          arith,
          k.balance id,
          l.balance id,
          count-append (is_start id) q.1 r.1,
          count-append (is_kill id) q.1 r.1,
        );
      }

  -- Whatever happens to a fresh server and in whatever order, of each id as many shells were started as the table
  -- has sessions of it, one or none, and as were killed: a shell is either the shell of its session in the table,
  -- also where the server was stopped meanwhile, or was killed. No id stands twice in the table, and an open whose
  -- shell is still to come has no session of its id that it would replace.
  pub fresh_server-happen_all-Keeps :
      (hs : List Happening)
      → let q = happen_all byte_length encode decode utf8 own hs fresh_server in
        IsSound q.0 × ((id : Text) → count (is_start id) q.1 ≡ live id q.0 + count (is_kill id) q.1)
  fresh_server-happen_all-Keeps hs =
      let sound : IsSound fresh_server = record {
        distinct = unfold Distinct in tt;
        apart = unfold IsApart get in λ id h. refl;
      } in
      let k = happen_all-Keeps hs fresh_server sound in
      (k.sound, λ id. unfold get in omega (arith, k.balance id))
