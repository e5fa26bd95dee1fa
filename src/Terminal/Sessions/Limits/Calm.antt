-- ===== src/Terminal/Sessions/Limits/Calm.antt =====
-- src/terminal-server.js: a server that is asked for one session at a time.
use git_pigeon.Prelude.{
  ◌&&◌, and_left, and_right, ℕ, Bool, true, false, not, ◌||◌, Option, none, some, is_some, List, [],
  ◌∷◌, if-cases, ◌≡◌, refl, arith, leb, and_left, and_right,
}
use git_pigeon.Prelude.Assoc.{Assoc, get, put, remove, remove_if, get-put_self}
use git_pigeon.Prelude.Tables.{Distinct}
use git_pigeon.Prelude.Text.{Text, text_eq}
use git_pigeon.Terminal.Sessions.{Session, Flight, Server, Effect, close_session}
use git_pigeon.Terminal.Output.{Event, handle_event}
use git_pigeon.Terminal.Sessions.{
  Kind, open_kind, input_kind, resize_kind, ping_kind, close_kind, cwd_kind, Incoming, id_of,
}
use git_pigeon.Terminal.Sessions.Opening.{spawned, finish_open}
use git_pigeon.Terminal.Sessions.Serving.{
  input_of, queued, perform, marked_seen, with_session, dispatch, with_kind, receive, finish_job,
  sweep_sessions, stop_server, shell_at, from_shell, Happening, received, shell_started, replied,
  job_done, from_pty, swept, began, ended, happen, happen_all, fresh_server,
}
use git_pigeon.Prelude.Members.{is_unique}
use git_pigeon.Terminal.Sessions.Shells.{IsApart, IsSound}
use git_pigeon.Terminal.Sessions.Shells.Kept.{happen-Keeps}
use git_pigeon.Terminal.Sessions.Limits.{peers, waiting_peers, IsLimited}
use git_pigeon.Terminal.Sessions.Limits.Opens.{
  filtered-IsLimited, put-IsLimited, spawned_at-IsLimited, answered_at-IsLimited,
  take_turn-IsLimited, kept-IsLimited, closed-IsLimited, begin_open-IsLimited,
}

unfoldable pub none_open : Assoc Flight → Bool
none_open [] = true
none_open (e ∷ m) = false

abbrev pub is_open : Option Kind → Bool
is_open none = false
is_open (some open_kind) = true
is_open (some input_kind) = false
is_open (some resize_kind) = false
is_open (some ping_kind) = false
is_open (some close_kind) = false
is_open (some cwd_kind) = false

-- An open comes while no other open is under way.
abbrev pub is_calm : Happening → Server → Bool
is_calm (received now peer room frame) s = not (is_open frame.kind) || none_open s.opening
is_calm (shell_started now id outcome) s = true
is_calm (replied id sent) s = true
is_calm (job_done id found) s = true
is_calm (from_pty id e) s = true
is_calm (swept now) s = true
is_calm began s = true
is_calm ended s = true

none_open-eq : (m : Assoc Flight) → none_open m ≡ true → m ≡ []
none_open-eq [] h = refl
none_open-eq (e ∷ m) h = unfold none_open in (cc (h))

module _ (byte_length : Text → ℕ) (encode decode utf8 : Text → Text) (own : Text) where
  shell_at-IsLimited :
      (id : Text) (e : Event) (s : Server) (o : Option Session)
      → get id s.sessions ≡ o
      → IsLimited s
      → IsLimited (shell_at byte_length encode id e o s).0
  shell_at-IsLimited id e s none q h = h
  shell_at-IsLimited id e s (some t) q h =
      kept-IsLimited id t (handle_event byte_length encode e t.stream).0
        (handle_event byte_length encode e t.stream).1 s q h

  queued-IsLimited :
      (id : Text) (t : Session) (input : Option Text) (s : Server)
      → get id s.sessions ≡ some t
      → IsLimited s
      → IsLimited (queued decode utf8 id t input s).0
  queued-IsLimited id t none s e h = h
  queued-IsLimited id t (some input) s e h = put-IsLimited id t _ s e refl h

  perform-IsLimited :
      (kind : Kind) (id : Text) (frame : Incoming) (t : Session) (s : Server)
      → get id s.sessions ≡ some t
      → IsLimited s
      → IsLimited (perform decode utf8 kind id frame t s).0
  perform-IsLimited open_kind id frame t s e h = h
  perform-IsLimited input_kind id frame t s e h =
      queued-IsLimited id t (input_of decode utf8 frame.payload) s e h
  perform-IsLimited resize_kind id frame t s e h = h
  perform-IsLimited ping_kind id frame t s e h = put-IsLimited id t _ s e refl h
  perform-IsLimited close_kind id frame t s e h =
      unfold close_session remove remove_if in
      filtered-IsLimited (λ (e : Text × Session). not (text_eq e.0 id)) s h
  perform-IsLimited cwd_kind id frame t s e h = put-IsLimited id t _ s e refl h

  with_session-IsLimited :
      (now : ℕ) (kind : Kind) (id : Text) (sequence : ℕ) (frame : Incoming) (o : Option Session)
      (s : Server)
      → get id s.sessions ≡ o
      → IsLimited s
      → IsLimited (with_session decode utf8 now kind id sequence frame o s).0
  with_session-IsLimited now kind id sequence frame none s e h = h
  with_session-IsLimited now kind id sequence frame (some t) s e h =
      let t' = marked_seen now sequence t in
      let s' = record s { sessions = put id t' s.sessions } in
      if-cases (λ (q : Server × List Effect). IsLimited q.0) (leb sequence t.received_sequence) _ _
        h
        (perform-IsLimited kind id frame t' s' (get-put_self id t' s.sessions)
          (put-IsLimited id t t' s e refl h))

  dispatch-IsLimited :
      (now : ℕ) (id peer room : Text) (frame : Incoming) (sequence : ℕ) (kind : Kind) (s : Server)
      → (not (is_open (some kind)) || none_open s.opening) ≡ true
      → IsLimited s
      → IsLimited (dispatch decode utf8 now id peer room frame sequence kind s).0
  dispatch-IsLimited now id peer room frame sequence open_kind s c h =
      if-cases (λ (q : Server × List Effect). IsLimited q.0)
        (is_some (get id s.sessions) || is_some (get id s.opening)) _ _ h
        (begin_open-IsLimited id peer room sequence frame s (none_open-eq s.opening c) h)
  dispatch-IsLimited now id peer room frame sequence input_kind s c h =
      with_session-IsLimited now input_kind id sequence frame _ s refl h
  dispatch-IsLimited now id peer room frame sequence resize_kind s c h =
      with_session-IsLimited now resize_kind id sequence frame _ s refl h
  dispatch-IsLimited now id peer room frame sequence ping_kind s c h =
      with_session-IsLimited now ping_kind id sequence frame _ s refl h
  dispatch-IsLimited now id peer room frame sequence close_kind s c h =
      with_session-IsLimited now close_kind id sequence frame _ s refl h
  dispatch-IsLimited now id peer room frame sequence cwd_kind s c h =
      with_session-IsLimited now cwd_kind id sequence frame _ s refl h

  with_kind-IsLimited :
      (now : ℕ) (id peer room : Text) (frame : Incoming) (kind : Option Kind) (sequence : Option ℕ)
      (s : Server)
      → (not (is_open kind) || none_open s.opening) ≡ true
      → IsLimited s
      → IsLimited (with_kind decode utf8 now id peer room frame kind sequence s).0
  with_kind-IsLimited now id peer room frame (some kind) (some sequence) s c h =
      dispatch-IsLimited now id peer room frame sequence kind s c h
  with_kind-IsLimited now id peer room frame (some kind) none s c h = h
  with_kind-IsLimited now id peer room frame none sequence s c h = h

  stop_server-IsLimited : (s : Server) → IsLimited s → IsLimited (stop_server s).0
  unfolding stop_server
  stop_server-IsLimited s h =
      if-cases (λ (q : Server × List Effect). IsLimited q.0) s.is_started _ _
        (closed-IsLimited (λ t. true) (record s { is_started = false })
          record { few = h.few; solo = h.solo; alone = h.alone })
        h

  happen-IsLimited :
      (e : Happening) (s : Server)
      → is_calm e s ≡ true
      → IsSound s
      → IsLimited s
      → IsLimited (happen byte_length encode decode utf8 own e s).0
  unfolding happen
  happen-IsLimited (received now peer room frame) s c d h =
      unfold receive in
      if-cases (λ (q : Server × List Effect). IsLimited q.0) _ _ _ h
        (with_kind-IsLimited now (id_of peer frame.session_id) peer room frame frame.kind
          frame.sequence s c h)
  happen-IsLimited (shell_started now id outcome) s c d h =
      unfold spawned in spawned_at-IsLimited now id outcome s _ d refl h
  happen-IsLimited (replied id sent) s c d h =
      unfold finish_open in answered_at-IsLimited id sent s _ refl h
  happen-IsLimited (job_done id found) s c d h =
      unfold finish_job in take_turn-IsLimited id found s _ refl h
  happen-IsLimited (from_pty id e) s c d h = unfold from_shell in shell_at-IsLimited id e s _ refl h
  happen-IsLimited (swept now) s c d h = unfold sweep_sessions in closed-IsLimited _ s h
  happen-IsLimited began s c d h = record { few = h.few; solo = h.solo; alone = h.alone }
  happen-IsLimited ended s c d h = stop_server-IsLimited s h

  unfoldable pub all_calm : List Happening → Server → Bool
  unfolding happen
  all_calm [] s = true
  all_calm (e ∷ es) s = is_calm e s && all_calm es (happen byte_length encode decode utf8 own e s).0

  happen_all-IsLimited :
      (es : List Happening) (s : Server)
      → all_calm es s ≡ true
      → IsSound s
      → IsLimited s
      → IsLimited (happen_all byte_length encode decode utf8 own es s).0
  unfolding happen_all all_calm
  happen_all-IsLimited [] s c d h = h
  happen_all-IsLimited (e ∷ es) s c d h =
      let here = and_left _ _ c in
      happen_all-IsLimited es (happen byte_length encode decode utf8 own e s).0 (and_right _ _ c)
        (happen-Keeps byte_length encode decode utf8 own e s d).sound
        (happen-IsLimited e s here d h)

  -- As long as no open comes while another is under way, there are four sessions at most, the shells that are
  -- still to come included, and no two of them are of one browser.
  pub fresh_server-happen_all-IsLimited :
      (es : List Happening)
      → all_calm es fresh_server ≡ true
      → IsLimited (happen_all byte_length encode decode utf8 own es fresh_server).0
  fresh_server-happen_all-IsLimited es c =
      happen_all-IsLimited es fresh_server c
        record { distinct = unfold Distinct in tt; apart = unfold IsApart get in λ id h. refl }
        record {
          few = unfold peers waiting_peers in omega arith;
          solo = unfold peers waiting_peers is_unique in refl;
          alone = omega arith;
        }
