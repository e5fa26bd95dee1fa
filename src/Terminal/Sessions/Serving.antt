-- ===== src/Terminal/Sessions/Serving.antt =====
-- src/terminal-server.js, `#receive`, `#sweep`, `start`, `stop`, `health` and what comes from a shell.
use git_pigeon.Prelude.{
  ℕ, ◌+◌, Bool, true, false, not, ◌||◌, Option, none, some, is_some, List, [], ◌∷◌, ◌++◌, length,
  take, map, ltb, leb, if◌then◌else◌,
}
use git_pigeon.Prelude.Assoc.{get, put, remove}
use git_pigeon.Prelude.Patterns.{is_hex}
use git_pigeon.Prelude.Text.{Text, text_eq}
use git_pigeon.Terminal.Output.{Stream, OutputFrame, Event, handle_event, answer_ping}
use git_pigeon.Terminal.Lines.{change_directory_line}
use git_pigeon.Terminal.Sessions.{
  max_input_bytes, session_timeout_ms, bounded_integer, Kind, open_kind, input_kind, resize_kind,
  ping_kind, close_kind, cwd_kind, Incoming, Chore, type_in, change_directory_to, Session, Server,
  Effect, streamed, resized, typed, killed, id_of, close_sessions, close_session,
}
use git_pigeon.Terminal.Sessions.Opening.{begin_open, Spawned, spawned, finish_open}

-- A job of `session.pending` had its turn; for a directory, with what was found for it.
abbrev pub line_of : Text → Option Text → Session → Chore → List Effect
line_of id found t (type_in input) = typed id input ∷ []
line_of id (some directory) t (change_directory_to wanted) =
    typed id (change_directory_line t.flavor directory) ∷ []
line_of id none t (change_directory_to wanted) = []

abbrev pub turn : Text → Option Text → Session → List Chore → Server → Server × List Effect
turn id found t [] s = (s, [])
turn id found t (job ∷ jobs) s = (
  record s { sessions = put id (record t { pending = jobs }) s.sessions },
  line_of id found t job,
)

abbrev pub take_turn : Text → Option Text → Option Session → Server → Server × List Effect
take_turn id found none s = (s, [])
take_turn id found (some t) s = turn id found t t.pending s

unfoldable pub finish_job : Text → Option Text → Server → Server × List Effect
unfolding change_directory_line
finish_job id found s = take_turn id found (get id s.sessions) s

-- `#sweep`
unfoldable pub sweep_sessions : ℕ → Server → Server × List Effect
unfolding close_sessions
sweep_sessions now s = close_sessions (λ t. ltb (t.last_seen_at + session_timeout_ms) now) s

-- `start` and `stop`, as far as the sessions go
abbrev pub start : Server → Server × List Effect
start s = (record s { is_started = true }, [])

unfoldable pub stop_server : Server → Server × List Effect
unfolding close_sessions
stop_server s =
    if s.is_started then close_sessions (λ t. true) (record s { is_started = false }) else (s, [])

abbrev pub shortened : Option Text → Option Text
shortened none = none
shortened (some error) = some (take 200 error)

-- `health`: the numbers of sessions and of opens, the error cut to 200 code units, and the last open.
abbrev pub health : Server → ℕ × ℕ × Option Text × Option ℕ
health s = (length s.sessions, s.opened, shortened s.last_open_error, s.last_opened_at)

abbrev pub marked_seen : ℕ → ℕ → Session → Session
marked_seen now sequence t = record t { received_sequence = sequence; last_seen_at = now }

module _ (decode utf8 : Text → Text) where
  abbrev pub input_of : Option Text → Option Text
  input_of none = none
  input_of (some payload) =
      if ltb 43699 (length payload) || ltb max_input_bytes (length (decode payload))
      then none
      else some (utf8 (decode payload))

  abbrev pub queued : Text → Session → Option Text → Server → Server × List Effect
  queued id t none s = (s, [])
  queued id t (some input) s = (
    record s {
      sessions = put id (record t { pending = t.pending ++ (type_in input ∷ []) }) s.sessions;
    },
    [],
  )

  -- What a frame does to its session, which is noted as seen.
  abbrev pub perform : Kind → Text → Incoming → Session → Server → Server × List Effect
  perform open_kind id frame t s = (s, [])
  perform ping_kind id frame t s = (
    record s { sessions = put id (record t { stream = (answer_ping t.stream).0 }) s.sessions },
    map (streamed id) (answer_ping t.stream).1,
  )
  perform close_kind id frame t s = close_session id s
  perform resize_kind id frame t s = (
    s,
    resized id (bounded_integer frame.cols 20 400 t.cols) (bounded_integer frame.rows 5 200 t.rows)
        ∷ [],
  )
  perform cwd_kind id frame t s = (
    record s {
      sessions =
          put id
            (record t {
              pending = t.pending ++ (change_directory_to frame.working_repository_id ∷ []);
            })
            s.sessions;
    },
    [],
  )
  perform input_kind id frame t s = queued id t (input_of frame.payload) s

  abbrev pub with_session :
      ℕ → Kind → Text → ℕ → Incoming → Option Session → Server → Server × List Effect
  with_session now kind id sequence frame none s = (s, [])
  with_session now kind id sequence frame (some t) s =
      if leb sequence t.received_sequence
      then (s, [])
      else perform kind id frame (marked_seen now sequence t)
          (record s { sessions = put id (marked_seen now sequence t) s.sessions })

  abbrev pub dispatch : ℕ → Text → Text → Text → Incoming → ℕ → Kind → Server → Server × List Effect
  dispatch now id peer room frame sequence open_kind s =
      if is_some (get id s.sessions) || is_some (get id s.opening)
      then (s, [])
      else begin_open id peer room sequence frame s
  dispatch now id peer room frame sequence input_kind s =
      with_session now input_kind id sequence frame (get id s.sessions) s
  dispatch now id peer room frame sequence resize_kind s =
      with_session now resize_kind id sequence frame (get id s.sessions) s
  dispatch now id peer room frame sequence ping_kind s =
      with_session now ping_kind id sequence frame (get id s.sessions) s
  dispatch now id peer room frame sequence close_kind s =
      with_session now close_kind id sequence frame (get id s.sessions) s
  dispatch now id peer room frame sequence cwd_kind s =
      with_session now cwd_kind id sequence frame (get id s.sessions) s

  abbrev pub with_kind :
      ℕ → Text → Text → Text → Incoming → Option Kind → Option ℕ → Server → Server × List Effect
  with_kind now id peer room frame (some kind) (some sequence) s =
      dispatch now id peer room frame sequence kind s
  with_kind now id peer room frame (some kind) none s = (s, [])
  with_kind now id peer room frame none sequence s = (s, [])

  -- `#receive`
  unfoldable pub receive : Text → ℕ → Text → Text → Incoming → Server → Server × List Effect
  unfolding is_hex text_eq begin_open close_session
  receive own now peer room frame s =
      if not s.is_started
        || not (text_eq frame.service_instance_id own)
        || not (is_hex 32 frame.session_id)
      then (s, [])
      else with_kind now (id_of peer frame.session_id) peer room frame frame.kind frame.sequence s

-- What comes from the shell of a session: its output, its timers and its end.
abbrev pub kept : Text → Session → Stream × List OutputFrame → Server → Server × List Effect
kept id t (stream, frames) s = (
  if stream.closed
      then record s { sessions = remove id s.sessions }
      else record s { sessions = put id (record t { stream = stream }) s.sessions },
  map (streamed id) frames ++ (if stream.closed then killed id ∷ [] else []),
)

module _ (byte_length : Text → ℕ) (encode : Text → Text) where
  abbrev pub shell_at : Text → Event → Option Session → Server → Server × List Effect
  shell_at id e none s = (s, [])
  shell_at id e (some t) s = kept id t (handle_event byte_length encode e t.stream) s

  unfoldable pub from_shell : Text → Event → Server → Server × List Effect
  unfolding handle_event
  from_shell id e s = shell_at id e (get id s.sessions) s

-- What can happen to the server.
pub data Happening : Type 0 where
  received : ℕ → Text → Text → Incoming → Happening
  shell_started : ℕ → Text → Spawned → Happening
  replied : Text → Bool → Happening
  job_done : Text → Option Text → Happening
  from_pty : Text → Event → Happening
  swept : ℕ → Happening
  began ended : Happening

module _ (byte_length : Text → ℕ) (encode decode utf8 : Text → Text) (own : Text) where
  unfoldable pub happen : Happening → Server → Server × List Effect
  unfolding receive spawned finish_open finish_job from_shell sweep_sessions stop_server
  happen (received now peer room frame) s = receive decode utf8 own now peer room frame s
  happen (shell_started now id outcome) s = spawned now id outcome s
  happen (replied id sent) s = finish_open id sent s
  happen (job_done id found) s = finish_job id found s
  happen (from_pty id e) s = from_shell byte_length encode id e s
  happen (swept now) s = sweep_sessions now s
  happen began s = start s
  happen ended s = stop_server s

  unfoldable pub happen_all : List Happening → Server → Server × List Effect
  unfolding happen
  happen_all [] s = (s, [])
  happen_all (h ∷ hs) s =
      let (t, effects) = happen h s in let (u, more) = happen_all hs t in (u, effects ++ more)

-- `constructor`
abbrev pub fresh_server : Server
fresh_server = record {
  is_started = false;
  sessions = [];
  opening = [];
  opened = 0;
  last_opened_at = none;
  last_open_error = none;
}
