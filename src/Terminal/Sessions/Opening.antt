-- ===== src/Terminal/Sessions/Opening.antt =====
-- src/terminal-server.js, `#open`: up to the start of the shell, from there to its reply, and after that.
use git_pigeon.Prelude.{
  ℕ, ◌+◌, Bool, Option, none, some, List, [], ◌∷◌, ◌++◌, length, leb, if◌then◌else◌,
}
use git_pigeon.Prelude.Assoc.{get, put, remove}
use git_pigeon.Prelude.Text.{Text, text, text_eq}
use git_pigeon.Terminal.Output.{opened}
use git_pigeon.Terminal.Sessions.{
  max_sessions, bounded_integer, valid_roster, Incoming, Session, OpenRequest, Flight, awaiting,
  answering, Server, welcomed, rejected, Effect, answered, typed, started_shell, close_sessions,
  runs_shell,
}

-- The steps of `#open` up to the start of the shell.
abbrev pub refuse : Text → Text → Server × List Effect → Server × List Effect
refuse id message (s, effects) = (
  record s { opening = put id (answering none) s.opening },
  effects ++ (answered id (rejected message) 0 ∷ []),
)

abbrev pub launch : Text → OpenRequest → Server × List Effect → Server × List Effect
launch id request (s, effects) = (
  record s { opening = put id (awaiting request) s.opening },
  effects ++ (started_shell id request ∷ []),
)

abbrev pub request_of : Text → Text → ℕ → Incoming → List Text → OpenRequest
request_of peer room sequence frame roster = record {
  peer_id = peer;
  session_id = frame.session_id;
  room = room;
  sequence = sequence;
  cols = bounded_integer frame.cols 20 400 100;
  rows = bounded_integer frame.rows 5 200 30;
  roster = roster;
}

abbrev pub admit :
    Text
    → Text
    → Text
    → ℕ
    → Incoming
    → Option (List Text)
    → Server × List Effect
    → Server × List Effect
admit id peer room sequence frame none q =
    refuse id (text "The terminal device roster is invalid.") q
admit id peer room sequence frame (some roster) q =
    launch id (request_of peer room sequence frame roster) q

unfoldable pub begin_open : Text → Text → Text → ℕ → Incoming → Server → Server × List Effect
unfolding close_sessions bounded_integer valid_roster
begin_open id peer room sequence frame s =
    let q = close_sessions (λ t. text_eq t.peer_id peer) s in
    if leb max_sessions (length q.0.sessions)
    then refuse id (text "This watcher has reached its terminal session limit.") q
    else admit id peer room sequence frame (valid_roster frame.devices) q

-- The steps of `#open` when its shell is there, or is not.
pub data Spawned : Type 0 where
  failed : Text → Spawned
  running : Text → Option Text → Spawned

abbrev pub session_of : ℕ → Text → OpenRequest → Session
session_of now flavor r = record {
  peer_id = r.peer_id;
  session_id = r.session_id;
  room = r.room;
  flavor = flavor;
  pending = [];
  cols = r.cols;
  rows = r.rows;
  last_seen_at = now;
  received_sequence = r.sequence;
  stream = opened;
}

abbrev pub conclude : ℕ → Text → Spawned → OpenRequest → Server → Server × List Effect
conclude now id (failed message) r s =
    let error = text "Could not open the watcher shell: " ++ message in
    (
      record s { last_open_error = some error; opening = put id (answering none) s.opening },
      answered id (rejected error) 0 ∷ [],
    )
conclude now id (running flavor initialize) r s = (
  record s {
    sessions = put id (session_of now flavor r) s.sessions;
    opened = s.opened + 1;
    last_opened_at = some now;
    last_open_error = none;
    opening = put id (answering initialize) s.opening;
  },
  runs_shell id ∷ (answered id welcomed 1 ∷ []),
)

abbrev pub spawned_at : ℕ → Text → Spawned → Option Flight → Server → Server × List Effect
spawned_at now id outcome (some (awaiting r)) s = conclude now id outcome r s
spawned_at now id outcome (some (answering line)) s = (s, [])
spawned_at now id outcome none s = (s, [])

unfoldable pub spawned : ℕ → Text → Spawned → Server → Server × List Effect
spawned now id outcome s = spawned_at now id outcome (get id s.opening) s

-- The reply of an open was sent, or was not.
abbrev pub answered_at : Text → Bool → Option Flight → Server → Server × List Effect
answered_at id sent (some (answering (some line))) s =
    (record s { opening = remove id s.opening }, if sent then typed id line ∷ [] else [])
answered_at id sent (some (answering none)) s = (record s { opening = remove id s.opening }, [])
answered_at id sent (some (awaiting r)) s = (s, [])
answered_at id sent none s = (s, [])

unfoldable pub finish_open : Text → Bool → Server → Server × List Effect
finish_open id sent s = answered_at id sent (get id s.opening) s
