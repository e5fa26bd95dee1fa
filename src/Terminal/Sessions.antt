-- ===== src/Terminal/Sessions.antt =====
-- src/terminal-server.js, `#receive`, `#open`, `#sweep`, `#close` and `stop`: the table of sessions. A call that
-- waits is cut where it waits: `#open` up to the start of the shell, from there to its reply, and the end of
-- `#receive`. What a shell, the decoder and the file system answer is a parameter or stands in the event.
pub mod Opening
pub mod Serving
pub mod Senders
pub mod Replays
pub mod Shells
pub mod Limits
pub mod Late
use git_pigeon.Prelude.{
  ℕ, zero, suc, ◌+◌, ◌*◌, Bool, true, false, not, ◌&&◌, ◌||◌, Option, none, some, is_some, List, [],
  ◌∷◌, ◌++◌, length, take, filter, map, ltb, leb, ◌==◌, if◌then◌else◌,
}
use git_pigeon.Prelude.Assoc.{Assoc, get, put, remove, remove_if}
use git_pigeon.Prelude.Instant.{ℤ, pos, negsuc}
use git_pigeon.Prelude.Patterns.{is_hex, every}
use git_pigeon.Prelude.Text.{Text, text, text_eq, is_empty, trim}
use git_pigeon.Terminal.Output.{Stream, OutputFrame, Event, opened, handle_event}
use git_pigeon.Terminal.Lines.{change_directory_line}

abbrev pub max_sessions : ℕ
max_sessions = 4

abbrev pub max_input_bytes : ℕ
max_input_bytes = 32768

abbrev pub max_devices : ℕ
max_devices = 64

abbrev pub session_timeout_ms : ℕ
session_timeout_ms = 60000

-- `boundedInteger`, of what `Number` yields, where that is a safe integer
unfoldable pub bounded_integer : Option ℤ → ℕ → ℕ → ℕ → ℕ
bounded_integer none minimum maximum fallback = fallback
bounded_integer (some (negsuc n)) minimum maximum fallback =
    if ltb maximum minimum then maximum else minimum
bounded_integer (some (pos n)) minimum maximum fallback =
    let raised = if ltb n minimum then minimum else n in
    if ltb maximum raised then maximum else raised

-- `/[\u0000-\u001f\u007f]/`
abbrev pub is_control : ℕ → Bool
is_control c = ltb c 32 || c == 127

-- `cleanDeviceName`
unfoldable pub clean_device_name : Text → Text
unfolding trim is_empty
clean_device_name value =
    let name = filter (λ c. not (is_control c)) (trim value) in
    take 120 (if is_empty name then text "device" else name)

-- `validRoster`, of the names of the entries of an array
unfoldable pub valid_roster : Option (List Text) → Option (List Text)
unfolding clean_device_name
valid_roster none = none
valid_roster (some names) =
    if ltb (length names) 1 || ltb max_devices (length names)
    then none
    else some (map clean_device_name names)

pub data Kind : Type 0 where
  open_kind input_kind resize_kind ping_kind close_kind cwd_kind : Kind

-- A frame from a browser. What is missing: a kind that is not known, a sequence that is no safe integer from zero
-- on, a size that `Number` reads as no safe integer, a roster that is no array, and a payload that is no string.
pub record Incoming : Type 0 where
  pub service_instance_id : Text
  pub session_id : Text
  pub kind : Option Kind
  pub sequence : Option ℕ
  pub cols : Option ℤ
  pub rows : Option ℤ
  pub devices : Option (List Text)
  pub payload : Option Text
  pub working_repository_id : Option Text

-- What waits in `session.pending` for its turn.
pub data Chore : Type 0 where
  type_in : Text → Chore
  change_directory_to : Option Text → Chore

pub record Session : Type 0 where
  pub peer_id : Text
  pub session_id : Text
  pub room : Text
  pub flavor : Text
  pub pending : List Chore
  pub cols : ℕ
  pub rows : ℕ
  pub last_seen_at : ℕ
  pub received_sequence : ℕ
  pub stream : Stream

-- An open whose shell is started.
pub record OpenRequest : Type 0 where
  pub peer_id : Text
  pub session_id : Text
  pub room : Text
  pub sequence : ℕ
  pub cols : ℕ
  pub rows : ℕ
  pub roster : List Text

-- Where an open waits: for its shell, or for its reply to be sent, with what is typed after it.
pub data Flight : Type 0 where
  awaiting : OpenRequest → Flight
  answering : Option Text → Flight

pub record Server : Type 0 where
  pub is_started : Bool
  pub sessions : Assoc Session
  pub opening : Assoc Flight
  pub opened : ℕ
  pub last_opened_at : Option ℕ
  pub last_open_error : Option Text

pub data Answer : Type 0 where
  welcomed : Answer
  rejected : Text → Answer

pub data Effect : Type 0 where
  answered : Text → Answer → ℕ → Effect
  streamed : Text → OutputFrame → Effect
  resized : Text → ℕ → ℕ → Effect
  typed : Text → Text → Effect
  started_shell : Text → OpenRequest → Effect
  -- The shell that was started for a session is there, and the shell of a session is killed.
  runs_shell killed : Text → Effect

-- `${peerId}:${sessionId}`
abbrev pub id_of : Text → Text → Text
id_of peer session = peer ++ (text ":" ++ session)

-- `#close` of the sessions that a test names
unfoldable pub close_sessions : (Session → Bool) → Server → Server × List Effect
close_sessions test s = (
  record s { sessions = filter (λ e. not (test e.1)) s.sessions },
  map (λ e. killed e.0) (filter (λ e. test e.1) s.sessions),
)

-- `#close`
unfoldable pub close_session : Text → Server → Server × List Effect
close_session id s = (
  record s { sessions = remove id s.sessions },
  if is_some (get id s.sessions) then killed id ∷ [] else [],
)
