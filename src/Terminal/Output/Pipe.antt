-- ===== src/Terminal/Output/Pipe.antt =====
-- src/terminal-server.js: the output of a session, seen as a plain pipe that opens once.
pub mod Outcomes
pub mod Refined
use git_pigeon.Prelude.{
  ℕ, zero, suc, ◌+◌, ◌≤◌, ◌≡◌, ◌⊎◌, inl, inr, refl, sym, ap, ◌∙◌, Bool, true, false, not, ◌&&◌,
  ◌||◌, Option, none, some, List, [], ◌∷◌, ◌++◌, arith, take, drop, flat, length, length-drop,
  take-drop, ltb, if◌then◌else◌, Bool-cases, Option-cases,
}
use mathlib.Core.Path.{subst}
use mathlib.Core.List.{append-nil, append_assoc}
use git_pigeon.Prelude.Text.{Text, is_empty}
use git_pigeon.Prelude.Search.{split_at}
use git_pigeon.Terminal.Output.{
  Stream, OutputFrame, FrameKind, output_of, overflow, exited, pong, Event, printed, ready_due,
  output_due, shell_exited, closed_by_peer, pinged, close, send, closing, slices, send_slices,
  flush_output, queue_output, release_output, at_marker, gate_output, exit, and_then, handle_event,
  run_all, ready_marker, ready_max_bytes, output_chunk_bytes, opened, buffered,
}

-- What the browser is to see: nothing while the marker is awaited, then all that comes.
pub data Pipe : Type 0 where
  waiting flowing : Text → Pipe

-- The payloads that were sent.
abbrev pub payload_of : FrameKind → List Text
payload_of (output_of payload) = payload ∷ []
payload_of overflow = []
payload_of exited = []
payload_of pong = []

unfoldable pub payloads : List OutputFrame → List Text
payloads [] = []
payloads (f ∷ fs) = payload_of f.kind ++ payloads fs

abbrev pub time_up : Pipe → Pipe
time_up (waiting text) = flowing text
time_up (flowing text) = flowing text

module _ (byte_length : Text → ℕ) where
  abbrev pub open_at : Text → Option (Text × Text) → Pipe
  open_at text (some (before, after)) = flowing after
  open_at text none = if ltb ready_max_bytes (byte_length text) then flowing text else waiting text

  abbrev pub put_in : Text → Pipe → Pipe
  put_in piece (waiting text) = open_at (text ++ piece) (split_at ready_marker (text ++ piece))
  put_in piece (flowing text) = flowing (text ++ piece)

  -- What an event does to the pipe: only the shell's output and the first timer do something.
  abbrev pub follow : Event → Pipe → Pipe
  follow (printed piece) p = put_in piece p
  follow ready_due p = time_up p
  follow output_due p = p
  follow shell_exited p = p
  follow closed_by_peer p = p
  follow pinged p = p

  unfoldable pub follow_all : List Event → Pipe → Pipe
  follow_all [] p = p
  follow_all (e ∷ es) p = follow_all es (follow e p)

-- The pipe that a stream stands for, where the parts of `sent` were sent so far.
pub data Tracks (sent : Text) (s : Stream) : Pipe → Type 0 where
  tracks_open : (p : Pipe) → s.ready ≡ true → p ≡ flowing (sent ++ s.output) → Tracks sent s p
  tracks_shut :
      (p : Pipe)
      → s.ready ≡ false
      → s.output ≡ []
      → sent ≡ []
      → p ≡ waiting s.preamble
      → Tracks sent s p
