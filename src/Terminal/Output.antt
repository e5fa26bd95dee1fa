-- ===== src/Terminal/Output.antt =====
-- src/terminal-server.js, `#gateOutput`, `#releaseOutput`, `#queueOutput`, `#flushOutput` and `#close`:
-- the way of a shell's output to the browser. The length of a text in bytes and the encoding of a
-- payload are parameters; a frame that is sent arrives.
pub mod Pipe
pub mod Bounds
pub mod Numbered
use git_pigeon.Prelude.{
  ℕ, zero, suc, ◌+◌, Bool, true, false, not, ◌&&◌, ◌||◌, Option, none, some, List, [], ◌∷◌, ◌++◌,
  take, drop, length, ltb, if◌then◌else◌,
}
use git_pigeon.Prelude.Text.{Text, text, is_empty}
use git_pigeon.Prelude.Search.{split_at}

abbrev pub ready_marker : Text
ready_marker = 27 ∷ (text "]777;gitpigeon-ready" ++ (7 ∷ []))

abbrev pub ready_max_bytes : ℕ
ready_max_bytes = 65536

abbrev pub max_output_bytes : ℕ
max_output_bytes = 262144

abbrev pub output_chunk_bytes : ℕ
output_chunk_bytes = 16384

-- The fields of a session that its output needs; of the timers, whether they are set.
pub record Stream : Type 0 where
  pub output : Text
  pub output_bytes : ℕ
  pub output_timer : Bool
  pub ready : Bool
  pub preamble : Text
  pub ready_timer : Bool
  pub closed : Bool
  pub sent_sequence : ℕ

pub data FrameKind : Type 0 where
  output_of : Text → FrameKind
  overflow exited pong : FrameKind

pub record OutputFrame : Type 0 where
  pub sequence : ℕ
  pub kind : FrameKind

-- A session's stream when it is opened, after the frame `opened`.
abbrev pub opened : Stream
opened = record {
  output = [];
  output_bytes = 0;
  output_timer = false;
  ready = false;
  preamble = [];
  ready_timer = true;
  closed = false;
  sent_sequence = 1;
}

-- `#close`
unfoldable pub close : Stream → Stream
close s = if s.closed then s else record s {
  closed = true;
  output_timer = false;
  ready_timer = false;
  preamble = [];
  output = [];
  output_bytes = 0;
}

-- `#send` with `++session.sentSequence`
abbrev pub send : FrameKind → Stream → Stream × List OutputFrame
send kind s = (
  record s { sent_sequence = s.sent_sequence + 1 },
  record { sequence = s.sent_sequence + 1; kind = kind } ∷ [],
)

abbrev pub closing : Stream × List OutputFrame → Stream × List OutputFrame
closing (s, frames) = (close s, frames)

-- The slices of a text that are sent, one frame each; its length is rounds enough.
unfoldable pub slices : ℕ → Text → List Text
slices zero value = []
slices (suc n) [] = []
slices (suc n) (c ∷ value) =
    take output_chunk_bytes (c ∷ value) ∷ slices n (drop output_chunk_bytes (c ∷ value))

-- `encode` is `Buffer.from(s).toString('base64')`; each slice is encoded on its own.
module _ (encode : Text → Text) where
  unfoldable pub send_slices : List Text → Stream → Stream × List OutputFrame
  send_slices [] s = (s, [])
  send_slices (slice ∷ rest) s =
      let (t, first) = send (output_of (encode slice)) s in
      let (u, others) = send_slices rest t in (u, first ++ others)

  -- `#flushOutput`
  unfoldable pub flush_output : Stream → Stream × List OutputFrame
  unfolding slices send_slices is_empty
  flush_output s =
      let t = record s { output_timer = false } in
      if t.closed || is_empty t.output
      then (t, [])
      else send_slices (slices (length t.output) t.output)
          (record t { output = []; output_bytes = 0 })

-- The answer to a ping, in `#receive`.
abbrev pub answer_ping : Stream → Stream × List OutputFrame
answer_ping s = send pong s

abbrev pub and_then :
    Stream × List OutputFrame → (Stream → Stream × List OutputFrame) → Stream × List OutputFrame
and_then (s, frames) next = let (t, more) = next s in (t, frames ++ more)

-- What can happen to a session: visible output, the two timers, its shell's end, a close, and a ping.
pub data Event : Type 0 where
  printed : Text → Event
  ready_due output_due shell_exited closed_by_peer pinged : Event

module _ (byte_length : Text → ℕ) where
  abbrev pub buffered : Text → Stream → Stream
  buffered piece s = record s {
    output = s.output ++ piece;
    output_bytes = s.output_bytes + byte_length piece;
  }

  -- `#queueOutput`
  unfoldable pub queue_output : Text → Stream → Stream × List OutputFrame
  unfolding close is_empty
  queue_output piece s =
      if s.closed || is_empty piece
      then (s, [])
      else if ltb max_output_bytes (buffered piece s).output_bytes
      then closing (send overflow (buffered piece s))
      else (record (buffered piece s) { output_timer = true }, [])

  -- `#releaseOutput`
  unfoldable pub release_output : Text → Stream → Stream × List OutputFrame
  unfolding queue_output
  release_output tail s =
      if s.ready || s.closed
      then (s, [])
      else queue_output tail (record s { ready = true; preamble = []; ready_timer = false })

  abbrev pub at_marker : Stream → Option (Text × Text) → Stream × List OutputFrame
  at_marker s (some (before, after)) = release_output after s
  at_marker s none =
      if ltb ready_max_bytes (byte_length s.preamble) then release_output s.preamble s else (s, [])

  -- `#gateOutput`
  unfoldable pub gate_output : Text → Stream → Stream × List OutputFrame
  unfolding release_output split_at
  gate_output piece s =
      if s.ready
      then queue_output piece s
      else at_marker (record s { preamble = s.preamble ++ piece })
          (split_at ready_marker (s.preamble ++ piece))

module _ (byte_length : Text → ℕ) (encode : Text → Text) where
  -- The handler of `onExit`.
  unfoldable pub exit : Stream → Stream × List OutputFrame
  unfolding release_output flush_output close
  exit s =
      if s.closed
      then (s, [])
      else closing (
          and_then (and_then (release_output byte_length s.preamble s) (flush_output encode))
            (send exited))

  unfoldable pub handle_event : Event → Stream → Stream × List OutputFrame
  unfolding gate_output release_output flush_output exit close
  handle_event (printed piece) s = gate_output byte_length piece s
  handle_event ready_due s = release_output byte_length s.preamble s
  handle_event output_due s = flush_output encode s
  handle_event shell_exited s = exit s
  handle_event closed_by_peer s = (close s, [])
  handle_event pinged s = if s.closed then (s, []) else answer_ping s

  unfoldable pub run_all : List Event → Stream → Stream × List OutputFrame
  unfolding handle_event
  run_all [] s = (s, [])
  run_all (e ∷ es) s = and_then (handle_event e s) (run_all es)
