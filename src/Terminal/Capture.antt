-- ===== src/Terminal/Capture.antt =====
-- src/terminal-server.js, `#captureHistory`: the frames by which a shell reports its command lines are
-- taken out of its output. What a frame's payload decodes to is a parameter.
pub mod Pieces
pub mod Fits
pub mod Chunks
use git_pigeon.Prelude.{
  ℕ, zero, suc, ◌+◌, Bool, true, false, ◌&&◌, Option, none, some, List, [], ◌∷◌, ◌++◌, length, leb,
  ltb, if◌then◌else◌,
}
use git_pigeon.Prelude.Text.{Text, text}
use git_pigeon.Prelude.Search.{is_prefix, split_at, split_last}

abbrev pub header : Text
header = 27 ∷ text "]777;gitpigeon-hist;"

abbrev pub bell : Text
bell = 7 ∷ []

abbrev pub max_carry : ℕ
max_carry = 8192

-- What is shown, the command lines, and what is held back for the next piece.
pub record Captured : Type 0 where
  pub visible : Text
  pub lines : List Text
  pub carry : Text

abbrev pub shown : Text → Captured
shown s = record { visible = s; lines = []; carry = [] }

abbrev pub held_at : Text → Option (Text × Text) → Captured
held_at s none = shown s
held_at s (some (before, from)) =
    if leb (length from) (length header) && is_prefix from header
    then record { visible = before; lines = []; carry = from }
    else shown s

-- Without a frame in it: a tail that could be the start of one is held back.
unfoldable pub held : Text → Captured
unfolding is_prefix split_last
held s = held_at s (split_last 27 s)

-- A frame that is not at its end yet.
abbrev pub unterminated : Text → Text → Captured
unterminated before frame =
    if ltb max_carry (length frame)
    then shown (before ++ frame)
    else record { visible = before; lines = []; carry = frame }

-- What came before, and what came next.
abbrev pub and_then : Captured → Captured → Captured
and_then first next = record {
  visible = first.visible ++ next.visible;
  lines = first.lines ++ next.lines;
  carry = next.carry;
}

module _ (decode : Text → Text) where
  abbrev pub past_frame : Text → Text → Captured → Captured
  past_frame before payload rest = record {
    visible = before ++ rest.visible;
    lines = decode payload ∷ rest.lines;
    carry = rest.carry;
  }

  abbrev pub at_frame : (Text → Captured) → Text → Text → Option (Text × Text) → Captured
  at_frame next before after none = unterminated before (header ++ after)
  at_frame next before after (some (payload, rest)) = past_frame before payload (next rest)

  abbrev pub one_turn : (Text → Captured) → Text → Option (Text × Text) → Captured
  one_turn next s none = held s
  one_turn next s (some (before, after)) = at_frame next before after (split_at bell after)

  -- The loop. Each turn takes a frame away, so the text's length is rounds enough.
  unfoldable pub scan : ℕ → Text → Captured
  unfolding split_at held
  scan zero s = shown s
  scan (suc n) s = one_turn (scan n) s (split_at header s)

  -- `#captureHistory`, with `historyCarry` and the new piece.
  unfoldable pub capture_history : Text → Text → Captured
  unfolding scan
  capture_history carry piece = scan (suc (length (carry ++ piece))) (carry ++ piece)

  -- The handler of `onData`, for the pieces of output one after the other.
  unfoldable pub capture_all : Text → List Text → Captured
  unfolding capture_history
  capture_all carry [] = record { visible = []; lines = []; carry = carry }
  capture_all carry (piece ∷ pieces) =
      let first = capture_history carry piece in and_then first (capture_all first.carry pieces)
