-- ===== src/Examples/TerminalRuns.antt =====
-- A shell's output, a session and a typed line, by src/terminal-server.js.
use git_pigeon.Prelude.{
  ℕ, ◌+◌, ◌≡◌, refl, true, false, none, some, List, [], ◌∷◌, ◌++◌, flat, length, filter, any, map,
  arith, length-append,
}
use git_pigeon.Prelude.Assoc.{get, put}
use git_pigeon.Prelude.Instant.{pos}
use git_pigeon.Prelude.Search.{is_prefix, split_at}
use git_pigeon.Prelude.Text.{Text, text, text_eq}
use git_pigeon.Terminal.Capture.{capture_history, capture_all}
use git_pigeon.Terminal.Capture.Fits.{frames_fit}
use git_pigeon.Terminal.Capture.Chunks.{capture_all-eq-capture_history}
use git_pigeon.Terminal.Leases.{Act, adds, releases, starts, act_all, no_roads, repository_root}
use git_pigeon.Terminal.Leases.Listening.{
  IsListening, all_name_others, no_roads-act_all-IsListening,
}
use git_pigeon.Terminal.Lines.{quote_shell, change_directory_line}
use git_pigeon.Terminal.Lines.Words.{read_word, bare, change_directory_line-read_word}
use git_pigeon.Terminal.Output.{Event, printed, output_due, ready_marker, opened, run_all}
use git_pigeon.Terminal.Output.Pipe.{Tracks, payloads, follow_all, waiting}
use git_pigeon.Terminal.Output.Pipe.Refined.{run_all-refines_follow_all}
use git_pigeon.Terminal.Output.Bounds.{IsSteady, opened-run_all-IsSteady}
use git_pigeon.Terminal.Output.Numbered.{Counts, run_all-Counts}
use git_pigeon.Terminal.Sessions.{Incoming, Kind, open_kind, ping_kind}
use git_pigeon.Terminal.Sessions.Opening.{running}
use git_pigeon.Terminal.Sessions.Serving.{
  Happening, received, shell_started, replied, from_pty, swept, began, happen_all, receive,
  fresh_server,
}
use git_pigeon.Terminal.Sessions.Shells.{IsSound, count, is_start, is_kill, live}
use git_pigeon.Terminal.Sessions.Shells.Kept.{fresh_server-happen_all-Keeps}
use git_pigeon.Terminal.Sessions.Limits.{IsLimited}
use git_pigeon.Terminal.Sessions.Limits.Calm.{
  all_calm, none_open, fresh_server-happen_all-IsLimited,
}
use git_pigeon.Terminal.Sessions.Late.{start_others}
use git_pigeon.Terminal.Sessions.Late.Once.{receive-once}

-- A frame with the command line `ls`, which comes in two pieces.
abbrev pieces : List Text
pieces = (text "a" ++ (27 ∷ text "]777;git")) ∷ (text "pigeon-hist;ls" ++ (7 ∷ text "b")) ∷ []

abbrev plain : Text → Text
plain s = s

pieces_fit : frames_fit (1 + length (flat pieces)) (flat pieces) ≡ true
unfolding frames_fit split_at is_prefix
pieces_fit = refl

capture_all-eq-capture_history_example :
    capture_all plain [] pieces ≡ capture_history plain [] (flat pieces)
capture_all-eq-capture_history_example = capture_all-eq-capture_history plain pieces pieces_fit

abbrev events : List Event
events =
    printed (text "noise")
    ∷ printed (ready_marker ++ text "ok")
    ∷ output_due
    ∷ printed (text "more")
    ∷ []

events_open : (run_all length plain events opened).0.closed ≡ false
unfolding run_all
events_open = refl

-- The marker lets through what follows it, in one frame, and the rest waits.
events_sent : payloads (run_all length plain events opened).1 ≡ text "ok" ∷ []
unfolding run_all payloads
events_sent = refl

run_all-refines_follow_all_example :
    (texts : List Text) × (payloads (run_all length plain events opened).1 ≡ map plain texts)
    × Tracks
        (flat texts)
        (run_all length plain events opened).0
        (follow_all length events (waiting []))
run_all-refines_follow_all_example = run_all-refines_follow_all length plain events events_open

opened-run_all-IsSteady_example : IsSteady length (run_all length plain events opened).0
opened-run_all-IsSteady_example =
    opened-run_all-IsSteady length plain refl (λ a b. omega (arith, length-append a b)) events

run_all-Counts_example : Counts opened (run_all length plain events opened)
run_all-Counts_example = run_all-Counts length plain events opened

change_directory_line-read_word_example :
    (change_directory_line (text "sh") (text "it's")
      ≡ text " clear; cd " ++ (quote_shell (text "it's") ++ (13 ∷ [])))
    × (read_word bare (quote_shell (text "it's") ++ (13 ∷ [])) ≡ some (text "it's", 13 ∷ []))
change_directory_line-read_word_example =
    change_directory_line-read_word (text "sh") (text "it's") [] (unfold text_eq in refl)
      (unfold text_eq in refl)

abbrev own : Text
own = text "watcher"

abbrev session_id : Text
session_id = text "00112233445566778899aabbccddeeff"

abbrev frame_of : Kind → ℕ → Incoming
frame_of kind sequence = record {
  service_instance_id = own;
  session_id = session_id;
  kind = some kind;
  sequence = some sequence;
  cols = some (pos 80);
  rows = none;
  devices = some (text "laptop" ∷ []);
  payload = none;
  working_repository_id = none;
}

abbrev id : Text
id = text "ann:00112233445566778899aabbccddeeff"

abbrev happenings : List Happening
happenings =
    began
    ∷ received 0 (text "ann") (text "room") (frame_of open_kind 1)
    ∷ shell_started 5 id (running (text "sh") none)
    ∷ replied id true
    ∷ received 9 (text "ann") (text "room") (frame_of ping_kind 2)
    ∷ from_pty id (printed (text "hello"))
    ∷ swept 100000
    ∷ []

happenings_calm : all_calm length plain plain plain own happenings fresh_server ≡ true
unfolding all_calm none_open
happenings_calm = refl

-- The session is swept, and its shell was killed.
happenings-count :
    count (is_kill id) (happen_all length plain plain plain own happenings fresh_server).1 ≡ 1
unfolding happen_all count get filter put
happenings-count = refl

fresh_server-happen_all-Keeps_example :
    let q = happen_all length plain plain plain own happenings fresh_server in
    IsSound q.0 × ((key : Text) → count (is_start key) q.1 ≡ live key q.0 + count (is_kill key) q.1)
fresh_server-happen_all-Keeps_example =
    fresh_server-happen_all-Keeps length plain plain plain own happenings

fresh_server-happen_all-IsLimited_example :
    IsLimited (happen_all length plain plain plain own happenings fresh_server).0
fresh_server-happen_all-IsLimited_example =
    fresh_server-happen_all-IsLimited length plain plain plain own happenings happenings_calm

-- The session is opened, and what comes between two arrivals of a ping: a later ping, output and a sweep.
abbrev opening : List Happening
opening =
    began
    ∷ received 0 (text "ann") (text "room") (frame_of open_kind 1)
    ∷ shell_started 5 id (running (text "sh") none)
    ∷ replied id true
    ∷ []

abbrev meanwhile : List Happening
meanwhile =
    received 9 (text "ann") (text "room") (frame_of ping_kind 3)
    ∷ from_pty id (printed (text "hello"))
    ∷ swept 20
    ∷ []

opening-started : (happen_all length plain plain plain own opening fresh_server).0.is_started ≡ true
unfolding happen_all get filter put
opening-started = refl

meanwhile-others : start_others id meanwhile ≡ true
unfolding start_others
meanwhile-others = refl

receive-once_example :
    let s = (happen_all length plain plain plain own opening fresh_server).0 in
    let q = receive plain plain own 8 (text "ann") (text "room") (frame_of ping_kind 2) s in
    let u = (happen_all length plain plain plain own meanwhile q.0).0 in
    receive plain plain own 30 (text "ann") (text "other") (frame_of ping_kind 2) u ≡ (u, [])
receive-once_example =
    receive-once length plain plain plain own 8 30 (text "ann") (text "room") (text "other")
      (frame_of ping_kind 2) opening meanwhile refl opening-started meanwhile-others

abbrev acts : List Act
acts =
    starts
    ∷ adds (text "repo") (text "/a")
    ∷ adds (text "repo") (text "/b")
    ∷ releases (text "repo") 0
    ∷ []

acts-named : all_name_others (text "device") acts ≡ true
unfolding all_name_others text_eq
acts-named = refl

-- The second root is left, and its room is listened to.
acts-root : repository_root (text "repo") (act_all (text "device") acts no_roads) ≡ some (text "/b")
unfolding repository_root act_all get put any filter text_eq
acts-root = refl

no_roads-act_all-IsListening_example :
    IsListening (text "device") (act_all (text "device") acts no_roads)
no_roads-act_all-IsListening_example = no_roads-act_all-IsListening (text "device") acts acts-named
