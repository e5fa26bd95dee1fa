-- ===== src/Terminal/Output/Bounds.antt =====
-- src/terminal-server.js: the limits, the timers and the sequence numbers of a session's output.
use git_pigeon.Prelude.{
  ℕ, ◌+◌, ◌≤◌, ◌≡◌, inl, inr, sym, true, false, Option, none, some, List, [], ◌∷◌, ◌++◌, arith,
  length, Bool-cases,
}
use mathlib.Core.Path.{subst}
use git_pigeon.Prelude.Text.{Text, is_empty}
use git_pigeon.Terminal.Output.Pipe.Outcomes.{
  gate_output-ready, gate_output-shut, exit-open, exit-stays,
}
use git_pigeon.Terminal.Output.{
  Stream, OutputFrame, Event, printed, ready_due, output_due, shell_exited, closed_by_peer, pinged,
  close, slices, send_slices, flush_output, queue_output, release_output, at_marker, gate_output,
  exit, handle_event, run_all, max_output_bytes, opened,
}

-- What holds of a session between its events. The bytes that are counted are no fewer than those that wait.
pub record IsSteady (byte_length : Text → ℕ) (s : Stream) : Type 0 where
  pub counted : byte_length s.output ≤ s.output_bytes
  pub within : s.output_bytes ≤ max_output_bytes
  pub timed : is_empty s.output ≡ false → s.output_timer ≡ true
  pub watched : s.ready ≡ false → s.closed ≡ false → s.ready_timer ≡ true
  pub withheld : s.ready ≡ false → is_empty s.output ≡ true
  pub emptied :
      s.closed ≡ true
      → (is_empty s.output ≡ true) × (s.output_timer ≡ false) × (s.ready_timer ≡ false)

-- The empty text has no bytes, and texts that are joined have no more than both had.
module _ (byte_length : Text → ℕ) (encode : Text → Text) (empty : byte_length [] ≡ 0)
    (joined : (a b : Text) → byte_length (a ++ b) ≤ byte_length a + byte_length b) where
  close-IsSteady : (s : Stream) → IsSteady byte_length s → IsSteady byte_length (close s)
  unfolding close is_empty
  close-IsSteady s h = ground (arith, h, empty)

  send_slices-IsSteady :
      (ps : List Text) (s : Stream)
      → IsSteady byte_length s
      → IsSteady byte_length (send_slices encode ps s).0
  unfolding send_slices
  send_slices-IsSteady [] s h = h
  send_slices-IsSteady (p ∷ ps) s h =
      send_slices-IsSteady ps (record s { sent_sequence = s.sent_sequence + 1 }) (ground (arith, h))

  flush_output-IsSteady :
      (s : Stream) → IsSteady byte_length s → IsSteady byte_length (flush_output encode s).0
  unfolding flush_output is_empty
  flush_output-IsSteady s h =
      let emptied_s = record s { output_timer = false; output = []; output_bytes = 0 } in
      let e : IsSteady byte_length emptied_s = ground (arith, h, empty) in
      ground (arith, h, send_slices-IsSteady (slices (length s.output) s.output) emptied_s e)

  queue_output-IsSteady :
      (piece : Text) (s : Stream)
      → s.ready ≡ true
      → IsSteady byte_length s
      → IsSteady byte_length (queue_output byte_length piece s).0
  unfolding queue_output close is_empty
  queue_output-IsSteady piece s r h = ground (arith, h, r, empty, joined s.output piece)

  release_output-IsSteady :
      (tail : Text) (s : Stream)
      → IsSteady byte_length s
      → IsSteady byte_length (release_output byte_length tail s).0
  unfolding release_output
  release_output-IsSteady tail s h =
      let opened_s = record s { ready = true; preamble = []; ready_timer = false } in
      ground (arith, h, queue_output-IsSteady tail opened_s)

  at_marker-IsSteady :
      (s : Stream) (found : Option (Text × Text))
      → IsSteady byte_length s
      → IsSteady byte_length (at_marker byte_length s found).0
  at_marker-IsSteady s (some (before, after)) h = release_output-IsSteady after s h
  at_marker-IsSteady s none h = ground (arith, h, release_output-IsSteady s.preamble s h)

  gate_output-IsSteady :
      (piece : Text) (s : Stream)
      → IsSteady byte_length s
      → IsSteady byte_length (gate_output byte_length piece s).0
  gate_output-IsSteady piece s h = elim (Bool-cases s.ready) [
    | inl e ↦
        subst (λ (q : Stream × List OutputFrame). IsSteady byte_length q.0)
          (sym (gate_output-ready byte_length encode piece s e)) (queue_output-IsSteady piece s e h)
    | inr e ↦
        subst (λ (q : Stream × List OutputFrame). IsSteady byte_length q.0)
          (sym (gate_output-shut byte_length encode piece s e))
          (at_marker-IsSteady (record s { preamble = s.preamble ++ piece }) _ (ground (arith, h)))
  ]

  exit-IsSteady :
      (s : Stream) → IsSteady byte_length s → IsSteady byte_length (exit byte_length encode s).0
  exit-IsSteady s h =
      let released = (release_output byte_length s.preamble s).0 in
      let flushed = (flush_output encode released).0 in
      let last = record flushed { sent_sequence = flushed.sent_sequence + 1 } in
      let t : IsSteady byte_length flushed =
        flush_output-IsSteady released (release_output-IsSteady s.preamble s h) in
      elim (Bool-cases s.closed) [
        | inl e ↦
            subst (λ (q : Stream × List OutputFrame). IsSteady byte_length q.0)
              (sym (exit-stays byte_length encode s e)) h
        | inr e ↦
            subst (λ (q : Stream × List OutputFrame). IsSteady byte_length q.0)
              (sym (exit-open byte_length encode s e)) (close-IsSteady last (ground (arith, t)))
      ]

  handle_event-IsSteady :
      (e : Event) (s : Stream)
      → IsSteady byte_length s
      → IsSteady byte_length (handle_event byte_length encode e s).0
  unfolding handle_event
  handle_event-IsSteady (printed piece) s h = gate_output-IsSteady piece s h
  handle_event-IsSteady ready_due s h = release_output-IsSteady s.preamble s h
  handle_event-IsSteady output_due s h = flush_output-IsSteady s h
  handle_event-IsSteady shell_exited s h = exit-IsSteady s h
  handle_event-IsSteady closed_by_peer s h = close-IsSteady s h
  handle_event-IsSteady pinged s h = ground (arith, h)

  run_all-IsSteady :
      (es : List Event) (s : Stream)
      → IsSteady byte_length s
      → IsSteady byte_length (run_all byte_length encode es s).0
  unfolding run_all
  run_all-IsSteady [] s h = h
  run_all-IsSteady (e ∷ es) s h =
      run_all-IsSteady es (handle_event byte_length encode e s).0 (handle_event-IsSteady e s h)

  -- From the opening of a session on, whatever comes in whatever order: what waits has no more bytes than are
  -- counted, and these are within the limit; it has a timer that will send it; a session that awaits the marker
  -- has a timer and queues nothing; and a session that is closed has no text and no timer left. The empty text has
  -- no bytes, and texts that are joined have no more bytes than both had.
  pub opened-run_all-IsSteady :
      (es : List Event) → IsSteady byte_length (run_all byte_length encode es opened).0
  opened-run_all-IsSteady es = run_all-IsSteady es opened (unfold is_empty in ground (arith, empty))
