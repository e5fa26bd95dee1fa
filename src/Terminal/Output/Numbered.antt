-- ===== src/Terminal/Output/Numbered.antt =====
-- src/terminal-server.js: the sequence numbers of the frames of a session, `session.sentSequence`.
use git_pigeon.Prelude.{
  ◌&&◌, ◌==◌, length-append, ℕ, ◌+◌, ◌≡◌, inl, inr, refl, sym, true, false, Option, none, some,
  List, [], ◌∷◌, ◌++◌, arith, length, Bool-cases, Bool, length-append, ◌==◌,
}
use mathlib.Core.Path.{subst}
use git_pigeon.Prelude.Text.{Text}
use git_pigeon.Terminal.Output.Pipe.Outcomes.{
  gate_output-ready, gate_output-shut, exit-open, exit-stays,
}
use git_pigeon.Terminal.Output.{
  Stream, OutputFrame, exited, Event, printed, ready_due, output_due, shell_exited, closed_by_peer,
  pinged, close, send, closing, slices, send_slices, flush_output, queue_output, release_output,
  at_marker, gate_output, exit, and_then, handle_event, run_all, output_of, FrameKind,
}

-- Whether the frames are numbered one by one, after `n`.
unfoldable pub numbered : ℕ → List OutputFrame → Bool
numbered n [] = true
numbered n (f ∷ fs) = f.sequence == n + 1 && numbered (n + 1) fs

-- The frames of a step are numbered after those before it, and the session counts them.
pub Counts : Stream → Stream × List OutputFrame → Type 0
Counts s (t, fs) =
    (numbered s.sent_sequence fs ≡ true) × (t.sent_sequence ≡ s.sent_sequence + length fs)

numbered-append :
    (n : ℕ) (fs gs : List OutputFrame)
    → numbered n fs ≡ true
    → numbered (n + length fs) gs ≡ true
    → numbered n (fs ++ gs) ≡ true
unfolding numbered
numbered-append n [] gs h k = ground (arith, h, k)
numbered-append n (f ∷ fs) gs h k = ground (arith, h, k, numbered-append (n + 1) fs gs)

Counts-stay : (s t : Stream) → t.sent_sequence ≡ s.sent_sequence → Counts s (t, [])
unfolding Counts numbered
Counts-stay s t h = ground (arith, h)

Counts-then :
    (s : Stream) (q : Stream × List OutputFrame) (next : Stream → Stream × List OutputFrame)
    → Counts s q
    → Counts q.0 (next q.0)
    → Counts s (and_then q next)
unfolding Counts
Counts-then s (t, fs) next (a, b) (c, d) = (
  numbered-append s.sent_sequence fs (next t).1 a (ground (arith, b, c)),
  ground (arith, b, d, length-append fs (next t).1),
)

Counts-send :
    (kind : FrameKind) (s t : Stream) → t.sent_sequence ≡ s.sent_sequence → Counts s (send kind t)
unfolding Counts numbered
Counts-send kind s t h = ground (arith, h)

Counts-close : (s : Stream) (q : Stream × List OutputFrame) → Counts s q → Counts s (closing q)
unfolding Counts close
Counts-close s (t, fs) h = ground (arith, h)

send_slices-Counts :
    (encode : Text → Text) (ps : List Text) (s : Stream) → Counts s (send_slices encode ps s)
unfolding send_slices
send_slices-Counts encode [] s = Counts-stay s s refl
send_slices-Counts encode (p ∷ ps) s =
    Counts-then s (send (output_of (encode p)) s) (send_slices encode ps)
      (Counts-send (output_of (encode p)) s s refl)
      (send_slices-Counts encode ps (send (output_of (encode p)) s).0)

flush_output-Counts : (encode : Text → Text) (s : Stream) → Counts s (flush_output encode s)
unfolding flush_output Counts numbered
flush_output-Counts encode s =
    let emptied_s = record s { output_timer = false; output = []; output_bytes = 0 } in
    ground (arith, send_slices-Counts encode (slices (length s.output) s.output) emptied_s)

module _ (byte_length : Text → ℕ) (encode : Text → Text) where
  queue_output-Counts : (piece : Text) (s : Stream) → Counts s (queue_output byte_length piece s)
  unfolding Counts queue_output close numbered
  queue_output-Counts piece s = ground arith

  release_output-Counts : (tail : Text) (s : Stream) → Counts s (release_output byte_length tail s)
  unfolding release_output Counts numbered
  release_output-Counts tail s = ground (
    arith,
    queue_output-Counts tail (record s { ready = true; preamble = []; ready_timer = false }),
  )

  at_marker-Counts :
      (s : Stream) (found : Option (Text × Text)) → Counts s (at_marker byte_length s found)
  unfolding Counts numbered
  at_marker-Counts s (some (before, after)) = release_output-Counts after s
  at_marker-Counts s none = ground (arith, release_output-Counts s.preamble s)

  gate_output-Counts : (piece : Text) (s : Stream) → Counts s (gate_output byte_length piece s)
  unfolding Counts
  gate_output-Counts piece s = elim (Bool-cases s.ready) [
    | inl e ↦
        subst (Counts s) (sym (gate_output-ready byte_length encode piece s e))
          (queue_output-Counts piece s)
    | inr e ↦
        subst (Counts s) (sym (gate_output-shut byte_length encode piece s e))
          (at_marker-Counts (record s { preamble = s.preamble ++ piece }) _)
  ]

  exit-Counts : (s : Stream) → Counts s (exit byte_length encode s)
  exit-Counts s = elim (Bool-cases s.closed) [
    | inl e ↦ subst (Counts s) (sym (exit-stays byte_length encode s e)) (Counts-stay s s refl)
    | inr e ↦
        let released = release_output byte_length s.preamble s in
        let flushed = and_then released (flush_output encode) in
        subst (Counts s) (sym (exit-open byte_length encode s e)) (
          Counts-close s (and_then flushed (send exited)) (
            Counts-then s flushed (send exited)
              (Counts-then s released (flush_output encode) (release_output-Counts s.preamble s)
                (flush_output-Counts encode released.0))
              (Counts-send exited flushed.0 flushed.0 refl)))
  ]

  handle_event-Counts : (e : Event) (s : Stream) → Counts s (handle_event byte_length encode e s)
  unfolding handle_event
  handle_event-Counts (printed piece) s = gate_output-Counts piece s
  handle_event-Counts ready_due s = release_output-Counts s.preamble s
  handle_event-Counts output_due s = flush_output-Counts encode s
  handle_event-Counts shell_exited s = exit-Counts s
  handle_event-Counts closed_by_peer s = Counts-close s (s, []) (Counts-stay s s refl)
  handle_event-Counts pinged s = unfold Counts numbered in ground arith

  -- The frames that a session sends, its answers to pings included, are numbered one by one after those it
  -- sent before, and the session counts every one of them: none is left out and no number is used twice.
  pub run_all-Counts : (es : List Event) (s : Stream) → Counts s (run_all byte_length encode es s)
  unfolding run_all
  run_all-Counts [] s = Counts-stay s s refl
  run_all-Counts (e ∷ es) s =
      Counts-then s (handle_event byte_length encode e s) (run_all byte_length encode es)
        (handle_event-Counts e s) (run_all-Counts es (handle_event byte_length encode e s).0)
