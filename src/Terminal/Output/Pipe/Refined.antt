-- ===== src/Terminal/Output/Pipe/Refined.antt =====
-- src/terminal-server.js: the output of a session beside the plain pipe, step by step.
use git_pigeon.Prelude.{
  map, flat, length, if-cases, arith, ◌∷◌, ℕ, ◌≡◌, inl, inr, refl, sym, ap, ◌∙◌, true, false,
  Option, none, some, List, [], ◌∷◌, ◌++◌, ltb, Bool-cases,
}
use mathlib.Core.Path.{subst}
use mathlib.Core.List.{append-nil, append_assoc}
use git_pigeon.Prelude.Text.{Text}
use git_pigeon.Terminal.Output.{
  slices, send, pong, Stream, OutputFrame, Event, printed, ready_due, output_due, shell_exited,
  closed_by_peer, pinged, queue_output, release_output, at_marker, gate_output, handle_event,
  run_all, ready_max_bytes, opened,
}
use git_pigeon.Terminal.Output.Pipe.{
  Pipe, waiting, flowing, payloads, open_at, put_in, time_up, follow, follow_all, Tracks,
  tracks_open, tracks_shut,
}
use git_pigeon.Terminal.Output.Pipe.Outcomes.{
  flat-slices, payloads-append, close-closed, queue_output-sent, let_out, release_output-opens,
  release_output-closed, release_output-stays, gate_output-ready, gate_output-shut,
  flush_output-closed, flush_output-sent, exit-closed, run_all-flowing,
}

map_append : (f : Text → Text) (xs ys : List Text) → map f (xs ++ ys) ≡ map f xs ++ map f ys
map_append f [] ys = refl
map_append f (x ∷ xs) ys = ap (◌∷◌ (f x)) (map_append f xs ys)

flat-append : (xs ys : List Text) → flat (xs ++ ys) ≡ flat xs ++ flat ys
flat-append [] ys = refl
flat-append (x ∷ xs) ys = ap (◌++◌ x) (flat-append xs ys) ∙ sym (append_assoc x (flat xs) (flat ys))

module _ (byte_length : Text → ℕ) (encode : Text → Text) where
  -- The frames carry, each encoded on its own, texts that follow what was sent before, and with them the stream
  -- stands for the pipe.
  abbrev pub Carries : Text → Pipe → Stream × List OutputFrame → Type 0
  Carries sent p (s, frames) =
      (texts : List Text) × (payloads frames ≡ map encode texts) × Tracks (sent ++ flat texts) s p

  -- One step, unless the session is closed by it.
  Steps : Text → Pipe → Stream × List OutputFrame → Type 0
  Steps sent p q = q.0.closed ≡ false → Carries sent p q

  queue_output-Tracks :
      (sent piece : Text) (s : Stream)
      → s.ready ≡ true
      → Steps sent (flowing ((sent ++ s.output) ++ piece)) (queue_output byte_length piece s)
  unfolding Steps
  queue_output-Tracks sent piece s r h =
      let (a, b, c) = queue_output-sent byte_length encode piece s h in
      (
        [],
        a,
        tracks_open _ (c ∙ r)
            (rw (b, append-nil sent) (ap flowing (append_assoc sent s.output piece))),
      )

  Steps-stay :
      (sent : Text) (s : Stream) (p : Pipe)
      → (s.closed ≡ false → Tracks sent s p)
      → Steps sent p (s, [])
  unfolding Steps payloads
  Steps-stay sent s p t h = ([], refl, rw (append-nil sent) (t h))

  release_output-Tracks :
      (tail : Text) (s : Stream)
      → s.ready ≡ false
      → s.output ≡ []
      → Steps [] (flowing tail) (release_output byte_length tail s)
  unfolding Steps
  release_output-Tracks tail s r o h =
      let c = release_output-closed byte_length encode tail s h in
      let e = release_output-opens byte_length encode tail s r c in
      let t : Steps [] (flowing (s.output ++ tail)) (release_output byte_length tail s) =
        subst (Steps [] (flowing (s.output ++ tail))) (sym e)
          (queue_output-Tracks [] tail (let_out byte_length encode s) refl) in
      subst (λ (o : Text). Steps [] (flowing (o ++ tail)) (release_output byte_length tail s)) o t h

  at_marker-Tracks :
      (s : Stream) (found : Option (Text × Text))
      → s.ready ≡ false
      → s.output ≡ []
      → Steps [] (open_at byte_length s.preamble found) (at_marker byte_length s found)
  at_marker-Tracks s (some (before, after)) r o = release_output-Tracks after s r o
  at_marker-Tracks s none r o = elim (Bool-cases (ltb ready_max_bytes (byte_length s.preamble))) [
    | inl e ↦ rw e (release_output-Tracks s.preamble s r o)
    | inr e ↦ rw e (Steps-stay [] s (waiting s.preamble) (λ c. tracks_shut _ r o refl refl))
  ]

  handle_event-printed :
      (piece sent : Text) (s : Stream) (p : Pipe)
      → Tracks sent s p
      → Steps sent (put_in byte_length piece p) (handle_event byte_length encode (printed piece) s)
  unfolding handle_event
  handle_event-printed piece sent s p (tracks_open _ r e) =
      subst
        (λ (q : Pipe). Steps sent (put_in byte_length piece q) (gate_output byte_length piece s))
        (sym e)
        (subst (Steps sent (flowing ((sent ++ s.output) ++ piece)))
          (sym (gate_output-ready byte_length encode piece s r))
          (queue_output-Tracks sent piece s r))
  handle_event-printed piece sent s p (tracks_shut _ r o e t) =
      subst
        (λ (q : Text × Pipe).
          Steps q.0 (put_in byte_length piece q.1) (gate_output byte_length piece s))
        (λ i. (sym e i, sym t i))
        (subst (Steps [] (put_in byte_length piece (waiting s.preamble)))
          (sym (gate_output-shut byte_length encode piece s r))
          (at_marker-Tracks (record s { preamble = s.preamble ++ piece }) _ r o))

  handle_event-ready_due :
      (sent : Text) (s : Stream) (p : Pipe)
      → Tracks sent s p
      → Steps sent (time_up p) (handle_event byte_length encode ready_due s)
  unfolding handle_event
  handle_event-ready_due sent s p (tracks_open _ r e) =
      subst (λ (q : Pipe). Steps sent (time_up q) (release_output byte_length s.preamble s)) (sym e)
        (subst (Steps sent (flowing (sent ++ s.output)))
          (sym (release_output-stays byte_length encode s.preamble s r))
          (Steps-stay sent s _ (λ c. tracks_open _ r refl)))
  handle_event-ready_due sent s p (tracks_shut _ r o e t) =
      subst (λ (q : Text × Pipe). Steps q.0 (time_up q.1) (release_output byte_length s.preamble s))
        (λ i. (sym e i, sym t i)) (release_output-Tracks s.preamble s r o)

  handle_event-output_due :
      (sent : Text) (s : Stream) (p : Pipe)
      → Tracks sent s p
      → Steps sent p (handle_event byte_length encode output_due s)
  unfolding handle_event Steps
  handle_event-output_due sent s p (tracks_open _ r e) h =
      let (a, b, c, d) =
        flush_output-sent byte_length encode s
          (sym (flush_output-closed byte_length encode s) ∙ h) in
      let f = flat-slices (length s.output) s.output (omega arith) in
      (
        slices (length s.output) s.output,
        a,
        tracks_open _ (c ∙ r) (rw (f, b, append-nil (sent ++ s.output)) e),
      )
  handle_event-output_due sent s p (tracks_shut _ r o e t) h =
      let (a, b, c, d) =
        flush_output-sent byte_length encode s
          (sym (flush_output-closed byte_length encode s) ∙ h) in
      let f = flat-slices (length s.output) s.output (omega arith) in
      (slices (length s.output) s.output, a, tracks_shut _ (c ∙ r) b (rw (f, o, e) refl) (rw d t))

  pinged-Tracks :
      (sent : Text) (s : Stream) (p : Pipe) → Tracks sent s p → Tracks sent (send pong s).0 p
  pinged-Tracks sent s p (tracks_open _ r e) = tracks_open p r e
  pinged-Tracks sent s p (tracks_shut _ r o e t) = tracks_shut p r o e t

  handle_event-pinged :
      (sent : Text) (s : Stream) (p : Pipe)
      → Tracks sent s p
      → Steps sent p (handle_event byte_length encode pinged s)
  unfolding handle_event Steps payloads
  handle_event-pinged sent s p t =
      if-cases (Steps sent p) s.closed (s, []) (send pong s) (Steps-stay sent s p (λ h. t))
        (λ h. ([], refl, rw (append-nil sent) (pinged-Tracks sent s p t)))

  handle_event-Tracks :
      (e : Event) (sent : Text) (s : Stream) (p : Pipe)
      → Tracks sent s p
      → Steps sent (follow byte_length e p) (handle_event byte_length encode e s)
  handle_event-Tracks (printed piece) sent s p t = handle_event-printed piece sent s p t
  handle_event-Tracks ready_due sent s p t = handle_event-ready_due sent s p t
  handle_event-Tracks output_due sent s p t = handle_event-output_due sent s p t
  handle_event-Tracks shell_exited sent s p t =
      unfold Steps handle_event in λ h. cc (exit-closed byte_length encode s)
  handle_event-Tracks closed_by_peer sent s p t =
      unfold Steps handle_event in λ h. cc (close-closed s)
  handle_event-Tracks pinged sent s p t = handle_event-pinged sent s p t

  -- What two steps send, one after the other.
  Carries-then :
      (sent : Text) (texts : List Text) (p : Pipe) (s : Stream) (fs gs : List OutputFrame)
      → payloads fs ≡ map encode texts
      → Carries (sent ++ flat texts) p (s, gs)
      → Carries sent p (s, fs ++ gs)
  Carries-then sent texts p s fs gs h (more, k, t) = (
    texts ++ more,
    payloads-append fs gs ∙ rw (h, k) (sym (map_append encode texts more)),
    rw (flat-append texts more, ← append_assoc sent (flat texts) (flat more)) t,
  )

  run_all-Tracks :
      (es : List Event) (sent : Text) (s : Stream) (p : Pipe)
      → Tracks sent s p
      → (run_all byte_length encode es s).0.closed ≡ false
      → Carries sent (follow_all byte_length es p) (run_all byte_length encode es s)
  unfolding run_all follow_all
  run_all-Tracks [] sent s p t h = unfold payloads in ([], refl, rw (append-nil sent) t)
  run_all-Tracks (e ∷ es) sent s p t h =
      let (s', frames) = handle_event byte_length encode e s in
      let c = run_all-flowing byte_length encode es (handle_event byte_length encode e s).0 h in
      let here : Carries sent (follow byte_length e p) (handle_event byte_length encode e s) =
        unfold Steps in handle_event-Tracks e sent s p t c in
      let (texts, carried, then) = here in
      Carries-then sent texts _ _ (handle_event byte_length encode e s).1
        (run_all byte_length encode es (handle_event byte_length encode e s).0).1 carried
        (run_all-Tracks es (sent ++ flat texts) (handle_event byte_length encode e s).0
          (follow byte_length e p) then h)

  -- As long as a session is not closed, its frames carry texts, each encoded on its own and in order, so that the
  -- texts and then the queue are the text of the plain pipe: while the pipe waits there is neither, and when it
  -- flows they make up its text.
  pub run_all-refines_follow_all :
      (es : List Event)
      → (run_all byte_length encode es opened).0.closed ≡ false
      → (texts : List Text) × (payloads (run_all byte_length encode es opened).1 ≡ map encode texts)
        × Tracks
            (flat texts)
            (run_all byte_length encode es opened).0
            (follow_all byte_length es (waiting []))
  run_all-refines_follow_all es h =
      run_all-Tracks es [] opened (waiting []) (tracks_shut _ refl refl refl refl) h
