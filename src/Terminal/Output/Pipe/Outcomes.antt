-- ===== src/Terminal/Output/Pipe/Outcomes.antt =====
-- src/terminal-server.js: what an operation on the output of a session sends and leaves, with its tests decided.
use git_pigeon.Prelude.{
  map, ℕ, zero, suc, ◌+◌, ◌≤◌, ◌≡◌, inl, inr, refl, sym, ap, ◌∙◌, true, false, Option, none, some,
  List, [], ◌∷◌, ◌++◌, arith, take, drop, flat, length, length-drop, take-drop, ltb, Bool-cases,
}
use mathlib.Core.Path.{subst}
use mathlib.Core.List.{append-nil, append_assoc}
use git_pigeon.Prelude.Text.{Text, is_empty}
use git_pigeon.Prelude.Search.{split_at}
use git_pigeon.Terminal.Output.{
  Stream, OutputFrame, exited, Event, printed, ready_due, output_due, shell_exited, closed_by_peer,
  pinged, close, send, closing, slices, send_slices, flush_output, queue_output, release_output,
  at_marker, gate_output, exit, and_then, handle_event, run_all, ready_marker, ready_max_bytes,
  output_chunk_bytes,
}
use git_pigeon.Terminal.Output.Pipe.{payload_of, payloads}

pub payloads-append : (fs gs : List OutputFrame) → payloads (fs ++ gs) ≡ payloads fs ++ payloads gs
unfolding payloads
payloads-append [] gs = refl
payloads-append (f ∷ fs) gs =
    ap (◌++◌ (payload_of f.kind)) (payloads-append fs gs)
    ∙ sym (append_assoc (payload_of f.kind) (payloads fs) (payloads gs))

pub close-closed : (s : Stream) → (close s).closed ≡ true
unfolding close
close-closed s = ground arith

pub send_slices-payloads :
    (encode : Text → Text) (ps : List Text) (s : Stream)
    → (payloads (send_slices encode ps s).1 ≡ map encode ps)
      × ((send_slices encode ps s).0.output ≡ s.output)
      × ((send_slices encode ps s).0.ready ≡ s.ready)
      × ((send_slices encode ps s).0.preamble ≡ s.preamble)
      × ((send_slices encode ps s).0.closed ≡ s.closed)
unfolding payloads send_slices
send_slices-payloads encode [] s = (refl, refl, refl, refl, refl)
send_slices-payloads encode (p ∷ ps) s =
    let (a, b, c, d, e) =
      send_slices-payloads encode ps (record s { sent_sequence = s.sent_sequence + 1 }) in
    (ap (◌∷◌ (encode p)) a, b, c, d, e)

pub flat-slices : (n : ℕ) (value : Text) → length value ≤ n → flat (slices n value) ≡ value
unfolding slices
flat-slices zero [] h = refl
flat-slices zero (c ∷ value) h = absurd (omega arith)
flat-slices (suc n) [] h = refl
flat-slices (suc n) (c ∷ value) h =
    ap (◌++◌ (take output_chunk_bytes (c ∷ value))) (
      flat-slices n (drop output_chunk_bytes (c ∷ value))
        (ground (arith, length-drop output_chunk_bytes (c ∷ value))))
    ∙ take-drop output_chunk_bytes (c ∷ value)

pub is_empty-eq : (s : Text) → is_empty s ≡ true → s ≡ []
unfolding is_empty
is_empty-eq [] h = refl
is_empty-eq (c ∷ s) h = cc

module _ (byte_length : Text → ℕ) (encode : Text → Text) where
  pub queue_output-flowing :
      (piece : Text) (s : Stream)
      → (queue_output byte_length piece s).0.closed ≡ false
      → s.closed ≡ false
  unfolding queue_output close
  queue_output-flowing piece s h = ground (arith, h)

  pub queue_output-sent :
      (piece : Text) (s : Stream)
      → (queue_output byte_length piece s).0.closed ≡ false
      → (payloads (queue_output byte_length piece s).1 ≡ [])
        × ((queue_output byte_length piece s).0.output ≡ s.output ++ piece)
        × ((queue_output byte_length piece s).0.ready ≡ s.ready)
  unfolding queue_output payloads close
  queue_output-sent piece s h = elim (Bool-cases (is_empty piece)) [
    | inl e ↦ ground (arith, h, e, is_empty-eq piece e, append-nil s.output)
    | inr e ↦ ground (arith, h, e)
  ]

  abbrev pub let_out : Stream → Stream
  let_out s = record s { ready = true; preamble = []; ready_timer = false }

  pub release_output-opens :
      (tail : Text) (s : Stream)
      → s.ready ≡ false
      → s.closed ≡ false
      → release_output byte_length tail s ≡ queue_output byte_length tail (let_out s)
  unfolding release_output
  release_output-opens tail s r c = rw (r, c) refl

  pub release_output-closed :
      (tail : Text) (s : Stream)
      → (release_output byte_length tail s).0.closed ≡ false
      → s.closed ≡ false
  unfolding release_output
  release_output-closed tail s h = ground (arith, h, queue_output-flowing tail (let_out s))

  pub release_output-stays :
      (tail : Text) (s : Stream) → s.ready ≡ true → release_output byte_length tail s ≡ (s, [])
  unfolding release_output
  release_output-stays tail s r = ground (arith, r)

  pub gate_output-ready :
      (piece : Text) (s : Stream)
      → s.ready ≡ true
      → gate_output byte_length piece s ≡ queue_output byte_length piece s
  unfolding gate_output
  gate_output-ready piece s r = ground (arith, r)

  pub gate_output-shut :
      (piece : Text) (s : Stream)
      → s.ready ≡ false
      → gate_output byte_length piece s
        ≡ at_marker byte_length
            (record s { preamble = s.preamble ++ piece })
            (split_at ready_marker (s.preamble ++ piece))
  unfolding gate_output
  gate_output-shut piece s r = rw r refl

  pub flush_output-empty :
      (s : Stream)
      → is_empty s.output ≡ true
      → flush_output encode s ≡ (record s { output_timer = false }, [])
  unfolding flush_output
  flush_output-empty s e = ground (arith, e)

  pub flush_output-open :
      (s : Stream)
      → s.closed ≡ false
      → is_empty s.output ≡ false
      → flush_output encode s
        ≡ send_slices encode
            (slices (length s.output) s.output)
            (record s { output_timer = false; output = []; output_bytes = 0 })
  unfolding flush_output
  flush_output-open s c e = ground (arith, c, e)

  pub flush_output-closed : (s : Stream) → (flush_output encode s).0.closed ≡ s.closed
  unfolding flush_output
  flush_output-closed s =
      let (a, b, c, d, e) =
        send_slices-payloads encode (slices (length s.output) s.output)
          (record s { output_timer = false; output = []; output_bytes = 0 }) in
      ground (arith, e)

  pub flush_output-sent :
      (s : Stream)
      → s.closed ≡ false
      → (payloads (flush_output encode s).1 ≡ map encode (slices (length s.output) s.output))
        × ((flush_output encode s).0.output ≡ [])
        × ((flush_output encode s).0.ready ≡ s.ready)
        × ((flush_output encode s).0.preamble ≡ s.preamble)
  flush_output-sent s c = elim (Bool-cases (is_empty s.output)) [
    | inl e ↦
        subst
          (λ (q : Stream × List OutputFrame).
            (payloads q.1 ≡ map encode (slices (length s.output) s.output))
            × (q.0.output ≡ [])
            × (q.0.ready ≡ s.ready)
            × (q.0.preamble ≡ s.preamble))
          (sym (flush_output-empty s e))
          (
            unfold payloads slices in rw (is_empty-eq s.output e) refl,
            is_empty-eq s.output e,
            refl,
            refl,
          )
    | inr e ↦
        let (a, b, r, d, _) =
          send_slices-payloads encode (slices (length s.output) s.output)
            (record s { output_timer = false; output = []; output_bytes = 0 }) in
        subst
          (λ (q : Stream × List OutputFrame).
            (payloads q.1 ≡ map encode (slices (length s.output) s.output))
            × (q.0.output ≡ [])
            × (q.0.ready ≡ s.ready)
            × (q.0.preamble ≡ s.preamble))
          (sym (flush_output-open s c e)) (a, b, r, d)
  ]

  pub exit-open :
      (s : Stream)
      → s.closed ≡ false
      → exit byte_length encode s
        ≡ closing (
            and_then
              (and_then (release_output byte_length s.preamble s) (flush_output encode))
              (send exited))
  unfolding exit
  exit-open s c = ground (arith, c)

  pub exit-stays : (s : Stream) → s.closed ≡ true → exit byte_length encode s ≡ (s, [])
  unfolding exit
  exit-stays s c = ground (arith, c)

  pub exit-closed : (s : Stream) → (exit byte_length encode s).0.closed ≡ true
  exit-closed s = elim (Bool-cases s.closed) [
    | inl e ↦ ap (λ (q : Stream × List OutputFrame). q.0.closed) (exit-stays s e) ∙ e
    | inr e ↦
        ap (λ (q : Stream × List OutputFrame). q.0.closed) (exit-open s e)
        ∙ close-closed
            (and_then (and_then (release_output byte_length s.preamble s) (flush_output encode))
              (send exited)).0
  ]

  pub at_marker-flowing :
      (s : Stream) (found : Option (Text × Text))
      → (at_marker byte_length s found).0.closed ≡ false
      → s.closed ≡ false
  at_marker-flowing s (some (before, after)) h = release_output-closed after s h
  at_marker-flowing s none h = elim (Bool-cases (ltb ready_max_bytes (byte_length s.preamble))) [
    | inl e ↦ release_output-closed s.preamble s (rw e at h)
    | inr e ↦ rw e at h
  ]

  pub gate_output-flowing :
      (piece : Text) (s : Stream)
      → (gate_output byte_length piece s).0.closed ≡ false
      → s.closed ≡ false
  gate_output-flowing piece s h = elim (Bool-cases s.ready) [
    | inl e ↦ queue_output-flowing piece s (
        subst (λ (q : Stream × List OutputFrame). q.0.closed ≡ false) (gate_output-ready piece s e)
          h)
    | inr e ↦
        at_marker-flowing (record s { preamble = s.preamble ++ piece }) _
          (subst (λ (q : Stream × List OutputFrame). q.0.closed ≡ false)
            (gate_output-shut piece s e) h)
  ]

  pub handle_event-flowing :
      (e : Event) (s : Stream)
      → (handle_event byte_length encode e s).0.closed ≡ false
      → s.closed ≡ false
  unfolding handle_event
  handle_event-flowing (printed piece) s h = gate_output-flowing piece s h
  handle_event-flowing ready_due s h = release_output-closed s.preamble s h
  handle_event-flowing output_due s h = sym (flush_output-closed s) ∙ h
  handle_event-flowing shell_exited s h = cc (exit-closed s)
  handle_event-flowing closed_by_peer s h = cc (close-closed s)
  handle_event-flowing pinged s h = ground (arith, h)

  pub run_all-flowing :
      (es : List Event) (s : Stream)
      → (run_all byte_length encode es s).0.closed ≡ false
      → s.closed ≡ false
  unfolding run_all
  run_all-flowing [] s h = h
  run_all-flowing (e ∷ es) s h =
      handle_event-flowing e s (run_all-flowing es (handle_event byte_length encode e s).0 h)
