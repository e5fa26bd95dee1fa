-- ===== src/Terminal/Sessions/Late/Once.antt =====
-- src/terminal-server.js, `#receive` and `receivedSequence`: a frame that comes again after whatever happened since.
use mathlib.Core.Path.{subst}
use git_pigeon.Prelude.{
  ℕ, true, false, not, ◌||◌, Option, none, some, List, [], ◌≡◌, refl, inl, inr, arith, Bool-cases,
  sym,
}
use git_pigeon.Prelude.Assoc.{get}
use git_pigeon.Prelude.Patterns.{is_hex}
use git_pigeon.Prelude.Text.{Text, text_eq}
use git_pigeon.Terminal.Sessions.{
  Kind, open_kind, input_kind, resize_kind, ping_kind, close_kind, cwd_kind, Incoming, id_of,
  Server, Effect,
}
use git_pigeon.Terminal.Sessions.Serving.{
  dispatch, with_kind, receive, Happening, received, happen, happen_all, fresh_server,
}
use git_pigeon.Terminal.Sessions.Shells.{IsSound}
use git_pigeon.Terminal.Sessions.Shells.Kept.{happen-Keeps, fresh_server-happen_all-Keeps}
use git_pigeon.Terminal.Sessions.Limits.Calm.{is_open}
use git_pigeon.Terminal.Sessions.Replays.{Saw, with_session-marked_seen, with_session-Saw}
use git_pigeon.Terminal.Sessions.Late.Steps.{happen_all-AllSaw}
use git_pigeon.Terminal.Sessions.Late.{AllSaw-Saw, Saw-AllSaw, start_others}

module _ (decode utf8 : Text → Text) where
  dispatch-Saw :
      (now : ℕ) (id peer room : Text) (frame : Incoming) (n : ℕ) (kind : Kind) (s : Server)
      → is_open (some kind) ≡ false
      → Saw n (get id (dispatch decode utf8 now id peer room frame n kind s).0.sessions)
  dispatch-Saw now id peer room frame n open_kind s h = absurd (ground (arith, h))
  dispatch-Saw now id peer room frame n input_kind s h =
      (with_session-Saw decode utf8 now input_kind id n frame s _ refl).1
  dispatch-Saw now id peer room frame n resize_kind s h =
      (with_session-Saw decode utf8 now resize_kind id n frame s _ refl).1
  dispatch-Saw now id peer room frame n ping_kind s h =
      (with_session-Saw decode utf8 now ping_kind id n frame s _ refl).1
  dispatch-Saw now id peer room frame n close_kind s h =
      (with_session-Saw decode utf8 now close_kind id n frame s _ refl).1
  dispatch-Saw now id peer room frame n cwd_kind s h =
      (with_session-Saw decode utf8 now cwd_kind id n frame s _ refl).1

  seen_dispatch :
      (now : ℕ) (id peer room : Text) (frame : Incoming) (n : ℕ) (kind : Kind) (s : Server)
      → is_open (some kind) ≡ false
      → Saw n (get id s.sessions)
      → dispatch decode utf8 now id peer room frame n kind s ≡ (s, [])
  seen_dispatch now id peer room frame n open_kind s h a = absurd (ground (arith, h))
  seen_dispatch now id peer room frame n input_kind s h a =
      with_session-marked_seen decode utf8 now input_kind id n frame _ s a
  seen_dispatch now id peer room frame n resize_kind s h a =
      with_session-marked_seen decode utf8 now resize_kind id n frame _ s a
  seen_dispatch now id peer room frame n ping_kind s h a =
      with_session-marked_seen decode utf8 now ping_kind id n frame _ s a
  seen_dispatch now id peer room frame n close_kind s h a =
      with_session-marked_seen decode utf8 now close_kind id n frame _ s a
  seen_dispatch now id peer room frame n cwd_kind s h a =
      with_session-marked_seen decode utf8 now cwd_kind id n frame _ s a

module _ (byte_length : Text → ℕ) (encode decode utf8 : Text → Text) (own : Text) where
  abbrev after : List Happening → Server → Server
  after hs s = (happen_all byte_length encode decode utf8 own hs s).0

  after-with_kind :
      (now now' : ℕ) (id peer room room' : Text) (frame : Incoming) (kind : Option Kind)
      (sequence : Option ℕ) (between : List Happening) (s : Server)
      → is_open kind ≡ false
      → start_others id between ≡ true
      → IsSound (with_kind decode utf8 now id peer room frame kind sequence s).0
      → let u = after between (with_kind decode utf8 now id peer room frame kind sequence s).0 in
        with_kind decode utf8 now' id peer room' frame kind sequence u ≡ (u, [])
  after-with_kind now now' id peer room room' frame (some kind) (some n) between s c o h =
      let q = dispatch decode utf8 now id peer room frame n kind s in
      let first =
        Saw-AllSaw n id q.0.sessions h.distinct
          (dispatch-Saw decode utf8 now id peer room frame n kind s c) in
      let u = after between q.0 in
      seen_dispatch decode utf8 now' id peer room' frame n kind u c (
        AllSaw-Saw n id u.sessions
          (happen_all-AllSaw n id byte_length encode decode utf8 own between q.0 o first))
  after-with_kind now now' id peer room room' frame (some kind) none between s c o h = refl
  after-with_kind now now' id peer room room' frame none sequence between s c o h = refl

  receive-with_kind :
      (now : ℕ) (peer room : Text) (frame : Incoming) (s : Server)
      → not s.is_started ≡ false
      → (not (text_eq frame.service_instance_id own) || not (is_hex 32 frame.session_id)) ≡ false
      → with_kind decode utf8 now
          (id_of peer frame.session_id)
          peer
          room
          frame
          frame.kind
          frame.sequence
          s
        ≡ receive decode utf8 own now peer room frame s
  unfolding receive
  receive-with_kind now peer room frame s d e = rw (d, e) refl

  -- A frame that is not an open is acted upon at most once: when it came to a started server, whatever happened
  -- to the server before, and it comes again from the same browser, at whatever time and in whatever room, then
  -- whatever else happened in between, also further frames of the same session, the server stays as it is and
  -- nothing is done. The condition is that in between no shell is started for a new session of the same id.
  pub receive-once :
      (now now' : ℕ) (peer room room' : Text) (frame : Incoming) (before between : List Happening)
      → is_open frame.kind ≡ false
      → (after before fresh_server).is_started ≡ true
      → start_others (id_of peer frame.session_id) between ≡ true
      → let s = after before fresh_server in
        let u = after between (receive decode utf8 own now peer room frame s).0 in
        receive decode utf8 own now' peer room' frame u ≡ (u, [])
  unfolding receive
  receive-once now now' peer room room' frame before between c b o =
      let s = after before fresh_server in
      let h = (fresh_server-happen_all-Keeps byte_length encode decode utf8 own before).0 in
      let id = id_of peer frame.session_id in
      let q = receive decode utf8 own now peer room frame s in
      let sound : IsSound q.0 =
        unfold happen in
        (happen-Keeps byte_length encode decode utf8 own (received now peer room frame) s
          h).sound in
      let u = after between q.0 in
      elim (Bool-cases (not u.is_started)) [
        | inl e ↦ rw e refl
        | inr d ↦
            elim (Bool-cases
              (not (text_eq frame.service_instance_id own) || not (is_hex 32 frame.session_id))) [
                | inl e ↦ rw (d, e) refl
                | inr e ↦
                    let first = receive-with_kind now peer room frame s (rw b refl) e in
                    subst (λ (t : Server × List Effect). t ≡ (u, []))
                      (receive-with_kind now' peer room' frame u d e)
                      (subst
                        (λ (t : Server × List Effect).
                          with_kind decode utf8 now' id peer room' frame frame.kind frame.sequence
                            (after between t.0)
                          ≡ (after between t.0, []))
                        first
                        (after-with_kind now now' id peer room room' frame frame.kind frame.sequence
                          between s c o
                          (subst (λ (t : Server × List Effect). IsSound t.0) (sym first) sound)))
              ]
      ]
