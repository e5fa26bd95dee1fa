-- ===== src/Terminal/Sessions/Limits/Opens.antt =====
-- src/terminal-server.js: the limits over the sessions, and over an open from its beginning to its reply.
use git_pigeon.Prelude.{
  ℕ, ◌≤◌, Bool, true, false, not, Option, none, some, List, [], ◌∷◌, ◌++◌, length, length-append,
  filter, Bool-cases, if-cases, ◌≡◌, refl, sym, inl, inr, arith, leb,
}
use mathlib.Core.Path.{subst}
use git_pigeon.Prelude.Assoc.{Assoc, get, put, remove, remove_if}
use git_pigeon.Prelude.Text.{Text, text_eq}
use git_pigeon.Terminal.Sessions.{
  Session, OpenRequest, Flight, awaiting, answering, Server, Effect, close_sessions,
}
use git_pigeon.Terminal.Output.{Stream, OutputFrame}
use git_pigeon.Terminal.Sessions.{Incoming, Chore, valid_roster, max_sessions}
use git_pigeon.Terminal.Sessions.Opening.{
  begin_open, admit, request_of, Spawned, failed, running, spawned_at, conclude, session_of,
  answered_at,
}
use git_pigeon.Terminal.Sessions.Serving.{take_turn, turn, kept}
use git_pigeon.Prelude.Members.{is_unique, is_unique-append_one}
use git_pigeon.Prelude.Text.{contains}
use git_pigeon.Terminal.Sessions.Shells.{IsApart, IsSound}
use git_pigeon.Terminal.Sessions.Limits.{
  peers, waiting_peers, IsLimited, filter-peers, put-peers, put_new-peers, others-contains,
  length-peers, length-waiting_peers, get-single,
}

pub filtered-IsLimited :
    (test : Text × Session → Bool) (s : Server)
    → IsLimited s
    → IsLimited (record s { sessions = filter test s.sessions })
filtered-IsLimited test s h =
    let l = length-waiting_peers s.opening in
    let (a, b) =
      filter-peers (waiting_peers s.opening) test s.sessions (omega (arith, h.alone, l)) h.solo in
    record { few = omega (arith, h.few, b); solo = a; alone = h.alone }

pub put-IsLimited :
    (id : Text) (t u : Session) (s : Server)
    → get id s.sessions ≡ some t
    → u.peer_id ≡ t.peer_id
    → IsLimited s
    → IsLimited (record s { sessions = put id u s.sessions })
put-IsLimited id t u s e p h =
    let q = sym (put-peers id t u s.sessions e p) in
    record {
      few =
          subst (λ (ps : List Text). length (waiting_peers s.opening ++ ps) ≤ max_sessions) q h.few;
      solo = subst (λ (ps : List Text). is_unique (waiting_peers s.opening ++ ps) ≡ true) q h.solo;
      alone = h.alone;
    }

pub without_first :
    (ws ps : List Text) → length ws ≤ 1 → is_unique (ws ++ ps) ≡ true → is_unique ps ≡ true
unfolding is_unique
without_first [] ps l h = h
without_first (w ∷ []) ps l h = ground (arith, h)
without_first (w ∷ v ∷ ws) ps l h = ground (arith, l)

-- No shell is to come any more.
pub reopened-IsLimited :
    (m : Assoc Flight) (s : Server)
    → waiting_peers m ≡ []
    → length m ≤ 1
    → IsLimited s
    → IsLimited (record s { opening = m })
reopened-IsLimited m s e l h =
    let k = length-waiting_peers s.opening in
    let a = length-append (waiting_peers s.opening) (peers s.sessions) in
    record {
      few = rw e (omega (arith, h.few, a));
      solo = rw e (
          without_first (waiting_peers s.opening) (peers s.sessions) (omega (arith, k, h.alone))
            h.solo);
      alone = l;
    }

pub answering-IsLimited :
    (id : Text) (line : Option Text) (f : Flight) (s : Server)
    → get id s.opening ≡ some f
    → IsLimited s
    → (waiting_peers (put id (answering line) s.opening) ≡ [])
      × (length (put id (answering line) s.opening) ≤ 1)
unfolding waiting_peers put
answering-IsLimited id line f s e h =
    let (k, q, o) = get-single id f s.opening h.alone e in ground (arith, q, o)

pub launched-IsLimited :
    (now : ℕ) (id flavor : Text) (initialize : Option Text) (r : OpenRequest) (s : Server)
    → IsSound s
    → get id s.opening ≡ some (awaiting r)
    → IsLimited s
    → IsLimited (conclude now id (running flavor initialize) r s).0
launched-IsLimited now id flavor initialize r s d e h =
    let (k, q, o) = get-single id (awaiting r) s.opening h.alone e in
    let x : get id s.sessions ≡ none = unfold IsApart in d.apart id (ground (arith, e)) in
    let w : waiting_peers s.opening ≡ r.peer_id ∷ [] = unfold waiting_peers in rw o refl in
    let (a, b) = answering-IsLimited id initialize (awaiting r) s e h in
    let v : waiting_peers (put id (answering initialize) s.opening) ≡ [] = a in
    let u : is_unique (r.peer_id ∷ peers s.sessions) ≡ true =
      subst (λ (ws : List Text). is_unique (ws ++ peers s.sessions) ≡ true) w h.solo in
    let n : length (r.peer_id ∷ peers s.sessions) ≤ max_sessions =
      subst (λ (ws : List Text). length (ws ++ peers s.sessions) ≤ max_sessions) w h.few in
    let z = put_new-peers id (session_of now flavor r) s.sessions x in
    record {
      few = rw (v, z) (omega (arith, n, length-append (peers s.sessions) (r.peer_id ∷ [])));
      solo =
          rw (v, z)
            (unfold is_unique in
              is_unique-append_one r.peer_id (peers s.sessions) (ground (arith, u))
                (ground (arith, u)));
      alone = b;
    }

pub spawned_at-IsLimited :
    (now : ℕ) (id : Text) (outcome : Spawned) (s : Server) (o : Option Flight)
    → IsSound s
    → get id s.opening ≡ o
    → IsLimited s
    → IsLimited (spawned_at now id outcome o s).0
spawned_at-IsLimited now id outcome s none d e h = h
spawned_at-IsLimited now id outcome s (some (answering line)) d e h = h
spawned_at-IsLimited now id (failed message) s (some (awaiting r)) d e h =
    let (a, b) = answering-IsLimited id none (awaiting r) s e h in
    let k = reopened-IsLimited _ s a b h in record { few = k.few; solo = k.solo; alone = k.alone }
spawned_at-IsLimited now id (running flavor initialize) s (some (awaiting r)) d e h =
    launched-IsLimited now id flavor initialize r s d e h

pub removed-IsLimited :
    (id : Text) (f : Flight) (s : Server)
    → get id s.opening ≡ some f
    → IsLimited s
    → IsLimited (record s { opening = remove id s.opening })
removed-IsLimited id f s e h =
    let (k, q, o) = get-single id f s.opening h.alone e in
    let z : remove id s.opening ≡ [] = unfold remove remove_if filter in rw (o, q) refl in
    reopened-IsLimited (remove id s.opening) s (unfold waiting_peers in rw z refl)
      (rw z (omega arith)) h

pub answered_at-IsLimited :
    (id : Text) (sent : Bool) (s : Server) (o : Option Flight)
    → get id s.opening ≡ o
    → IsLimited s
    → IsLimited (answered_at id sent o s).0
answered_at-IsLimited id sent s none e h = h
answered_at-IsLimited id sent s (some (awaiting r)) e h = h
answered_at-IsLimited id sent s (some (answering none)) e h = removed-IsLimited id _ s e h
answered_at-IsLimited id sent s (some (answering (some line))) e h = removed-IsLimited id _ s e h

pub turn-IsLimited :
    (id : Text) (found : Option Text) (t : Session) (jobs : List Chore) (s : Server)
    → get id s.sessions ≡ some t
    → IsLimited s
    → IsLimited (turn id found t jobs s).0
turn-IsLimited id found t [] s e h = h
turn-IsLimited id found t (job ∷ jobs) s e h = put-IsLimited id t _ s e refl h

pub take_turn-IsLimited :
    (id : Text) (found : Option Text) (s : Server) (o : Option Session)
    → get id s.sessions ≡ o
    → IsLimited s
    → IsLimited (take_turn id found o s).0
take_turn-IsLimited id found s none e h = h
take_turn-IsLimited id found s (some t) e h = turn-IsLimited id found t t.pending s e h

pub kept-IsLimited :
    (id : Text) (t : Session) (stream : Stream) (frames : List OutputFrame) (s : Server)
    → get id s.sessions ≡ some t
    → IsLimited s
    → IsLimited (kept id t (stream, frames) s).0
kept-IsLimited id t stream frames s e h =
    if-cases IsLimited stream.closed _ _
      (unfold remove remove_if in
        filtered-IsLimited (λ (e : Text × Session). not (text_eq e.0 id)) s h)
      (put-IsLimited id t _ s e refl h)

pub closed-IsLimited :
    (test : Session → Bool) (s : Server) → IsLimited s → IsLimited (close_sessions test s).0
unfolding close_sessions
closed-IsLimited test s h = filtered-IsLimited (λ (e : Text × Session). not (test e.1)) s h

pub first_refused-IsLimited :
    (id : Text) (s : Server)
    → s.opening ≡ []
    → IsLimited s
    → IsLimited (record s { opening = put id (answering none) s.opening })
first_refused-IsLimited id s o h =
    reopened-IsLimited (put id (answering none) s.opening) s (unfold waiting_peers put in rw o refl)
      (unfold put in rw o (omega arith)) h

pub first_launched-IsLimited :
    (id : Text) (r : OpenRequest) (s : Server)
    → s.opening ≡ []
    → IsLimited s
    → contains r.peer_id (peers s.sessions) ≡ false
    → leb max_sessions (length s.sessions) ≡ false
    → IsLimited (record s { opening = put id (awaiting r) s.opening })
first_launched-IsLimited id r s o h c l =
    let w : waiting_peers (put id (awaiting r) s.opening) ≡ r.peer_id ∷ [] =
      unfold waiting_peers put in rw o refl in
    let u : is_unique (peers s.sessions) ≡ true =
      without_first (waiting_peers s.opening) (peers s.sessions)
        (ground (arith, length-waiting_peers s.opening, h.alone)) h.solo in
    record {
      few = rw w (ground (arith, l, length-peers s.sessions));
      solo = rw w (unfold is_unique in ground (arith, c, u));
      alone = unfold put in rw o (omega arith);
    }

pub admit-IsLimited :
    (id peer room : Text) (sequence : ℕ) (frame : Incoming) (roster : Option (List Text))
    (q : Server × List Effect)
    → q.0.opening ≡ []
    → IsLimited q.0
    → contains peer (peers q.0.sessions) ≡ false
    → leb max_sessions (length q.0.sessions) ≡ false
    → IsLimited (admit id peer room sequence frame roster q).0
admit-IsLimited id peer room sequence frame none (t, fs) o h c l = first_refused-IsLimited id t o h
admit-IsLimited id peer room sequence frame (some roster) (t, fs) o h c l =
    first_launched-IsLimited id (request_of peer room sequence frame roster) t o h c l

pub begin_open-IsLimited :
    (id peer room : Text) (sequence : ℕ) (frame : Incoming) (s : Server)
    → s.opening ≡ []
    → IsLimited s
    → IsLimited (begin_open id peer room sequence frame s).0
unfolding begin_open
begin_open-IsLimited id peer room sequence frame s o h =
    let test = λ (t : Session). text_eq t.peer_id peer in
    let q = close_sessions test s in
    let k = closed-IsLimited test s h in
    let c : contains peer (peers q.0.sessions) ≡ false =
      unfold close_sessions in others-contains peer s.sessions in
    let p : q.0.opening ≡ [] = unfold close_sessions in o in
    elim (Bool-cases (leb max_sessions (length q.0.sessions))) [
      | inl e ↦ rw e (first_refused-IsLimited id q.0 p k)
      | inr e ↦
          rw e (admit-IsLimited id peer room sequence frame (valid_roster frame.devices) q p k c e)
    ]
