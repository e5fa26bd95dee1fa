-- ===== src/Terminal/Sessions/Shells/Steps.antt =====
-- src/terminal-server.js: the shells of the server over each step of an open and of a session.
use git_pigeon.Prelude.{
  ℕ, Bool, not, Option, none, some, List, [], ◌∷◌, ◌++◌, length, map, Bool-cases, if-cases, ◌≡◌,
  refl, inl, inr, arith, leb, true, false,
}
use git_pigeon.Prelude.Assoc.{get, put, get-put, remove, get-remove_if}
use git_pigeon.Prelude.Tables.{get-filter, put-Distinct}
use git_pigeon.Prelude.Text.{Text, text_eq, text_eq_comm}
use git_pigeon.Terminal.Sessions.{
  Session, Flight, awaiting, answering, Server, Effect, streamed, killed, close_sessions,
}
use git_pigeon.Terminal.Output.{Stream, OutputFrame}
use git_pigeon.Terminal.Sessions.{
  Incoming, Chore, type_in, change_directory_to, valid_roster, max_sessions,
}
use git_pigeon.Terminal.Sessions.Opening.{
  begin_open, admit, Spawned, failed, running, spawned_at, session_of, answered_at,
}
use git_pigeon.Terminal.Sessions.Serving.{take_turn, turn, kept}
use git_pigeon.Terminal.Sessions.Shells.{
  IsApart, IsSound, is_some_same, is_start, is_kill, count, silent, Keeps, Keeps-stay,
  close_sessions-Keeps, removed-IsSound, put-Keeps, reopen-Keeps, answering-IsApart,
  awaiting-IsApart, removed-IsApart,
}

pub admit-Keeps :
    (id peer room : Text) (sequence : ℕ) (frame : Incoming) (roster : Option (List Text))
    (s : Server) (q : Server × List Effect)
    → Keeps s q
    → get id q.0.sessions ≡ none
    → Keeps s (admit id peer room sequence frame roster q)
unfolding silent
admit-Keeps id peer room sequence frame none s (t, fs) k e =
    reopen-Keeps s t fs _ _ k (answering-IsApart id none t k.sound.apart) refl
admit-Keeps id peer room sequence frame (some roster) s (t, fs) k e =
    reopen-Keeps s t fs _ _ k (awaiting-IsApart id _ t k.sound.apart e) refl

pub begin_open-Keeps :
    (id peer room : Text) (sequence : ℕ) (frame : Incoming) (s : Server)
    → IsSound s
    → get id s.sessions ≡ none
    → Keeps s (begin_open id peer room sequence frame s)
unfolding begin_open
begin_open-Keeps id peer room sequence frame s h e =
    let test = λ (t : Session). text_eq t.peer_id peer in
    let q = close_sessions test s in
    let k = close_sessions-Keeps s h test in
    if-cases (Keeps s) (leb max_sessions (length q.0.sessions)) _ _
      (unfold silent in
        reopen-Keeps s q.0 q.1 _ _ k (answering-IsApart id none q.0 k.sound.apart) refl)
      (admit-Keeps id peer room sequence frame (valid_roster frame.devices) s q k (
        unfold close_sessions in
        get-filter (λ (e : Text × Session). not (test e.1)) id s.sessions e))

-- The new shell is the only one of its id, and its open awaits no other.
pub launched-IsApart :
    (id : Text) (t : Session) (line : Option Text) (s : Server)
    → IsSound s
    → IsApart
        (record s { sessions = put id t s.sessions; opening = put id (answering line) s.opening })
unfolding IsApart
launched-IsApart id t line s h key a =
    ground (
      arith,
      a,
      h.apart key,
      get-put id key (answering line) s.opening,
      get-put id key t s.sessions,
    )

pub spawned_at-Keeps :
    (now : ℕ) (id : Text) (outcome : Spawned) (s : Server) (o : Option Flight)
    → IsSound s
    → get id s.opening ≡ o
    → Keeps s (spawned_at now id outcome o s)
spawned_at-Keeps now id outcome s none h e = Keeps-stay s h
spawned_at-Keeps now id outcome s (some (answering line)) h e = Keeps-stay s h
spawned_at-Keeps now id (failed message) s (some (awaiting r)) h e = record {
  sound = record {
    distinct = h.distinct;
    apart = unfold IsApart in answering-IsApart id none s h.apart;
  };
  balance = λ key. unfold count in refl;
}
spawned_at-Keeps now id (running flavor initialize) s (some (awaiting r)) h e =
    let x : get id s.sessions ≡ none = unfold IsApart in h.apart id (ground (arith, e)) in
    record {
      sound = record {
        distinct = put-Distinct id _ s.sessions h.distinct;
        apart = unfold IsApart in launched-IsApart id (session_of now flavor r) initialize s h;
      };
      balance = λ key.
          unfold count in
          ground (
            arith,
            x,
            get-put id key (session_of now flavor r) s.sessions,
            is_some_same s h key id,
          );
    }

pub answered_at-Keeps :
    (id : Text) (sent : Bool) (s : Server) (o : Option Flight)
    → IsSound s
    → Keeps s (answered_at id sent o s)
answered_at-Keeps id sent s none h = Keeps-stay s h
answered_at-Keeps id sent s (some (awaiting r)) h = Keeps-stay s h
answered_at-Keeps id sent s (some (answering none)) h =
    reopen-Keeps s s [] [] _ (Keeps-stay s h) (removed-IsApart id s h.apart) (unfold silent in refl)
answered_at-Keeps id sent s (some (answering (some line))) h =
    reopen-Keeps s s [] _ _ (Keeps-stay s h) (removed-IsApart id s h.apart)
      (unfold silent in ground arith)

pub turn-Keeps :
    (id : Text) (found : Option Text) (t : Session) (jobs : List Chore) (s : Server)
    → IsSound s
    → get id s.sessions ≡ some t
    → Keeps s (turn id found t jobs s)
turn-Keeps id found t [] s h e = Keeps-stay s h
turn-Keeps id found t (type_in input ∷ jobs) s h e =
    put-Keeps s h id t _ _ e (unfold silent in refl)
turn-Keeps id none t (change_directory_to wanted ∷ jobs) s h e =
    put-Keeps s h id t _ _ e (unfold silent in refl)
turn-Keeps id (some directory) t (change_directory_to wanted ∷ jobs) s h e =
    put-Keeps s h id t _ _ e (unfold silent in refl)

pub take_turn-Keeps :
    (id : Text) (found : Option Text) (s : Server) (o : Option Session)
    → IsSound s
    → get id s.sessions ≡ o
    → Keeps s (take_turn id found o s)
take_turn-Keeps id found s none h e = Keeps-stay s h
take_turn-Keeps id found s (some t) h e = turn-Keeps id found t t.pending s h e

pub silent-streamed :
    (id : Text) (fs : List OutputFrame) → silent (map (streamed id) fs ++ []) ≡ true
unfolding silent
silent-streamed id [] = refl
silent-streamed id (f ∷ fs) = silent-streamed id fs

streamed-killed :
    (test : Effect → Bool) (id : Text) (fs : List OutputFrame)
    → ((f : OutputFrame) → test (streamed id f) ≡ false)
    → count test (map (streamed id) fs ++ (killed id ∷ [])) ≡ count test (killed id ∷ [])
unfolding count
streamed-killed test id [] h = refl
streamed-killed test id (f ∷ fs) h = ground (arith, h f, streamed-killed test id fs h)

pub kept-Keeps :
    (id : Text) (t : Session) (stream : Stream) (frames : List OutputFrame) (s : Server)
    → IsSound s
    → get id s.sessions ≡ some t
    → Keeps s (kept id t (stream, frames) s)
kept-Keeps id t stream frames s h e = elim (Bool-cases stream.closed) [
  | inl c ↦ rw c record {
    sound = removed-IsSound s h id;
    balance = λ key.
        unfold count remove in
        ground (
          arith,
          e,
          streamed-killed (is_start key) id frames (λ f. refl),
          streamed-killed (is_kill key) id frames (λ f. refl),
          get-remove_if (λ k. text_eq k id) key s.sessions,
          is_some_same s h key id,
          text_eq_comm key id,
        );
  }
  | inr c ↦ simp c (
      put-Keeps s h id t (record t { stream = stream }) (map (streamed id) frames ++ []) e
        (silent-streamed id frames))
]

pub flag-Keeps : (b : Bool) (s : Server) → IsSound s → Keeps s (record s { is_started = b }, [])
flag-Keeps b s h = record {
  sound = record { distinct = h.distinct; apart = unfold IsApart in h.apart };
  balance = λ key. unfold count in refl;
}
