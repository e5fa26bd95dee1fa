-- ===== src/Terminal/Sessions/Shells.antt =====
-- src/terminal-server.js: the shells that are started, and where each of them stays.
pub mod Steps
pub mod Kept
use git_pigeon.Prelude.{
  ℕ, zero, suc, ◌+◌, ◌≤◌, Bool, true, false, not, ◌||◌, Option, none, some, is_some, List, [], ◌∷◌,
  ◌++◌, length, length-append, filter, map, if◌then◌else◌, Bool-cases, Option-cases, if-cases, ◌≡◌,
  refl, sym, ap, ◌∙◌, inl, inr, arith,
}
use mathlib.Core.Path.{subst}
use git_pigeon.Prelude.Assoc.{
  Assoc, get, put, remove, remove_if, get-put, get-put_self, get-remove_if,
}
use git_pigeon.Prelude.Tables.{
  Distinct, get-filter, filter-Distinct, put-Distinct, length-put, length-filter-split,
  length-remove, remove-Distinct,
}
use git_pigeon.Prelude.Text.{Text, text_eq, text_eq_comm, text_eq→eq}
use git_pigeon.Terminal.Sessions.{
  Session, OpenRequest, Flight, awaiting, answering, Server, Effect, answered, streamed, resized,
  typed, started_shell, runs_shell, killed, close_sessions, close_session,
}

abbrev pub awaits : Option Flight → Bool
awaits none = false
awaits (some (awaiting r)) = true
awaits (some (answering line)) = false

-- No session is of the id of an open whose shell is still to come.
unfoldable pub IsApart : Server → Type 0
IsApart s = (id : Text) → awaits (get id s.opening) ≡ true → get id s.sessions ≡ none

pub record IsSound (s : Server) : Type 0 where
  pub distinct : Distinct s.sessions
  pub apart : IsApart s

unfoldable pub count : (Effect → Bool) → List Effect → ℕ
count test [] = 0
count test (e ∷ effects) = (if test e then 1 else 0) + count test effects

-- The shell of a session of the id was started.
abbrev pub is_start : Text → Effect → Bool
is_start id (runs_shell k) = text_eq k id
is_start id (killed k) = false
is_start id (answered k reply n) = false
is_start id (streamed k frame) = false
is_start id (resized k cols rows) = false
is_start id (typed k line) = false
is_start id (started_shell k r) = false

-- The shell of the session of the id was killed.
abbrev pub is_kill : Text → Effect → Bool
is_kill id (killed k) = text_eq k id
is_kill id (runs_shell k) = false
is_kill id (answered k reply n) = false
is_kill id (streamed k frame) = false
is_kill id (resized k cols rows) = false
is_kill id (typed k line) = false
is_kill id (started_shell k r) = false

-- No shell is started or killed.
unfoldable pub silent : List Effect → Bool
silent [] = true
silent (runs_shell k ∷ effects) = false
silent (killed k ∷ effects) = false
silent (answered k reply n ∷ effects) = silent effects
silent (streamed k frame ∷ effects) = silent effects
silent (resized k cols rows ∷ effects) = silent effects
silent (typed k line ∷ effects) = silent effects
silent (started_shell k r ∷ effects) = silent effects

pub count-append :
    (test : Effect → Bool) (xs ys : List Effect)
    → count test (xs ++ ys) ≡ count test xs + count test ys
unfolding count
count-append test [] ys = ground arith
count-append test (e ∷ xs) ys = ground (arith, count-append test xs ys)

pub count-silent :
    (id : Text) (fs : List Effect)
    → silent fs ≡ true
    → (count (is_start id) fs ≡ 0) × (count (is_kill id) fs ≡ 0)
unfolding silent count
count-silent id [] h = (refl, refl)
count-silent id (runs_shell k ∷ fs) h = cc
count-silent id (killed k ∷ fs) h = cc
count-silent id (answered k reply n ∷ fs) h = ground (arith, count-silent id fs h)
count-silent id (streamed k frame ∷ fs) h = ground (arith, count-silent id fs h)
count-silent id (resized k cols rows ∷ fs) h = ground (arith, count-silent id fs h)
count-silent id (typed k line ∷ fs) h = ground (arith, count-silent id fs h)
count-silent id (started_shell k r ∷ fs) h = ground (arith, count-silent id fs h)

-- How many shells the table has under an id.
abbrev pub live : Text → Server → ℕ
live id s = if is_some (get id s.sessions) then 1 else 0

-- A step keeps the table sound, and of each id the shells that were there or were started are those that are
-- there afterwards or were killed.
pub record Keeps (s : Server) (q : Server × List Effect) : Type 0 where
  pub sound : IsSound q.0
  pub balance :
      (id : Text) → live id s + count (is_start id) q.1 ≡ live id q.0 + count (is_kill id) q.1

pub Keeps-stay : (s : Server) → IsSound s → Keeps s (s, [])
unfolding count
Keeps-stay s h = record { sound = h; balance = λ id. refl }

pub Keeps-then :
    (s t u : Server) (fs : List Effect) → Keeps s (t, []) → Keeps t (u, fs) → Keeps s (u, fs)
unfolding count
Keeps-then s t u fs h k = record {
  sound = k.sound;
  balance = λ id. omega (arith, h.balance id, k.balance id);
}

starts-map : (id : Text) (m : Assoc Session) → count (is_start id) (map (λ e. killed e.0) m) ≡ 0
unfolding count
starts-map id [] = refl
starts-map id (e ∷ m) = ground (arith, starts-map id m)

-- Of those that a test parts from the others, each is killed.
kills-split :
    (test : Session → Bool) (id : Text) (m : Assoc Session)
    → Distinct m
    → (if is_some (get id m) then 1 else 0)
      ≡ (if is_some (get id (filter (λ e. not (test e.1)) m)) then 1 else 0)
        + count (is_kill id) (map (λ e. killed e.0) (filter (λ e. test e.1) m))
unfolding count get filter Distinct
kills-split test id [] h = ground arith
kills-split test id ((k, t) ∷ m) (h, d) =
    let ih = kills-split test id m d in
    elim (Bool-cases (text_eq k id)) [
      | inl e ↦
          let absent : get id m ≡ none = subst (λ j. get j m ≡ none) (text_eq→eq k id e) h in
          ground
            (arith, e, absent, get-filter (λ (e : Text × Session). not (test e.1)) id m absent, ih)
      | inr e ↦ ground (arith, e, ih)
    ]

-- What a server is told apart by: a smaller table, with nothing said of the opens.
fewer-IsApart :
    (s : Server) (m : Assoc Session)
    → IsApart s
    → ((id : Text) → get id s.sessions ≡ none → get id m ≡ none)
    → IsApart (record s { sessions = m })
unfolding IsApart
fewer-IsApart s m a f id h = f id (a id h)

module _ (s : Server) (h : IsSound s) where
  is_some_same :
      (key id : Text)
      → text_eq id key ≡ true
      → is_some (get key s.sessions) ≡ is_some (get id s.sessions)
  is_some_same key id e = ap (λ (k : Text). is_some (get k s.sessions)) (sym (text_eq→eq id key e))

  pub close_sessions-Keeps : (test : Session → Bool) → Keeps s (close_sessions test s)
  unfolding close_sessions
  close_sessions-Keeps test = record {
    sound = record {
      distinct = filter-Distinct (λ e. not (test e.1)) s.sessions h.distinct;
      apart = fewer-IsApart s _ h.apart (λ id. get-filter (λ e. not (test e.1)) id s.sessions);
    };
    balance = λ id. omega (
      arith,
      kills-split test id s.sessions h.distinct,
      starts-map id (filter (λ e. test e.1) s.sessions),
    );
  }

  removed-fewer :
      (id key : Text) → get key s.sessions ≡ none → get key (remove id s.sessions) ≡ none
  unfolding remove
  removed-fewer id key e = ground (arith, e, get-remove_if (λ k. text_eq k id) key s.sessions)

  pub removed-IsSound : (id : Text) → IsSound (record s { sessions = remove id s.sessions })
  removed-IsSound id = record {
    distinct = remove-Distinct id s.sessions h.distinct;
    apart = fewer-IsApart s _ h.apart (removed-fewer id);
  }

  pub close_session-Keeps : (id : Text) → Keeps s (close_session id s)
  unfolding close_session count
  close_session-Keeps id = record {
    sound = removed-IsSound id;
    balance = λ key.
        unfold remove in
        ground (
          arith,
          get-remove_if (λ k. text_eq k id) key s.sessions,
          is_some_same key id,
          text_eq_comm key id,
        );
  }

  put-fewer :
      (id : Text) (t u : Session)
      → get id s.sessions ≡ some t
      → (key : Text) → get key s.sessions ≡ none
      → get key (put id u s.sessions) ≡ none
  put-fewer id t u e key k = elim (Bool-cases (text_eq id key)) [
    | inl q ↦ ground (arith, e, k, subst (λ j. get j s.sessions ≡ some t) (text_eq→eq id key q) e)
    | inr q ↦ ground (arith, q, k, get-put id key u s.sessions)
  ]

  -- A session that is there is replaced, and no shell is killed.
  pub put-Keeps :
      (id : Text) (t u : Session) (fs : List Effect)
      → get id s.sessions ≡ some t
      → silent fs ≡ true
      → Keeps s (record s { sessions = put id u s.sessions }, fs)
  put-Keeps id t u fs e k = record {
    sound = record {
      distinct = put-Distinct id u s.sessions h.distinct;
      apart = fewer-IsApart s _ h.apart (put-fewer id t u e);
    };
    balance = λ key.
        ground (arith, count-silent key fs k, e, get-put id key u s.sessions, is_some_same key id);
  }

-- The opens change after a step, and no open is new that awaits a shell and has a session.
pub reopen-Keeps :
    (s t : Server) (fs gs : List Effect) (m : Assoc Flight)
    → Keeps s (t, fs)
    → IsApart (record t { opening = m })
    → silent gs ≡ true
    → Keeps s (record t { opening = m }, fs ++ gs)
reopen-Keeps s t fs gs m h a k = record {
  sound = record { distinct = h.sound.distinct; apart = a };
  balance = λ id. omega (
    arith,
    h.balance id,
    count-silent id gs k,
    count-append (is_start id) fs gs,
    count-append (is_kill id) fs gs,
  );
}

pub answering-IsApart :
    (id : Text) (line : Option Text) (s : Server)
    → IsApart s
    → IsApart (record s { opening = put id (answering line) s.opening })
unfolding IsApart
answering-IsApart id line s a key h =
    ground (arith, h, a key, get-put id key (answering line) s.opening)

pub awaiting-IsApart :
    (id : Text) (r : OpenRequest) (s : Server)
    → IsApart s
    → get id s.sessions ≡ none
    → IsApart (record s { opening = put id (awaiting r) s.opening })
unfolding IsApart
awaiting-IsApart id r s a e key h = elim (Bool-cases (text_eq id key)) [
  | inl q ↦ subst (λ j. get j s.sessions ≡ none) (text_eq→eq id key q) e
  | inr q ↦ ground (arith, q, h, a key, get-put id key (awaiting r) s.opening)
]

pub removed-IsApart :
    (id : Text) (s : Server) → IsApart s → IsApart (record s { opening = remove id s.opening })
unfolding IsApart remove
removed-IsApart id s a key h =
    ground (arith, h, a key, get-remove_if (λ k. text_eq k id) key s.opening)
