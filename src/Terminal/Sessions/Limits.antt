-- ===== src/Terminal/Sessions/Limits.antt =====
-- src/terminal-server.js: MAX_SESSIONS, and one session of each browser.
pub mod Opens
pub mod Calm
use git_pigeon.Prelude.{
  ℕ, zero, suc, ◌+◌, ◌≤◌, Bool, true, false, not, ◌||◌, ◌&&◌, Option, none, some, is_some, List, [],
  ◌∷◌, ◌++◌, length, length-append, filter, map, if◌then◌else◌, Bool-cases, Option-cases, if-cases,
  ◌≡◌, refl, sym, ap, ◌∙◌, inl, inr, arith,
}
use mathlib.Core.Path.{subst}
use git_pigeon.Prelude.Assoc.{
  Assoc, get, put, remove, remove_if, get-put, get-put_self, get-remove_if,
}
use git_pigeon.Prelude.Members.{is_unique}
use git_pigeon.Prelude.Text.{Text, text_eq, text_eq_refl, text_eq→eq, text_eq_comm, contains}
use git_pigeon.Terminal.Sessions.{
  Session, OpenRequest, Flight, awaiting, answering, Server, Effect, close_sessions, close_session,
  max_sessions,
}

unfoldable pub peers : Assoc Session → List Text
peers [] = []
peers ((id, t) ∷ m) = t.peer_id ∷ peers m

-- The browsers whose shell is still to come.
unfoldable pub waiting_peers : Assoc Flight → List Text
waiting_peers [] = []
waiting_peers ((id, awaiting r) ∷ m) = r.peer_id ∷ waiting_peers m
waiting_peers ((id, answering line) ∷ m) = waiting_peers m

-- The limits hold, the shells that are still to come included, and one open is under way at most.
pub record IsLimited (s : Server) : Type 0 where
  pub few : length (waiting_peers s.opening ++ peers s.sessions) ≤ max_sessions
  pub solo : is_unique (waiting_peers s.opening ++ peers s.sessions) ≡ true
  pub alone : length s.opening ≤ 1

filter-contains :
    (test : Text × Session → Bool) (p : Text) (m : Assoc Session)
    → contains p (peers m) ≡ false
    → contains p (peers (filter test m)) ≡ false
unfolding peers contains filter
filter-contains test p [] h = refl
filter-contains test p ((id, t) ∷ m) h = ground (arith, h, filter-contains test p m)

filter-is_unique :
    (test : Text × Session → Bool) (m : Assoc Session)
    → is_unique (peers m) ≡ true
    → is_unique (peers (filter test m)) ≡ true
unfolding peers is_unique filter
filter-is_unique test [] h = refl
filter-is_unique test ((id, t) ∷ m) h =
    ground (arith, h, filter-contains test t.peer_id m, filter-is_unique test m)

filter-few :
    (test : Text × Session → Bool) (m : Assoc Session)
    → length (peers (filter test m)) ≤ length (peers m)
unfolding peers filter
filter-few test [] = omega arith
filter-few test (e ∷ m) = ground (arith, filter-few test m)

pub filter-peers :
    (ws : List Text) (test : Text × Session → Bool) (m : Assoc Session)
    → length ws ≤ 1
    → is_unique (ws ++ peers m) ≡ true
    → (is_unique (ws ++ peers (filter test m)) ≡ true)
      × (length (ws ++ peers (filter test m)) ≤ length (ws ++ peers m))
unfolding is_unique
filter-peers [] test m l h = (filter-is_unique test m h, filter-few test m)
filter-peers (w ∷ []) test m l h = (
  ground (arith, h, filter-contains test w m, filter-is_unique test m),
  ground (arith, filter-few test m),
)
filter-peers (w ∷ v ∷ ws) test m l h = ground (arith, l)

-- A session that is replaced by one of the same browser leaves the browsers as they are.
pub put-peers :
    (id : Text) (t u : Session) (m : Assoc Session)
    → get id m ≡ some t
    → u.peer_id ≡ t.peer_id
    → peers (put id u m) ≡ peers m
unfolding peers put get
put-peers id t u [] h e = cc
put-peers id t u ((k, v) ∷ m) h e = elim (Bool-cases (text_eq k id)) [
  | inl q ↦ ground (arith, q, h, e)
  | inr q ↦ ground (arith, q, h, e, put-peers id t u m)
]

pub put_new-peers :
    (id : Text) (u : Session) (m : Assoc Session)
    → get id m ≡ none
    → peers (put id u m) ≡ peers m ++ (u.peer_id ∷ [])
unfolding peers put get
put_new-peers id u [] h = refl
put_new-peers id u ((k, v) ∷ m) h = elim (Bool-cases (text_eq k id)) [
  | inl q ↦ ground (arith, q, h)
  | inr q ↦ ground (arith, q, h, put_new-peers id u m)
]

pub others-contains :
    (p : Text) (m : Assoc Session)
    → contains p (peers (filter (λ e. not (text_eq e.1.peer_id p)) m)) ≡ false
unfolding peers contains filter
others-contains p [] = refl
others-contains p ((id, t) ∷ m) = ground (arith, others-contains p m, text_eq_comm t.peer_id p)

pub length-peers : (m : Assoc Session) → length (peers m) ≡ length m
unfolding peers
length-peers [] = refl
length-peers (e ∷ m) = ground (arith, length-peers m)

pub length-waiting_peers : (m : Assoc Flight) → length (waiting_peers m) ≤ length m
unfolding waiting_peers
length-waiting_peers [] = omega arith
length-waiting_peers ((id, awaiting r) ∷ m) = ground (arith, length-waiting_peers m)
length-waiting_peers ((id, answering line) ∷ m) = ground (arith, length-waiting_peers m)

-- Of at most one open, the one that is found is all.
pub get-single :
    (id : Text) (f : Flight) (m : Assoc Flight)
    → length m ≤ 1
    → get id m ≡ some f
    → (k : Text) × (text_eq k id ≡ true) × (m ≡ (k, f) ∷ [])
unfolding get
get-single id f [] l h = cc
get-single id f ((k, g) ∷ []) l h = elim (Bool-cases (text_eq k id)) [
  | inl e ↦ (k, e, ap (λ (g : Flight). (k, g) ∷ []) (ground (arith, e, h)))
  | inr e ↦ ground (arith, e, h)
]
get-single id f (a ∷ b ∷ m) l h = ground (arith, l)
