-- ===== src/Update/Offers/Newest.antt =====
-- src/peer-update.js, `fetchNewestOffered`: the offer that a search ends with.
use git_pigeon.Prelude.{
  ℕ, ◌+◌, ◌≡◌, ◌⊎◌, inl, inr, refl, sym, ap, ◌∙◌, Bool, true, false, not, and_left, Option, none,
  some, List, [], ◌∷◌, arith, All, All-imp, map, filter, ltb, Bool-cases, not-true, All-filter,
  All-filter_test, All-map, All-both,
}
use mathlib.Core.Path.{subst}
use git_pigeon.Prelude.Text.{Text}
use git_pigeon.Prelude.Assoc.{Assoc}
use git_pigeon.Prelude.Result.{some_injective}
use git_pigeon.Prelude.Sorting.{insert_by, sort_by, All-insert_by, All-sort_by}
use git_pigeon.Update.Version.{Version, safe_version, newer_parts, both_newer, is_newer_version}
use git_pigeon.Update.Offers.{
  Heard, Start, begun, no_route, broken, Mesh, started, in_progress, nothing_newer,
  nobody_reachable, Unreachable, fresh, candidates, is_candidate, newer_first, entry_of, try_offers,
  remembered, fetch_newest_offered, offer_fresh_ms, search_among, after_tries, without_candidates,
  noted, note_unreachable, is_newer_than,
}

-- An offer that is newer than the version that runs: it has a version itself.
abbrev IsAbove : Text → Heard → Type 0
IsAbove current h = is_newer_version h.version current ≡ true

not_newer_trans :
    (a b c d : Option Version)
    → both_newer b d ≡ true
    → both_newer a b ≡ false
    → both_newer b c ≡ false
    → both_newer a c ≡ false
unfolding both_newer newer_parts
not_newer_trans none b c d n h k = refl
not_newer_trans (some u) none c d n h k = absurd (ground arith)
not_newer_trans (some u) (some v) none d n h k = refl
not_newer_trans (some u) (some v) (some w) d n h k = ground arith

newer_first_trans :
    (current : Text) (a b c : Heard)
    → IsAbove current b
    → newer_first a b ≡ false
    → newer_first b c ≡ false
    → newer_first a c ≡ false
unfolding is_newer_version
newer_first_trans current a b c n h k =
    not_newer_trans (safe_version a.version) (safe_version b.version) (safe_version c.version)
      (safe_version current) n h k

newer_first_asym : (a b : Heard) → newer_first a b ≡ true → newer_first b a ≡ false
unfolding is_newer_version both_newer newer_parts
newer_first_asym a b h = ground arith

newer_first_irrefl : (a : Heard) → newer_first a a ≡ false
newer_first_irrefl a = elim (Bool-cases (newer_first a a)) [
  | inl h ↦ newer_first_asym a a h
  | inr h ↦ h
]

-- No offer is newer than one before it.
abbrev IsSorted : List Heard → Type 0
IsSorted [] = Unit
IsSorted (h ∷ hs) = All (λ k. newer_first k h ≡ false) hs × IsSorted hs

insert_by-IsSorted :
    (current : Text) (x : Heard) (ys : List Heard)
    → IsAbove current x
    → All (IsAbove current) ys
    → IsSorted ys
    → IsSorted (insert_by newer_first x ys)
unfolding insert_by
insert_by-IsSorted current x [] n a s = (tt, tt)
insert_by-IsSorted current x (y ∷ ys) n a s = elim (Bool-cases (newer_first y x)) [
  | inl first ↦ rw first (
      (
        All-insert_by newer_first (λ k. newer_first k y ≡ false) x ys (newer_first_asym y x first)
            s.0,
        insert_by-IsSorted current x ys n a.1 s.1,
      ))
  | inr later ↦ rw later (
      (
        (
          later,
          All-imp (λ k. newer_first k y ≡ false) (λ k. newer_first k x ≡ false)
              (λ k h. newer_first_trans current k y x a.0 h later) ys s.0,
        ),
        s,
      ))
]

sort_by-IsSorted :
    (current : Text) (xs : List Heard)
    → All (IsAbove current) xs
    → IsSorted (sort_by newer_first xs)
unfolding sort_by
sort_by-IsSorted current [] a = tt
sort_by-IsSorted current (x ∷ xs) a =
    insert_by-IsSorted current x (sort_by newer_first xs) a.0
      (All-sort_by newer_first (IsAbove current) xs a.1) (sort_by-IsSorted current xs a.1)

-- An offer that may be tried: it is newer, there is a route as far as is known, and it was heard lately.
abbrev pub MayTry : Text → ℕ → Heard → Type 0
MayTry current now h =
    (is_candidate current now h ≡ true) × (ltb (h.at + offer_fresh_ms) now ≡ false)

fresh-recent :
    (now : ℕ) (offers : Assoc Heard)
    → All (λ h. ltb (h.at + offer_fresh_ms) now ≡ false) (map entry_of (fresh now offers))
unfolding fresh
fresh-recent now offers =
    All-map (λ h. ltb (h.at + offer_fresh_ms) now ≡ false) entry_of (fresh now offers)
      (All-imp (λ e. not (ltb (e.1.at + offer_fresh_ms) now) ≡ true)
        (λ e. ltb (e.1.at + offer_fresh_ms) now ≡ false)
        (λ e h. not-true (ltb (e.1.at + offer_fresh_ms) now) h) (fresh now offers)
        (All-filter_test (λ e. not (ltb (e.1.at + offer_fresh_ms) now)) offers))

filtered-MayTry :
    (current : Text) (now : ℕ) (offers : Assoc Heard)
    → All (MayTry current now) (filter (is_candidate current now) (map entry_of (fresh now offers)))
filtered-MayTry current now offers =
    let heard = map entry_of (fresh now offers) in
    let left = filter (is_candidate current now) heard in
    All-both (λ h. is_candidate current now h ≡ true) (λ h. ltb (h.at + offer_fresh_ms) now ≡ false)
      left (All-filter_test (is_candidate current now) heard)
      (All-filter (λ h. ltb (h.at + offer_fresh_ms) now ≡ false) (is_candidate current now) heard
        (fresh-recent now offers))

candidates-MayTry :
    (current : Text) (now : ℕ) (offers : Assoc Heard)
    → All (MayTry current now) (candidates current now (fresh now offers))
unfolding candidates
candidates-MayTry current now offers =
    All-sort_by newer_first (MayTry current now)
      (filter (is_candidate current now) (map entry_of (fresh now offers)))
      (filtered-MayTry current now offers)

candidates-IsSorted :
    (current : Text) (now : ℕ) (offers : Assoc Heard)
    → IsSorted (candidates current now (fresh now offers))
unfolding candidates
candidates-IsSorted current now offers =
    let left = filter (is_candidate current now) (map entry_of (fresh now offers)) in
    sort_by-IsSorted current left (
      All-imp (MayTry current now) (IsAbove current)
        (λ h m.
          and_left (is_newer_version h.version current) (not (ltb now h.unroutable_until)) m.0)
        left (filtered-MayTry current now offers))

-- `beginFetch` returned for the offer, and did not for any that is newer.
abbrev pub IsFirstChoice : (Heard → Start) → Heard → List Heard → Type 0
IsFirstChoice attempt h hs =
    (attempt h ≡ begun) × All (λ k. newer_first k h ≡ true → ¬ (attempt k ≡ begun)) hs

Start-cases : (s : Start) → (s ≡ begun) ⊎ ((s ≡ no_route) ⊎ (s ≡ broken))
Start-cases begun = inl refl
Start-cases no_route = inr (inl refl)
Start-cases broken = inr (inr refl)

no_route_ne : ¬ (no_route ≡ begun)
no_route_ne e = cc

broken_ne : ¬ (broken ≡ begun)
broken_ne e = cc

older_ne : (b : Bool) → b ≡ false → ¬ (b ≡ true)
older_ne b h k = cc

try_offers-chosen :
    (attempt : Heard → Start) (P : Heard → Type 0) (now : ℕ) (hs : List Heard)
    (offers : Assoc Heard) (h : Heard)
    → All P hs
    → IsSorted hs
    → (try_offers attempt now hs offers).1 ≡ some h
    → P h × IsFirstChoice attempt h hs
unfolding try_offers
try_offers-chosen attempt P now [] offers h p s e = absurd (ground arith)
try_offers-chosen attempt P now (x ∷ xs) offers h p s e = elim (Start-cases (attempt x)) [
  | inl started_here ↦
      let same : x ≡ h = some_injective (rw (started_here, try_offers) at e) in
      subst (λ y. P y × IsFirstChoice attempt y (x ∷ xs)) same
        ((
          p.0,
          (
            started_here,
            (
              (λ n. absurd (older_ne (newer_first x x) (newer_first_irrefl x) n)),
              All-imp (λ k. newer_first k x ≡ false)
                  (λ k. newer_first k x ≡ true → ¬ (attempt k ≡ begun))
                  (λ k o n. absurd (older_ne (newer_first k x) o n)) xs s.0,
            ),
          ),
        ))
  | inr (inl routeless) ↦
      let (q, (c, rest)) =
        try_offers-chosen attempt P now xs (remembered now x offers) h p.1 s.1
          (rw (routeless, try_offers) at e) in
      (q, (c, ((λ n b. no_route_ne (sym routeless ∙ b)), rest)))
  | inr (inr failed) ↦
      let (q, (c, rest)) =
        try_offers-chosen attempt P now xs offers h p.1 s.1 (rw (failed, try_offers) at e) in
      (q, (c, ((λ n b. broken_ne (sym failed ∙ b)), rest)))
]

started-injective : {h k : Heard} → started h ≡ started k → h ≡ k
started-injective {h = h} e =
    ap (λ s. elim s [ started j ↦ j | in_progress ↦ h | nothing_newer ↦ h | nobody_reachable ↦ h ])
      e

noted-unstarted :
    (offers : Assoc Heard) (n : Option Unreachable × Option Text) (h : Heard)
    → ¬ ((noted offers n).1 ≡ started h)
noted-unstarted offers (u, report) h e = cc

without_candidates-unstarted :
    (has_fallback : Bool) (now : ℕ) (offers : Assoc Heard) (u : Option Unreachable)
    (hs : List Heard) (h : Heard)
    → ¬ ((without_candidates has_fallback now offers u hs).1 ≡ started h)
without_candidates-unstarted has_fallback now offers u [] h e = cc
without_candidates-unstarted has_fallback now offers u (k ∷ hs) h e =
    noted-unstarted offers (note_unreachable has_fallback now (k ∷ hs) u) h e

after_tries-started :
    (has_fallback : Bool) (now : ℕ) (tried : List Heard) (u : Option Unreachable)
    (r : Assoc Heard × Option Heard) (h : Heard)
    → (after_tries has_fallback now tried u r).1 ≡ started h
    → r.1 ≡ some h
after_tries-started has_fallback now tried u (offers, some k) h e = ap some (started-injective e)
after_tries-started has_fallback now tried u (offers, none) h e =
    absurd (noted-unstarted offers (note_unreachable has_fallback now tried u) h e)

search_among-started :
    (attempt : Heard → Start) (has_fallback : Bool) (current : Text) (now : ℕ)
    (offers : Assoc Heard) (u : Option Unreachable) (hs : List Heard) (h : Heard)
    → (search_among attempt has_fallback current now offers u hs).1 ≡ started h
    → (try_offers attempt now hs offers).1 ≡ some h
search_among-started attempt has_fallback current now offers u [] h e = absurd (
    without_candidates-unstarted has_fallback now offers u
      (filter (is_newer_than current) (map entry_of offers)) h e)
search_among-started attempt has_fallback current now offers u (k ∷ hs) h e =
    after_tries-started has_fallback now (k ∷ hs) u (try_offers attempt now (k ∷ hs) offers) h e

-- The offer that a search ends with is of a newer version than the one that runs, was heard in the last
-- five minutes, and was not without a route in the last two; `beginFetch` returned for it, and did not
-- for any offer that may be tried and has a still newer version.
pub fetch_newest_offered-started :
    (attempt : Heard → Start) (has_fallback fetching : Bool) (current : Text) (now : ℕ)
    (mesh : Mesh) (h : Heard)
    → (fetch_newest_offered attempt has_fallback fetching current now mesh).1 ≡ started h
    → MayTry current now h
      × IsFirstChoice attempt h (candidates current now (fresh now mesh.offers))
unfolding fetch_newest_offered
fetch_newest_offered-started attempt has_fallback true current now mesh h e =
    absurd (in_progress_ne h e)
  where
    in_progress_ne : (h : Heard) → ¬ (in_progress ≡ started h)
    in_progress_ne h e = cc
fetch_newest_offered-started attempt has_fallback false current now mesh h e =
    let offers = fresh now mesh.offers in
    try_offers-chosen attempt (MayTry current now) now (candidates current now offers) offers h
      (candidates-MayTry current now mesh.offers) (candidates-IsSorted current now mesh.offers)
      (search_among-started attempt has_fallback current now offers mesh.unreachable
        (candidates current now offers) h e)
