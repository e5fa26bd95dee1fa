-- ===== src/Peers/Pinning.antt =====
-- src/fleet-peers.js: what `fleetPeer` finds after pinning and forgetting.
use git_pigeon.Prelude.{
  ◌+◌, ◌-◌, ◌≤◌, ◌≡◌, refl, sym, ap, ◌∙◌, Bool, true, false, not, Option, none, some, List, [], ◌∷◌,
  ◌++◌, arith, drop, filter, length, length-append, length-drop, length-filter-le, if◌then◌else◌,
  Bool-cases, Option-cases, inl, inr, ◌==◌,
}
use git_pigeon.Prelude.Sorting.{length-sort_by}
use git_pigeon.Prelude.Text.{Text, text_eq, text_eq_refl, text_eq→eq, text_eq_comm, is_empty}
use git_pigeon.Prelude.Instant.{ℤ}
use git_pigeon.Peers.{
  Peer, max_peers, valid_peer, sorted, find_peer, fleet_peer, refresh, refreshed, added, pin_valid,
  pin_fleet_peer, forget_fleet_peer,
}

module _ (date_parse : Text → Option ℤ) (iso : ℤ → Text) where
  find : Text → List Peer → Option Peer
  find = find_peer date_parse iso

  length-sorted : (ps : List Peer) → length (sorted date_parse iso ps) ≡ length ps
  unfolding sorted
  length-sorted = length-sort_by _

  length-refresh : (p : Peer) (ps : List Peer) → length (refresh date_parse iso p ps) ≡ length ps
  unfolding refresh
  length-refresh p [] = refl
  length-refresh p (q ∷ qs) = ground (arith, length-refresh p qs)

  length-added-le : (p : Peer) (ps : List Peer) → length (added date_parse iso p ps) ≤ max_peers
  unfolding added
  length-added-le p ps =
      let n = length ps + 1 - max_peers in
      let all = sorted date_parse iso ps in
      omega (arith, length-append (drop n all) (p ∷ []), length-drop n all, length-sorted ps)

  length-pin_valid-le :
      (o : Option Peer) (p : Peer) (ps : List Peer)
      → length ps ≤ max_peers
      → length (pin_valid date_parse iso o p ps) ≤ max_peers
  length-pin_valid-le none p ps h = length-added-le p ps
  length-pin_valid-le (some q) p ps h = omega (arith, length-refresh p ps)

  find-append_one :
      (key : Text) (ps : List Peer) (p : Peer)
      → text_eq p.public_key key ≡ true
      → (q : Peer) × (find_peer date_parse iso key (ps ++ (p ∷ [])) ≡ some q)
        × (text_eq q.public_key key ≡ true)
  unfolding find_peer
  find-append_one key [] p h = (p, rw h refl, h)
  find-append_one key (x ∷ xs) p h = elim (Bool-cases (text_eq x.public_key key)) [
    | inl here ↦ (x, rw here refl, here)
    | inr other ↦ let rest = find-append_one key xs p h in (rest.0, rw other rest.1, rest.2)
  ]

  find-forget :
      (key : Text) (ps : List Peer)
      → find_peer date_parse iso key (filter (λ p. not (text_eq p.public_key key)) ps) ≡ none
  unfolding find_peer filter
  find-forget key [] = refl
  find-forget key (p ∷ ps) = ground (arith, find-forget key ps)

  same_key : (a key other : Text) → text_eq a key ≡ true → text_eq other key ≡ text_eq other a
  same_key a key other h = ap (λ t. text_eq other t) (sym (text_eq→eq a key h))

  -- The peers of other keys are still found.
  find-forget_other :
      (key other : Text) (ps : List Peer)
      → text_eq other key ≡ false
      → find_peer date_parse iso other (filter (λ p. not (text_eq p.public_key key)) ps)
        ≡ find_peer date_parse iso other ps
  unfolding find_peer filter
  find-forget_other key other [] h = refl
  find-forget_other key other (p ∷ ps) h = ground (
    arith,
    find-forget_other key other ps,
    same_key p.public_key key other,
    text_eq_comm p.public_key other,
  )

  filter_all :
      (test : Peer → Bool) (ps : List Peer)
      → length (filter test ps) ≡ length ps
      → filter test ps ≡ ps
  unfolding filter
  filter_all test [] h = refl
  filter_all test (p ∷ ps) h = elim (Bool-cases (test p)) [
    | inl kept ↦ rw kept (ap (◌∷◌ p) (filter_all test ps (ground arith)))
    | inr gone ↦ absurd (ground (arith, length-filter-le test ps))
  ]

  forget-filter :
      (key : Text) (ps : List Peer)
      → (forget_fleet_peer date_parse iso key ps).1
        ≡ filter (λ p. not (text_eq p.public_key key)) ps
  unfolding forget_fleet_peer
  forget-filter key ps =
      let kept = filter (λ p. not (text_eq p.public_key key)) ps in
      elim (Bool-cases (length kept == length ps)) [
        | inl all ↦
            rw all (sym (filter_all (λ p. not (text_eq p.public_key key)) ps (ground arith)))
        | inr some_gone ↦ rw some_gone refl
      ]

  -- A machine that is forgotten is found no more, and any other is found as before.
  pub fleet_peer-forget :
      (key other : Text) (ps : List Peer)
      → text_eq other key ≡ false
      → (fleet_peer date_parse iso key (forget_fleet_peer date_parse iso key ps).1 ≡ none)
        × (fleet_peer date_parse iso other (forget_fleet_peer date_parse iso key ps).1
            ≡ fleet_peer date_parse iso other ps)
  unfolding fleet_peer
  fleet_peer-forget key other ps h = rw (forget-filter key ps) (
    ground (arith, find-forget key ps),
    ap (λ o. if is_empty other then none else o) (find-forget_other key other ps h),
  )

  find-refresh :
      (pinned : Peer) (ps : List Peer) (e : Peer)
      → find_peer date_parse iso pinned.public_key ps ≡ some e
      → (q : Peer) × (find_peer date_parse iso pinned.public_key (refresh date_parse iso pinned ps)
          ≡ some q)
        × (text_eq q.public_key pinned.public_key ≡ true)
  unfolding find_peer refresh
  find-refresh pinned [] e h = absurd (ground arith)
  find-refresh pinned (p ∷ ps) e h = elim (Bool-cases (text_eq p.public_key pinned.public_key)) [
    | inl here ↦ (refreshed date_parse iso pinned p, ground arith, here)
    | inr other ↦
        let rest = find-refresh pinned ps e (ground arith) in (rest.0, ground arith, rest.2)
  ]

  find-pin_valid :
      (o : Option Peer) (pinned : Peer) (ps : List Peer)
      → find_peer date_parse iso pinned.public_key ps ≡ o
      → (q : Peer) × (find_peer date_parse iso pinned.public_key
            (pin_valid date_parse iso o pinned ps)
          ≡ some q)
        × (text_eq q.public_key pinned.public_key ≡ true)
  unfolding added
  find-pin_valid none pinned ps h =
      find-append_one pinned.public_key
        (drop (length ps + 1 - max_peers) (sorted date_parse iso ps)) pinned
        (text_eq_refl pinned.public_key)
  find-pin_valid (some e) pinned ps h = find-refresh pinned ps e h

  valid_key :
      (p pinned : Peer)
      → valid_peer date_parse iso p ≡ some pinned
      → (pinned.public_key ≡ p.public_key) × (is_empty p.public_key ≡ false)
  unfolding valid_peer
  valid_key p pinned h = ground arith

  -- A machine that is pinned is found under its key, whatever was pinned before, in the peers that are
  -- written; and they stay at most 64.
  pub fleet_peer-pin :
      (p : Peer) (ps : List Peer) (after : List Peer)
      → pin_fleet_peer date_parse iso p ps ≡ some after
      → length ps ≤ max_peers
      → (length after ≤ max_peers)
        × (q : Peer) × (fleet_peer date_parse iso p.public_key after ≡ some q)
        × (q.public_key ≡ p.public_key)
  unfolding pin_fleet_peer fleet_peer
  fleet_peer-pin p ps after h l = elim (Option-cases (valid_peer date_parse iso p)) [
    | inl e ↦ absurd (ground arith)
    | inr (pinned, e) ↦
        let o = find_peer date_parse iso pinned.public_key ps in
        let (q, found, same) = find-pin_valid o pinned ps refl in
        let (key, some_key) = valid_key p pinned e in
        let written : pin_valid date_parse iso o pinned ps ≡ after = ground arith in
        (
          rw (sym written) (length-pin_valid-le o pinned ps l),
          q,
          rw (some_key, sym key, sym written) found,
          text_eq→eq q.public_key pinned.public_key same ∙ key,
        )
  ]
