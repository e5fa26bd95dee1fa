-- ===== src/Fleet/Order.antt =====
-- src/fleet-convergence.js: the rule for two secrets of one index, as a contest between machines.
use git_pigeon.Prelude.{◌≡◌, refl, ap, Bool, true, false, not, Option, none, some, arith}
use git_pigeon.Prelude.Text.{
  Text, text_eq_refl, text_eq→eq, text_eq_comm, text_lt, text_lt-asymm, text_lt-total,
  text_lt_trans,
}
use git_pigeon.Prelude.Instant.{ℤ}
use git_pigeon.Prelude.Choice.{IsContest, keyed-IsContest}
use git_pigeon.Fleet.{
  Facts, Winner, here, there, truthy, or_empty, same_text, rekeyed, announced, is_here,
}

pub same_text_comm : (a b : Option Text) → same_text a b ≡ same_text b a
unfolding same_text
same_text_comm none none = refl
same_text_comm none (some t) = refl
same_text_comm (some s) none = refl
same_text_comm (some s) (some t) = text_eq_comm s t

pub same_text→eq : (a b : Option Text) → same_text a b ≡ true → a ≡ b
unfolding same_text
same_text→eq none none h = refl
same_text→eq none (some t) h = cc
same_text→eq (some s) none h = cc
same_text→eq (some s) (some t) h = ap some (text_eq→eq s t h)

pub same_text_refl : (a : Option Text) → same_text a a ≡ true
unfolding same_text
same_text_refl none = refl
same_text_refl (some s) = text_eq_refl s

-- Different secrets that are both there have an order, one way only.
order_total :
    (a b : Option Text)
    → truthy a ≡ true
    → truthy b ≡ true
    → same_text a b ≡ false
    → text_lt (or_empty b) (or_empty a) ≡ not (text_lt (or_empty a) (or_empty b))
unfolding same_text truthy or_empty
order_total none b h k d = cc
order_total (some s) none h k d = cc
order_total (some s) (some t) h k d = ground (arith, text_lt-asymm s t, text_lt-total s t)

pub announced-secret : (f : Facts) → announced (some f) ≡ true → truthy f.secret_fingerprint ≡ true
announced-secret f h = ground arith

abbrev pub other : Winner → Winner
other here = there
other there = here

-- A machine of the fleet of index `i`, whose other facts are those that go with its secret.
pub record IsMember (i : Text) (canon : Text → Facts) (f : Facts) : Type 0 where
  pub index : f.index_id ≡ some i
  pub announces : announced (some f) ≡ true
  pub canonical : canon (or_empty f.secret_fingerprint) ≡ f

module _ (date_parse : Text → Option ℤ) where
  -- `rekeyed` as a test: the first keeps its index.
  unfoldable pub wins : Facts → Facts → Bool
  wins a b = is_here (rekeyed date_parse a b)

  pub rekeyed-other :
      (a b : Facts)
      → truthy a.secret_fingerprint ≡ true
      → truthy b.secret_fingerprint ≡ true
      → same_text a.secret_fingerprint b.secret_fingerprint ≡ false
      → (rekeyed date_parse b a).winner ≡ other (rekeyed date_parse a b).winner
  unfolding rekeyed
  rekeyed-other a b ha hb d = ground (
    arith,
    same_text_comm a.secret_fingerprint b.secret_fingerprint,
    order_total a.secret_fingerprint b.secret_fingerprint ha hb d,
  )

  pub wins-not :
      (a b : Facts)
      → truthy a.secret_fingerprint ≡ true
      → truthy b.secret_fingerprint ≡ true
      → same_text a.secret_fingerprint b.secret_fingerprint ≡ false
      → wins b a ≡ not (wins a b)
  unfolding wins
  wins-not a b ha hb d = ground (arith, rekeyed-other a b ha hb d)

  wins_same :
      (a b : Facts) → same_text a.secret_fingerprint b.secret_fingerprint ≡ true → wins a b ≡ true
  unfolding wins rekeyed
  wins_same a b e = ground arith

  pub wins_trans :
      (a b c : Facts)
      → same_text a.secret_fingerprint b.secret_fingerprint ≡ false
      → same_text b.secret_fingerprint c.secret_fingerprint ≡ false
      → wins a b ≡ true
      → wins b c ≡ true
      → wins a c ≡ true
  unfolding wins rekeyed
  wins_trans a b c d e h k = ground (
    arith,
    text_lt_trans (or_empty c.secret_fingerprint) (or_empty b.secret_fingerprint)
        (or_empty a.secret_fingerprint),
  )

  same-eq :
      (i : Text) (canon : Text → Facts) (a b : Facts)
      → IsMember i canon a
      → IsMember i canon b
      → same_text a.secret_fingerprint b.secret_fingerprint ≡ true
      → a ≡ b
  same-eq i canon a b ha hb e = cc (
    ha.canonical,
    hb.canonical,
    ap or_empty (same_text→eq a.secret_fingerprint b.secret_fingerprint e),
  )

  pub IsMember-IsContest : (i : Text) (canon : Text → Facts) → IsContest (IsMember i canon) wins
  IsMember-IsContest i canon =
      keyed-IsContest wins (λ a b. same_text a.secret_fingerprint b.secret_fingerprint)
        (same-eq i canon)
        (λ a b ha hb.
          wins-not a b (announced-secret a ha.announces) (announced-secret b hb.announces))
        wins_trans
