-- ===== src/Fleet/Agreement.antt =====
-- src/fleet-convergence.js: the two sides of a meeting reach the same answer, and the answers of
-- several meetings never run in a circle.
use mathlib.Core.List.{Perm}
use native.Mathlib.Nat.{ℕ_set}
use git_pigeon.Prelude.{
  ◌≡◌, refl, sym, ap, ◌∙◌, Bool, true, false, Option, some, List, All, arith, if◌then◌else◌,
}
use git_pigeon.Prelude.Text.{Text}
use git_pigeon.Prelude.Instant.{ℤ}
use git_pigeon.Prelude.Choice.{settle, settle-perm, IsContest, IsContest-IsChoice, IsContest-eq}
use git_pigeon.Fleet.{
  Facts, here, Decision, same_text, rekeyed, announced, preferred_fleet_index, is_here,
}
use git_pigeon.Fleet.Order.{
  same_text_refl, announced-secret, other, IsMember, wins, rekeyed-other, wins_trans,
  IsMember-IsContest,
}

is_here→eq : (d : Decision) → is_here d ≡ true → d.winner ≡ here
is_here→eq d h = ground arith

eq→is_here : (d : Decision) → d.winner ≡ here → is_here d ≡ true
eq→is_here d h = ground arith

module _ (date_parse : Text → Option ℤ) where
  -- What two machines that have announced one index decide: the rule for a secret that changed.
  pub preferred-eq-rekeyed :
      (a b : Facts)
      → announced (some a) ≡ true
      → announced (some b) ≡ true
      → a.index_id ≡ b.index_id
      → preferred_fleet_index date_parse (some a) (some b) ≡ rekeyed date_parse a b
  unfolding preferred_fleet_index
  preferred-eq-rekeyed a b ha hb e = rw (ha, hb, e, same_text_refl) refl

  -- Two machines that have announced one index under different secrets name the same machine: the
  -- one decides that the other's index wins exactly when the other decides that its own does.
  pub preferred-other :
      (a b : Facts)
      → announced (some a) ≡ true
      → announced (some b) ≡ true
      → a.index_id ≡ b.index_id
      → same_text a.secret_fingerprint b.secret_fingerprint ≡ false
      → (preferred_fleet_index date_parse (some b) (some a)).winner
        ≡ other (preferred_fleet_index date_parse (some a) (some b)).winner
  preferred-other a b ha hb e d =
      rw (preferred-eq-rekeyed a b ha hb e, preferred-eq-rekeyed b a hb ha (sym e))
        (rekeyed-other date_parse a b (announced-secret a ha) (announced-secret b hb) d)

  -- The decisions never run in a circle: where `a` keeps its own index against `b`, and `b` its own
  -- against `c`, all on one index and both times under different secrets, `a` keeps its own
  -- against `c`.
  pub preferred_trans :
      (a b c : Facts)
      → announced (some a) ≡ true
      → announced (some b) ≡ true
      → announced (some c) ≡ true
      → a.index_id ≡ b.index_id
      → b.index_id ≡ c.index_id
      → same_text a.secret_fingerprint b.secret_fingerprint ≡ false
      → same_text b.secret_fingerprint c.secret_fingerprint ≡ false
      → (preferred_fleet_index date_parse (some a) (some b)).winner ≡ here
      → (preferred_fleet_index date_parse (some b) (some c)).winner ≡ here
      → (preferred_fleet_index date_parse (some a) (some c)).winner ≡ here
  unfolding wins
  preferred_trans a b c ha hb hc e e' d d' h k = rw (preferred-eq-rekeyed a c ha hc (e ∙ e')) (
      is_here→eq (rekeyed date_parse a c) (
        wins_trans date_parse a b c d d'
          (eq→is_here (rekeyed date_parse a b) (rw (preferred-eq-rekeyed a b ha hb e) at h))
          (eq→is_here (rekeyed date_parse b c) (rw (preferred-eq-rekeyed b c hb hc e') at k))))

  -- A machine's decision to keep its own index.
  abbrev keeps : Facts → Facts → Bool
  keeps a b = is_here (preferred_fleet_index date_parse (some a) (some b))

  -- The facts that a machine goes by after a meeting: it moves to the other's index where that wins.
  abbrev pub meet : Facts → Facts → Facts
  meet a b = if is_here (preferred_fleet_index date_parse (some a) (some b)) then a else b

  IsMember-keeps : (i : Text) (canon : Text → Facts) → IsContest (IsMember i canon) keeps
  unfolding wins
  IsMember-keeps i canon =
      IsContest-eq keeps
        (λ a b ha hb.
          ap is_here (preferred-eq-rekeyed a b ha.announces hb.announces (ha.index ∙ sym hb.index)))
        (IsMember-IsContest date_parse i canon)

  Facts-set : IsSet Facts
  Facts-set = hlevel ℕ_set

  -- Whichever machines of one fleet a machine meets, and in whatever order, it ends on one index:
  -- the fleet being those that have announced index `i`, with one set of facts to a secret.
  pub settle-perm_fleet :
      (i : Text) (canon : Text → Facts) (a : Facts) (xs ys : List Facts)
      → Perm xs ys
      → IsMember i canon a
      → All (IsMember i canon) xs
      → settle meet a xs ≡ settle meet a ys
  settle-perm_fleet i canon a xs ys p ha h =
      settle-perm (IsContest-IsChoice (IsMember-keeps i canon)) Facts-set a p ha h
