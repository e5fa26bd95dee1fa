-- ===== src/Fleet/Offers.antt =====
-- src/fleet-convergence.js: which machine hands its index over.
use git_pigeon.Prelude.{◌≡◌, ◌||◌, sym, ◌∙◌, Bool, true, false, not, Option, some, arith}
use git_pigeon.Prelude.Text.{Text}
use git_pigeon.Prelude.Instant.{ℤ}
use git_pigeon.Fleet.{Facts, truthy, same_text, announced, should_offer_index_to_peer}
use git_pigeon.Fleet.Order.{same_text_comm, same_text_refl, announced-secret, wins, wins-not}

module _ (date_parse : Text → Option ℤ) where
  -- Between machines on one index, the offer is the decision.
  offer-eq-wins :
      (a b : Facts)
      → announced (some a) ≡ true
      → announced (some b) ≡ true
      → a.index_id ≡ b.index_id
      → same_text a.secret_fingerprint b.secret_fingerprint ≡ false
      → should_offer_index_to_peer date_parse (some a) (some b) ≡ some (wins date_parse a b)
  unfolding should_offer_index_to_peer wins
  offer-eq-wins a b ha hb e d =
      rw (d, ha, hb, e, same_text_refl, announced-secret b hb) (ground arith)

  -- Of two machines on one index under different secrets exactly one offers its own: the one does
  -- where the other does not.
  pub offer-other :
      (a b : Facts)
      → announced (some a) ≡ true
      → announced (some b) ≡ true
      → a.index_id ≡ b.index_id
      → same_text a.secret_fingerprint b.secret_fingerprint ≡ false
      → (x : Bool) × (should_offer_index_to_peer date_parse (some a) (some b) ≡ some x)
        × (should_offer_index_to_peer date_parse (some b) (some a) ≡ some (not x))
  offer-other a b ha hb e d = (
    wins date_parse a b,
    offer-eq-wins a b ha hb e d,
    rw (wins-not date_parse a b (announced-secret a ha) (announced-secret b hb) d) at (
        offer-eq-wins b a hb ha (sym e)
          (same_text_comm b.secret_fingerprint a.secret_fingerprint ∙ d)),
  )

  -- Two machines of which at least one names an index never both offer, whatever else they have
  -- announced: other indexes, no secret, or more repositories.
  pub offers-exclusive :
      (a b : Facts)
      → truthy a.index_id || truthy b.index_id ≡ true
      → should_offer_index_to_peer date_parse (some a) (some b) ≡ some true
      → ¬ (should_offer_index_to_peer date_parse (some b) (some a) ≡ some true)
  unfolding should_offer_index_to_peer wins
  offers-exclusive a b e h k = ground (
    arith,
    same_text_comm a.secret_fingerprint b.secret_fingerprint,
    same_text_comm a.index_id b.index_id,
    wins-not date_parse a b,
  )
