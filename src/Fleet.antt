-- ===== src/Fleet.antt =====
-- src/fleet-convergence.js: which index two machines settle on, and which of them hands over its
-- own. Both machines run it on the same pair of facts, each with itself as `local`.
pub mod Order
pub mod Agreement
pub mod Offers
use git_pigeon.Prelude.{
  ℕ, Bool, true, false, not, ◌&&◌, ◌||◌, Option, none, some, List, [], ltb, if◌then◌else◌,
}
use git_pigeon.Prelude.Text.{Text, text_eq, text_lt, is_empty, text_eq→eq}
use git_pigeon.Prelude.Instant.{ℤ, pos, ltb_ℤ, eqb_ℤ}

-- What a machine announces of its index. A missing field is `none`.
pub record Facts : Type 0 where
  pub index_id : Option Text
  pub secret_fingerprint : Option Text
  pub entries : ℕ
  pub pairing_complete : Bool
  pub secret_set_at : Option Text

pub data Winner : Type 0 where
  here there : Winner

pub data Reason : Type 0 where
  no_remote no_local different_index joining_index same_secret : Reason
  browser_paired newer_secret tie_break : Reason

pub record Decision : Type 0 where
  pub winner : Winner
  pub reason : Reason

unfoldable pub truthy : Option Text → Bool
truthy none = false
truthy (some s) = not (is_empty s)

unfoldable pub or_empty : Option Text → Text
or_empty none = []
or_empty (some s) = s

unfoldable pub same_text : Option Text → Option Text → Bool
same_text none none = true
same_text none (some t) = false
same_text (some s) none = false
same_text (some s) (some t) = text_eq s t

-- Both the index and the secret are there.
abbrev pub announced : Option Facts → Bool
announced none = false
announced (some f) = truthy f.index_id && truthy f.secret_fingerprint

abbrev pub is_here : Decision → Bool
is_here d = elim d.winner [ here ↦ true | there ↦ false ]

-- `Date.parse`, whose reading of a text is the JavaScript engine's; `none` is NaN.
module _ (date_parse : Text → Option ℤ) where
  -- `Date.parse(String(at ?? '')) || 0`
  unfoldable pub set_at : Option Text → ℤ
  set_at at = elim (date_parse (or_empty at)) [ none ↦ pos 0 | some t ↦ t ]

  -- Two machines on one index whose secrets may differ.
  unfoldable pub rekeyed : Facts → Facts → Decision
  rekeyed local remote =
      if same_text local.secret_fingerprint remote.secret_fingerprint
      then record { winner = here; reason = same_secret }
      else if local.pairing_complete && not remote.pairing_complete
      then record { winner = here; reason = browser_paired }
      else if not local.pairing_complete && remote.pairing_complete
      then record { winner = there; reason = browser_paired }
      else if not (eqb_ℤ (set_at local.secret_set_at) (set_at remote.secret_set_at))
      then (if ltb_ℤ (set_at remote.secret_set_at) (set_at local.secret_set_at)
          then record { winner = here; reason = newer_secret }
          else record { winner = there; reason = newer_secret })
      else if text_lt (or_empty remote.secret_fingerprint) (or_empty local.secret_fingerprint)
      then record { winner = here; reason = tie_break }
      else record { winner = there; reason = tie_break }

  -- Both machines have announced an index and a secret.
  unfoldable pub both_announced : Facts → Facts → Decision
  unfolding rekeyed
  both_announced local remote =
      if not (same_text local.index_id remote.index_id)
      then (if ltb 0 local.entries
          then record { winner = here; reason = different_index }
          else record { winner = there; reason = joining_index })
      else rekeyed local remote

  unfoldable pub preferred_fleet_index : Option Facts → Option Facts → Decision
  unfolding both_announced truthy
  preferred_fleet_index local none = record { winner = here; reason = no_remote }
  preferred_fleet_index none (some remote) =
      if announced (some remote)
      then record { winner = there; reason = no_local }
      else record { winner = here; reason = no_remote }
  preferred_fleet_index (some local) (some remote) =
      if not (announced (some remote))
      then record { winner = here; reason = no_remote }
      else if not (announced (some local))
      then record { winner = there; reason = no_local }
      else both_announced local remote

  -- `none` is the TypeError of reading `local.indexId` where there is no `local`.
  unfoldable pub should_offer_index_to_peer : Option Facts → Option Facts → Option Bool
  unfolding preferred_fleet_index truthy
  should_offer_index_to_peer local none = some false
  should_offer_index_to_peer none (some remote) =
      if truthy remote.secret_fingerprint && is_here (preferred_fleet_index none (some remote))
      then none
      else some false
  should_offer_index_to_peer (some local) (some remote) =
      if not (truthy remote.secret_fingerprint)
        || same_text local.secret_fingerprint remote.secret_fingerprint
      then some false
      else some (
          is_here (preferred_fleet_index (some local) (some remote))
          && (same_text local.index_id remote.index_id || not (ltb 0 remote.entries)))
