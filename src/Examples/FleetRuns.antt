-- ===== src/Examples/FleetRuns.antt =====
-- Three machines of one fleet, by src/fleet-convergence.js.
use mathlib.Core.List.Perm
use git_pigeon.Prelude.{◌≡◌, refl, Bool, true, false, Option, some, [], ◌∷◌, length, if◌then◌else◌}
use git_pigeon.Prelude.Text.{Text, text, text_eq, is_empty}
use git_pigeon.Prelude.Instant.{ℤ, pos}
use git_pigeon.Prelude.Choice.{settle}
use git_pigeon.Fleet.{
  Facts, truthy, or_empty, same_text, preferred_fleet_index, should_offer_index_to_peer,
}
use git_pigeon.Fleet.Order.{other, IsMember}
use git_pigeon.Fleet.Agreement.{preferred-other, meet, settle-perm_fleet}
use git_pigeon.Fleet.Offers.{offers-exclusive}

-- A stand-in for `Date.parse`.
abbrev parse : Text → Option ℤ
parse t = some (pos (length t))

abbrev machine : Text → Bool → Text → Facts
machine secret paired at = record {
  index_id = some (text "fleet");
  secret_fingerprint = some secret;
  entries = 1;
  pairing_complete = paired;
  secret_set_at = some at;
}

abbrev laptop : Facts
laptop = machine (text "a") true (text "1")

abbrev mini : Facts
mini = machine (text "b") false (text "22")

abbrev desk : Facts
desk = machine (text "c") false (text "1")

abbrev facts_of : Text → Facts
facts_of s = if text_eq s (text "a") then laptop else if text_eq s (text "b") then mini else desk

IsMember-laptop : IsMember (text "fleet") facts_of laptop
unfolding truthy is_empty or_empty text_eq
IsMember-laptop = record { index = refl; announces = refl; canonical = refl }

IsMember-mini : IsMember (text "fleet") facts_of mini
unfolding truthy is_empty or_empty text_eq
IsMember-mini = record { index = refl; announces = refl; canonical = refl }

IsMember-desk : IsMember (text "fleet") facts_of desk
unfolding truthy is_empty or_empty text_eq
IsMember-desk = record { index = refl; announces = refl; canonical = refl }

preferred-other_example :
    (preferred_fleet_index parse (some mini) (some laptop)).winner
    ≡ other (preferred_fleet_index parse (some laptop) (some mini)).winner
unfolding truthy is_empty same_text text_eq
preferred-other_example = preferred-other parse laptop mini refl refl refl refl

settle-perm_fleet_example :
    settle (meet parse) laptop (mini ∷ desk ∷ []) ≡ settle (meet parse) laptop (desk ∷ mini ∷ [])
settle-perm_fleet_example =
    settle-perm_fleet parse (text "fleet") facts_of laptop (mini ∷ desk ∷ []) (desk ∷ mini ∷ [])
      (Perm.swap desk mini []) IsMember-laptop (IsMember-mini, (IsMember-desk, tt))

offers-exclusive_example :
    ¬ (should_offer_index_to_peer parse (some mini) (some laptop) ≡ some true)
unfolding should_offer_index_to_peer or_empty truthy is_empty same_text text_eq
offers-exclusive_example = offers-exclusive parse laptop mini refl refl
