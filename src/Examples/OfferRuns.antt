-- ===== src/Examples/OfferRuns.antt =====
-- Offers of other machines, by src/peer-update.js.
use git_pigeon.Prelude.{◌≡◌, refl, true, false, none, some, [], ◌∷◌, filter, if◌then◌else◌}
use git_pigeon.Prelude.Text.{Text, text, text_eq}
use git_pigeon.Prelude.Assoc.{get, put}
use git_pigeon.Update.Version.{is_newer_version, safe_version, both_newer}
use git_pigeon.Update.Offers.{
  Heard, RawOffer, Mesh, Start, begun, no_route, started, receive_offer, fetch_newest_offered,
  fresh, candidates, note_unreachable,
}
use git_pigeon.Update.Offers.Newest.{MayTry, IsFirstChoice, fetch_newest_offered-started}

abbrev raw : Text → RawOffer
raw version = record {
  version = version;
  sha256 = text "00112233445566778899aabbccddeeff00112233445566778899aabbccddeeff";
  platform = text "linux";
  arch = text "x64";
  size = some 9;
}

abbrev heard : Text → Text → Heard
heard peer_id version = record {
  peer_id = peer_id;
  version = version;
  sha256 = text "00112233445566778899aabbccddeeff00112233445566778899aabbccddeeff";
  size = 9;
  at = 7;
  unroutable_until = 0;
}

abbrev empty : Mesh
empty = record { offers = []; unreachable = none }

offer_heard :
    receive_offer
      (text "linux")
      (text "x64")
      (text "1.0.0")
      false
      7
      (text "mini")
      (raw (text "1.2.0"))
      empty
    ≡ (
      record {
        offers = (text "mini", heard (text "mini") (text "1.2.0")) ∷ [];
        unreachable = none;
      },
      true,
    )
unfolding receive_offer text_eq put is_newer_version get both_newer safe_version
offer_heard = refl

abbrev two_offers : Mesh
two_offers = record {
  offers =
      (text "mini", heard (text "mini") (text "1.2.0"))
      ∷ (text "desk", heard (text "desk") (text "1.3.0"))
      ∷ [];
  unreachable = none;
}

-- There is no route to the machine with the newest build.
abbrev attempt : Heard → Start
attempt h = if text_eq h.peer_id (text "desk") then no_route else begun

search_run :
    (fetch_newest_offered attempt true false (text "1.0.0") 9 two_offers).1
    ≡ started (heard (text "mini") (text "1.2.0"))
unfolding fetch_newest_offered text_eq filter is_newer_version both_newer safe_version
search_run = refl

fetch_newest_offered-started_example :
    MayTry (text "1.0.0") 9 (heard (text "mini") (text "1.2.0"))
    × IsFirstChoice attempt
        (heard (text "mini") (text "1.2.0"))
        (candidates (text "1.0.0") 9 (fresh 9 two_offers.offers))
fetch_newest_offered-started_example =
    fetch_newest_offered-started attempt true false (text "1.0.0") 9 two_offers
      (heard (text "mini") (text "1.2.0")) search_run

-- The release is used once the same version was out of reach for five minutes.
fallback_run :
    note_unreachable true 300009
      (heard (text "desk") (text "1.3.0") ∷ [])
      (some (record { version = text "1.3.0"; since = 9; reported = false }))
    ≡ (some (record { version = text "1.3.0"; since = 9; reported = true }), some (text "1.3.0"))
unfolding note_unreachable text_eq
fallback_run = refl
