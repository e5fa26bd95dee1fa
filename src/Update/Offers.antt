-- ===== src/Update/Offers.antt =====
-- src/peer-update.js, the offers of other machines: the `offer` branch of `receive`, `freshOffers`,
-- `fetchNewestOffered` and `noteUnreachable`. Whether a fetch can be started from a peer is a parameter.
pub mod Newest
use git_pigeon.Prelude.{
  ℕ, ◌+◌, Bool, true, false, not, ◌&&◌, ◌||◌, Option, none, some, List, [], ◌∷◌, map, filter, leb,
  ltb, length, if◌then◌else◌,
}
use git_pigeon.Prelude.Text.{Text, text_eq, is_empty}
use git_pigeon.Prelude.Patterns.{is_hex, is_digit}
use git_pigeon.Prelude.Assoc.{Assoc, get, put, remove_if}
use git_pigeon.Prelude.Sorting.{sort_by}
use git_pigeon.Update.Version.{safe_version, is_newer_version, dotted_part, last_part}

abbrev pub offer_fresh_ms : ℕ
offer_fresh_ms = 300000

abbrev pub unroutable_memory_ms : ℕ
unroutable_memory_ms = 120000

abbrev pub unreachable_offer_grace_ms : ℕ
unreachable_offer_grace_ms = 300000

abbrev pub max_offered_bytes : ℕ
max_offered_bytes = 536870912

-- A message of the kind `offer`; `size` is `none` where it is no natural number.
pub record RawOffer : Type 0 where
  pub version : Text
  pub sha256 : Text
  pub platform : Text
  pub arch : Text
  pub size : Option ℕ

-- An offer that was heard. `unroutable_until` is 0 where there is a route.
pub record Heard : Type 0 where
  pub peer_id : Text
  pub version : Text
  pub sha256 : Text
  pub size : ℕ
  pub at : ℕ
  pub unroutable_until : ℕ

pub record Unreachable : Type 0 where
  pub version : Text
  pub since : ℕ
  pub reported : Bool

pub record Mesh : Type 0 where
  -- The offers, by peer.
  pub offers : Assoc Heard
  pub unreachable : Option Unreachable

-- How `beginFetch` ends: it returns, there is no route, or something else is thrown.
pub data Start : Type 0 where
  begun no_route broken : Start

pub data Search : Type 0 where
  in_progress nothing_newer nobody_reachable : Search
  started : Heard → Search

-- `/^\d+\.\d+\.\d+$/`
unfoldable pub is_version : Text → Bool
unfolding dotted_part last_part
is_version s = ends_well (dotted_part s)
  where
    is_last : Option ℕ → Bool
    is_last none = false
    is_last (some n) = true

    ends_last : Option (ℕ × Text) → Bool
    ends_last none = false
    ends_last (some (n, rest)) = is_last (last_part rest)

    ends_well : Option (ℕ × Text) → Bool
    ends_well none = false
    ends_well (some (n, rest)) = ends_last (dotted_part rest)

abbrev pub until_of : Option Heard → ℕ
until_of none = 0
until_of (some h) = h.unroutable_until

abbrev pub heard_of : Text → ℕ → RawOffer → ℕ → ℕ → Heard
heard_of peer_id now raw size unroutable_until = record {
  peer_id = peer_id;
  version = raw.version;
  sha256 = raw.sha256;
  size = size;
  at = now;
  unroutable_until = unroutable_until;
}

abbrev pub is_offer_size : ℕ → Bool
is_offer_size n = leb 1 n && leb n max_offered_bytes

abbrev is_valid_size : Option ℕ → Bool
is_valid_size none = false
is_valid_size (some n) = is_offer_size n

unfoldable pub is_valid_offer : Text → Text → RawOffer → Bool
unfolding is_version is_hex
is_valid_offer platform arch raw =
    is_version raw.version
    && is_hex 64 raw.sha256
    && text_eq raw.platform platform
    && text_eq raw.arch arch
    && is_valid_size raw.size

abbrev pub or_zero : Option ℕ → ℕ
or_zero none = 0
or_zero (some n) = n

-- The `offer` branch of `receive`, and whether a search for a build is started.
unfoldable pub receive_offer : Text → Text → Text → Bool → ℕ → Text → RawOffer → Mesh → Mesh × Bool
unfolding is_valid_offer
receive_offer platform arch current fetching now peer_id raw mesh =
    if not (is_valid_offer platform arch raw) then (mesh, false) else (
      record mesh {
        offers =
            put peer_id
              (heard_of peer_id now raw (or_zero raw.size) (until_of (get peer_id mesh.offers)))
              mesh.offers;
      },
      is_newer_version raw.version current && not fetching,
    )

abbrev pub entry_of : Text × Heard → Heard
entry_of e = e.1

-- `freshOffers`: the offers that are left, which are also those that it returns.
unfoldable pub fresh : ℕ → Assoc Heard → Assoc Heard
fresh now offers = filter (λ e. not (ltb (e.1.at + offer_fresh_ms) now)) offers

abbrev pub is_candidate : Text → ℕ → Heard → Bool
is_candidate current now h = is_newer_version h.version current && not (ltb now h.unroutable_until)

abbrev pub newer_first : Heard → Heard → Bool
newer_first a b = is_newer_version a.version b.version

-- The offers to try, the newest version first.
unfoldable pub candidates : Text → ℕ → Assoc Heard → List Heard
unfolding sort_by
candidates current now offers =
    sort_by newer_first (filter (is_candidate current now) (map entry_of offers))

abbrev pub remembered : ℕ → Heard → Assoc Heard → Assoc Heard
remembered now h offers =
    put h.peer_id (record h { unroutable_until = now + unroutable_memory_ms }) offers

-- The loop over the candidates: the offers, and the one that a fetch was started from.
unfoldable pub try_offers :
    (Heard → Start) → ℕ → List Heard → Assoc Heard → Assoc Heard × Option Heard
try_offers attempt now [] offers = (offers, none)
try_offers attempt now (h ∷ hs) offers = elim (attempt h) [
  | begun ↦ (offers, some h)
  | no_route ↦ try_offers attempt now hs (remembered now h offers)
  | broken ↦ try_offers attempt now hs offers
]

abbrev pub newest : Option Heard → List Heard → Option Heard
newest best [] = best
newest none (h ∷ hs) = newest (some h) hs
newest (some b) (h ∷ hs) =
    newest (if is_newer_version h.version b.version then some h else some b) hs

abbrev pub first_noted : Text → ℕ → Unreachable
first_noted version now = record { version = version; since = now; reported = false }

abbrev pub note_version : Bool → ℕ → Text → Option Unreachable → Option Unreachable × Option Text
note_version has_fallback now version none = (some (first_noted version now), none)
note_version has_fallback now version (some u) =
    if not (text_eq u.version version)
    then (some (first_noted version now), none)
    else if not u.reported && leb (u.since + unreachable_offer_grace_ms) now && has_fallback
    then (some (record u { reported = true }), some version)
    else (some u, none)

abbrev pub note_best :
    Bool → ℕ → Option Heard → Option Unreachable → Option Unreachable × Option Text
note_best has_fallback now none u = (u, none)
note_best has_fallback now (some b) u = note_version has_fallback now b.version u

-- `noteUnreachable`: what is remembered, and the version that is fetched from the release instead.
unfoldable pub note_unreachable :
    Bool → ℕ → List Heard → Option Unreachable → Option Unreachable × Option Text
note_unreachable has_fallback now offered u = note_best has_fallback now (newest none offered) u

abbrev pub is_newer_than : Text → Heard → Bool
is_newer_than current h = is_newer_version h.version current

abbrev pub noted : Assoc Heard → Option Unreachable × Option Text → Mesh × Search × Option Text
noted offers (u, report) = (record { offers = offers; unreachable = u }, nobody_reachable, report)

abbrev pub after_tries :
    Bool
    → ℕ
    → List Heard
    → Option Unreachable
    → Assoc Heard × Option Heard
    → Mesh × Search × Option Text
after_tries has_fallback now tried u (offers, some h) =
    (record { offers = offers; unreachable = u }, started h, none)
after_tries has_fallback now tried u (offers, none) =
    noted offers (note_unreachable has_fallback now tried u)

-- Where no offer is left to try: those of newer builds.
abbrev pub without_candidates :
    Bool → ℕ → Assoc Heard → Option Unreachable → List Heard → Mesh × Search × Option Text
without_candidates has_fallback now offers u [] =
    (record { offers = offers; unreachable = u }, nothing_newer, none)
without_candidates has_fallback now offers u (h ∷ hs) =
    noted offers (note_unreachable has_fallback now (h ∷ hs) u)

abbrev pub search_among :
    (Heard → Start)
    → Bool
    → Text
    → ℕ
    → Assoc Heard
    → Option Unreachable
    → List Heard
    → Mesh × Search × Option Text
search_among attempt has_fallback current now offers u [] =
    without_candidates has_fallback now offers u
      (filter (is_newer_than current) (map entry_of offers))
search_among attempt has_fallback current now offers u (h ∷ hs) =
    after_tries has_fallback now (h ∷ hs) u (try_offers attempt now (h ∷ hs) offers)

-- `fetchNewestOffered`, with the version that the fallback is called for, if it is.
unfoldable pub fetch_newest_offered :
    (Heard → Start) → Bool → Bool → Text → ℕ → Mesh → Mesh × Search × Option Text
unfolding fresh candidates try_offers note_unreachable
fetch_newest_offered attempt has_fallback fetching current now mesh =
    if fetching
    then (mesh, in_progress, none)
    else search_among attempt has_fallback current now (fresh now mesh.offers) mesh.unreachable
        (candidates current now (fresh now mesh.offers))
