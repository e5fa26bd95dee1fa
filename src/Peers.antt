-- ===== src/Peers.antt =====
-- src/fleet-peers.js: the machines that this one has been paired with. The file `fleet-peers.json` is
-- the list of its records; `Date.parse` and `toISOString` are the engine's.
pub mod Pinning
pub mod Reading
use git_pigeon.Prelude.{
  ℕ, ◌+◌, ◌-◌, Bool, true, false, not, ◌||◌, Option, none, some, List, [], ◌∷◌, ◌++◌, take, drop,
  filter, length, ltb, leb, ◌==◌, if◌then◌else◌,
}
use git_pigeon.Prelude.Sorting.{sort_by}
use git_pigeon.Prelude.Text.{Text, text_eq, is_empty}
use git_pigeon.Prelude.Instant.{ℤ, pos, ltb_ℤ}

abbrev pub max_peers : ℕ
max_peers = 64

-- A record of the file and a peer have the same fields: `none` is what is no string.
pub record Peer : Type 0 where
  pub public_key : Text
  pub sealing_key : Option Text
  pub device_name : Option Text
  pub pinned_at : Text

abbrev pub short : Option Text → Option Text
short none = none
short (some s) = if leb (length s) 200 then some s else none

abbrev pub cut : Option Text → Option Text
cut none = none
cut (some s) = some (take 120 s)

abbrev pub or_else : Option Text → Option Text → Option Text
or_else none other = other
or_else (some s) other = some s

module _ (date_parse : Text → Option ℤ) (iso : ℤ → Text) where
  abbrev pub or_epoch : Option ℤ → Text
  or_epoch none = iso (pos 0)
  or_epoch (some t) = iso t

  abbrev pub is_invalid : Text → Bool
  is_invalid key = is_empty key || ltb 200 (length key)

  abbrev pub cleaned : Peer → Peer
  cleaned p = record {
    public_key = p.public_key;
    sealing_key = short p.sealing_key;
    device_name = cut p.device_name;
    pinned_at = or_epoch (date_parse p.pinned_at);
  }

  unfoldable pub valid_peer : Peer → Option Peer
  valid_peer p = if is_invalid p.public_key then none else some (cleaned p)

  abbrev pub or_skip : Option Peer → List Peer → List Peer
  or_skip none ps = ps
  or_skip (some p) ps = p ∷ ps

  -- `readPeers` of a file that is there and can be parsed.
  unfoldable pub read_peers : List Peer → List Peer
  unfolding valid_peer
  read_peers [] = []
  read_peers (p ∷ ps) = or_skip (valid_peer p) (read_peers ps)

  abbrev earlier : Option ℤ → Option ℤ → Bool
  earlier none b = false
  earlier (some a) none = false
  earlier (some a) (some b) = ltb_ℤ a b

  -- `peers.sort(…)` by the time of pinning.
  unfoldable pub sorted : List Peer → List Peer
  unfolding sort_by
  sorted = sort_by (λ p q. earlier (date_parse p.pinned_at) (date_parse q.pinned_at))

  unfoldable pub find_peer : Text → List Peer → Option Peer
  find_peer key [] = none
  find_peer key (p ∷ ps) =
      let rest = find_peer key ps in if text_eq p.public_key key then some p else rest

  -- `fleetPeer`, of the peers that are read.
  unfoldable pub fleet_peer : Text → List Peer → Option Peer
  unfolding find_peer
  fleet_peer key peers = if is_empty key then none else find_peer key peers

  abbrev pub refreshed : Peer → Peer → Peer
  refreshed pinned existing = record existing {
    sealing_key = or_else pinned.sealing_key existing.sealing_key;
    device_name = or_else pinned.device_name existing.device_name;
  }

  -- The first peer with the key, changed in place.
  unfoldable pub refresh : Peer → List Peer → List Peer
  refresh pinned [] = []
  refresh pinned (p ∷ ps) =
      let rest = refresh pinned ps in
      if text_eq p.public_key pinned.public_key then refreshed pinned p ∷ ps else p ∷ rest

  unfoldable pub added : Peer → List Peer → List Peer
  unfolding sorted
  added pinned peers = drop (length peers + 1 - max_peers) (sorted peers) ++ (pinned ∷ [])

  abbrev pub pin_valid : Option Peer → Peer → List Peer → List Peer
  pin_valid none pinned peers = added pinned peers
  pin_valid (some existing) pinned peers = refresh pinned peers

  abbrev pub pin_checked : Option Peer → List Peer → Option (List Peer)
  pin_checked none peers = none
  pin_checked (some pinned) peers =
      some (pin_valid (find_peer pinned.public_key peers) pinned peers)

  -- `pinFleetPeer`: the peers that are written, or `none` where it throws.
  unfoldable pub pin_fleet_peer : Peer → List Peer → Option (List Peer)
  unfolding valid_peer find_peer refresh added
  pin_fleet_peer p peers = pin_checked (valid_peer p) peers

  unfoldable pub forget_fleet_peer : Text → List Peer → Bool × List Peer
  forget_fleet_peer key peers =
      let kept = filter (λ p. not (text_eq p.public_key key)) peers in
      if length kept == length peers then (false, peers) else (true, kept)
