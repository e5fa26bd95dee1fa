-- ===== src/Examples/PeersRuns.antt =====
-- Pinned machines, by src/fleet-peers.js.
use git_pigeon.Prelude.{◌≡◌, refl, Option, none, some, [], ◌∷◌}
use git_pigeon.Prelude.Text.{Text, text}
use git_pigeon.Prelude.Instant.{ℤ, pos, negsuc}
use git_pigeon.Peers.{Peer, read_peers}
use git_pigeon.Peers.Reading.{read_peers-read_peers}

-- An instant is written as one code unit.
abbrev iso : ℤ → Text
iso (pos n) = n ∷ []
iso (negsuc n) = n ∷ 0 ∷ []

abbrev date_parse : Text → Option ℤ
date_parse [] = none
date_parse (n ∷ []) = some (pos n)
date_parse (n ∷ m ∷ s) = some (negsuc n)

abbrev date_parse-iso : (t : ℤ) → date_parse (iso t) ≡ some t
date_parse-iso (pos n) = refl
date_parse-iso (negsuc n) = refl

abbrev mini : Peer
mini = record {
  public_key = text "mini";
  sealing_key = none;
  device_name = some (text "Mini");
  pinned_at = 7 ∷ [];
}

abbrev desk : Peer
desk = record {
  public_key = text "desk";
  sealing_key = some (text "s");
  device_name = none;
  pinned_at = 9 ∷ [];
}

read_peers-read_peers_example :
    read_peers date_parse iso (read_peers date_parse iso (mini ∷ desk ∷ []))
    ≡ read_peers date_parse iso (mini ∷ desk ∷ [])
read_peers-read_peers_example =
    read_peers-read_peers date_parse iso (mini ∷ desk ∷ []) date_parse-iso
