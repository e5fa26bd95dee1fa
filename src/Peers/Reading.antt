-- ===== src/Peers/Reading.antt =====
-- src/fleet-peers.js, `readPeers`: what is written after reading is read again as it is.
use git_pigeon.Prelude.{
  ◌≡◌, refl, sym, ap, false, Option, none, some, List, [], ◌∷◌, arith, take, length-take-le,
  take_all,
}
use git_pigeon.Prelude.Text.{Text}
use git_pigeon.Prelude.Instant.{ℤ, pos}
use git_pigeon.Peers.{
  Peer, short, cut, or_epoch, or_skip, cleaned, is_invalid, valid_peer, read_peers,
}

module _ (date_parse : Text → Option ℤ) (iso : ℤ → Text) where
  short-short : (o : Option Text) → short (short o) ≡ short o
  short-short none = refl
  short-short (some s) = ground arith

  cut-cut : (o : Option Text) → cut (cut o) ≡ cut o
  cut-cut none = refl
  cut-cut (some s) = ap some (take_all 120 (take 120 s) (length-take-le 120 s))

  or_epoch-or_epoch :
      (o : Option ℤ)
      → ((t : ℤ) → date_parse (iso t) ≡ some t)
      → or_epoch date_parse iso (date_parse (or_epoch date_parse iso o)) ≡ or_epoch date_parse iso o
  or_epoch-or_epoch none h = ap (or_epoch date_parse iso) (h (pos 0))
  or_epoch-or_epoch (some t) h = ap (or_epoch date_parse iso) (h t)

  cleaned-cleaned :
      (p : Peer)
      → ((t : ℤ) → date_parse (iso t) ≡ some t)
      → cleaned date_parse iso (cleaned date_parse iso p) ≡ cleaned date_parse iso p
  cleaned-cleaned p h = λ i. record {
    public_key = p.public_key;
    sealing_key = short-short p.sealing_key i;
    device_name = cut-cut p.device_name i;
    pinned_at = or_epoch-or_epoch (date_parse p.pinned_at) h i;
  }

  valid-cleaned :
      (p q : Peer)
      → valid_peer date_parse iso p ≡ some q
      → (is_invalid date_parse iso p.public_key ≡ false) × (cleaned date_parse iso p ≡ q)
  unfolding valid_peer
  valid-cleaned p q e = ground arith

  valid_cleaned :
      (p : Peer)
      → ((t : ℤ) → date_parse (iso t) ≡ some t)
      → is_invalid date_parse iso p.public_key ≡ false
      → valid_peer date_parse iso (cleaned date_parse iso p) ≡ some (cleaned date_parse iso p)
  unfolding valid_peer
  valid_cleaned p h b = rw b (ap some (cleaned-cleaned p h))

  valid_peer-valid_peer :
      (p q : Peer)
      → ((t : ℤ) → date_parse (iso t) ≡ some t)
      → valid_peer date_parse iso p ≡ some q
      → valid_peer date_parse iso q ≡ some q
  valid_peer-valid_peer p q h e =
      let (b, c) = valid-cleaned p q e in rw (sym c) (valid_cleaned p h b)

  read-or_skip :
      (o : Option Peer) (ps : List Peer)
      → ((q : Peer) → o ≡ some q → valid_peer date_parse iso q ≡ some q)
      → read_peers date_parse iso ps ≡ ps
      → read_peers date_parse iso (or_skip date_parse iso o ps) ≡ or_skip date_parse iso o ps
  unfolding read_peers
  read-or_skip none ps h e = e
  read-or_skip (some q) ps h e = rw (h q refl, e) refl

  -- Peers that were read and are written are read again as they are, given that the engine reads the
  -- instants that it writes.
  pub read_peers-read_peers :
      (ps : List Peer)
      → ((t : ℤ) → date_parse (iso t) ≡ some t)
      → read_peers date_parse iso (read_peers date_parse iso ps) ≡ read_peers date_parse iso ps
  unfolding read_peers
  read_peers-read_peers [] h = refl
  read_peers-read_peers (p ∷ ps) h =
      read-or_skip (valid_peer date_parse iso p) (read_peers date_parse iso ps)
        (λ q e. valid_peer-valid_peer p q h e) (read_peers-read_peers ps h)
