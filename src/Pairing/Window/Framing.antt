-- ===== src/Pairing/Window/Framing.antt =====
-- src/pairing-identity.js, `pairingMac`: what is signed says which purpose, request and key it is for.
use git_pigeon.Prelude.{[], ◌∷◌, ◌++◌}
use git_pigeon.Prelude.Text.{Text, text}

abbrev suffix : Text
suffix = text "/1" ++ (0 ∷ [])
