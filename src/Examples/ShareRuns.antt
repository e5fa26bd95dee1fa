-- ===== src/Examples/ShareRuns.antt =====
-- Shares of one repository, by src/share-precedence.js.
use mathlib.Core.List.Perm
use git_pigeon.Prelude.{◌≡◌, refl, Option, none, some, [], ◌∷◌, length, if◌then◌else◌}
use git_pigeon.Prelude.Text.{Text, text, text_eq}
use git_pigeon.Prelude.Instant.{ℤ, pos}
use git_pigeon.Prelude.Choice.{settle}
use git_pigeon.Share.{Share, preferred_share}
use git_pigeon.Share.Precedence.{settle-perm_share}

abbrev parse : Text → Option ℤ
parse t = some (pos (length t))

abbrev mirrored : Share
mirrored = record {
  key = text "k1";
  mirror = some (text "nostr:m");
  created_at = some (text "33");
  owner_public_key = none;
}

abbrev older : Share
older = record {
  key = text "k2";
  mirror = none;
  created_at = some (text "1");
  owner_public_key = none;
}

abbrev declared : Text → Share
declared k = if text_eq k (text "k1") then mirrored else older

abbrev owned : Share
owned = record older { owner_public_key = some (text "pub") }

settle-perm_share_example :
    settle (preferred_share parse) none (some mirrored ∷ some older ∷ [])
    ≡ settle (preferred_share parse) none (some older ∷ some mirrored ∷ [])
unfolding text_eq
settle-perm_share_example =
    settle-perm_share parse declared none (some mirrored ∷ some older ∷ [])
      (some older ∷ some mirrored ∷ []) (Perm.swap (some older) (some mirrored) []) tt
      (refl, (refl, tt))
