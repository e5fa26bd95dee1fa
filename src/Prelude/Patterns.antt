-- ===== src/Prelude/Patterns.antt =====
-- The regular expressions that the sources test texts by: a class of characters, repeated.
use git_pigeon.Prelude.Numbers.{◌==◌, leb}
use git_pigeon.Prelude.Lists.{length}
use git_pigeon.Prelude.Text.{Text}
use Prim.Native.Nat.{ℕ}
use mathlib.Core.Path.{◌≡◌}
use mathlib.Core.Bool.{Bool, true, ◌&&◌, ◌||◌}
use mathlib.Core.List.{[], ◌∷◌}
use native.Mathlib.Omega.{arith}

unfoldable pub every : (ℕ → Bool) → Text → Bool
every test [] = true
every test (c ∷ s) = test c && every test s

abbrev pub is_digit : ℕ → Bool
is_digit c = leb b'0' c && leb c b'9'

abbrev pub is_upper : ℕ → Bool
is_upper c = leb b'A' c && leb c b'Z'

abbrev pub is_lower : ℕ → Bool
is_lower c = leb b'a' c && leb c b'z'

-- `[0-9a-f]`
abbrev pub is_hex_digit : ℕ → Bool
is_hex_digit c = is_digit c || (leb b'a' c && leb c b'f')

-- `[a-zA-Z0-9_-]`
abbrev pub is_url_safe : ℕ → Bool
is_url_safe c = is_lower c || is_upper c || is_digit c || c == b'_' || c == b'-'

-- `/^[0-9a-f]{n}$/`
unfoldable pub is_hex : ℕ → Text → Bool
unfolding every
is_hex n s = length s == n && every is_hex_digit s

pub every-head : (test : ℕ → Bool) (c : ℕ) (s : Text) → every test (c ∷ s) ≡ true → test c ≡ true
unfolding every
every-head test c s h = ground arith

pub every-tail :
    (test : ℕ → Bool) (c : ℕ) (s : Text) → every test (c ∷ s) ≡ true → every test s ≡ true
unfolding every
every-tail test c s h = ground arith
