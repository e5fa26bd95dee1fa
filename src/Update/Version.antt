-- ===== src/Update/Version.antt =====
-- src/auto-update.js, `safeVersion` and `isNewerVersion`. The parts of a version are whole numbers
-- here; the engine's are exact up to 2^53.
pub mod Order
use git_pigeon.Prelude.{
  ℕ, zero, ◌+◌, ◌-◌, ◌*◌, Bool, true, false, not, Option, none, some, List, [], ◌∷◌, ltb, ◌==◌,
  if◌then◌else◌,
}
use git_pigeon.Prelude.Text.{Text, trim, is_empty}
use git_pigeon.Prelude.Patterns.{is_digit}

-- `(\d+)` at the front of a text: the digits, and the rest.
unfoldable pub leading_digits : Text → Text × Text
leading_digits [] = ([], [])
leading_digits (c ∷ s) =
    let (digits, rest) = leading_digits s in if is_digit c then (c ∷ digits, rest) else ([], c ∷ s)

-- `Number(digits)`
unfoldable pub number : ℕ → Text → ℕ
number n [] = n
number n (c ∷ s) = number (n * 10 + (c - b'0')) s

-- One part, which a dot follows.
unfoldable pub dotted_part : Text → Option (ℕ × Text)
unfolding leading_digits number is_empty
dotted_part s =
    let (digits, rest) = leading_digits s in
    if is_empty digits then none else (elim rest [
      | [] ↦ none
      | c ∷ after ↦ if c == b'.' then some (number 0 digits, after) else none
    ])

-- The last part, at the end of the text.
unfoldable pub last_part : Text → Option ℕ
unfolding leading_digits number is_empty
last_part s =
    let (digits, rest) = leading_digits s in
    if is_empty digits then none else if is_empty rest then some (number 0 digits) else none

abbrev without_v : Text → Text
without_v [] = []
without_v (c ∷ s) = if c == b'v' then s else c ∷ s

infixl 5 ◌>>=◌
abbrev ◌>>=◌ {ℓ κ} : {A : Type ℓ} {B : Type κ} → Option A → (A → Option B) → Option B
none >>= f = none
some a >>= f = f a

pub record Version : Type 0 where
  pub major : ℕ
  pub minor : ℕ
  pub patch : ℕ

unfoldable pub safe_version : Text → Option Version
unfolding dotted_part last_part trim
safe_version value = do
  (major, s) ← dotted_part (without_v (trim value))
  (minor, t) ← dotted_part s
  patch ← last_part t
  some (record { major = major; minor = minor; patch = patch })

-- The loop over the three parts.
unfoldable pub newer_parts : Version → Version → Bool
newer_parts l r =
    if not (l.major == r.major)
    then ltb r.major l.major
    else if not (l.minor == r.minor)
    then ltb r.minor l.minor
    else if not (l.patch == r.patch)
    then ltb r.patch l.patch
    else false

unfoldable pub both_newer : Option Version → Option Version → Bool
unfolding newer_parts
both_newer none r = false
both_newer (some l) none = false
both_newer (some l) (some r) = newer_parts l r

unfoldable pub is_newer_version : Text → Text → Bool
is_newer_version candidate current = both_newer (safe_version candidate) (safe_version current)
