-- ===== src/Prelude/Framing.antt =====
-- Texts that are put together with NUL between their parts.
use Prim.Native.Nat.{ℕ}
use mathlib.Core.Path.{◌≡◌, refl}
use mathlib.Core.Bool.{Bool, true, not}
use mathlib.Core.List.{[], ◌∷◌, ◌++◌}
use native.Mathlib.Omega.{arith}
use git_pigeon.Prelude.Numbers.{◌==◌, and_right}
use git_pigeon.Prelude.Lists.{length}
use git_pigeon.Prelude.Text.{Text}
use git_pigeon.Prelude.Patterns.{every, every-head, every-tail, is_hex, is_hex_digit}

-- A text without NUL.
abbrev pub nul_free : Text → Bool
nul_free = every (λ c. not (c == 0))

zero-ne : (b : ℕ) → not (b == 0) ≡ true → ¬ (0 ≡ b)
zero-ne b h e = ground arith

-- A text without NUL ends at the first NUL.
pub split_at_nul :
    (s t u v : Text)
    → nul_free s ≡ true
    → nul_free t ≡ true
    → s ++ (0 ∷ u) ≡ t ++ (0 ∷ v)
    → (s ≡ t) × (u ≡ v)
split_at_nul [] [] u v hs ht e = (refl, cc e)
split_at_nul [] (b ∷ t) u v hs ht e =
    absurd (zero-ne b (every-head (λ c. not (c == 0)) b t ht) (cc e))
split_at_nul (a ∷ s) [] u v hs ht e =
    absurd (zero-ne a (every-head (λ c. not (c == 0)) a s hs) (cc e))
split_at_nul (a ∷ s) (b ∷ t) u v hs ht e =
    let rest =
      split_at_nul s t u v (every-tail (λ c. not (c == 0)) a s hs)
        (every-tail (λ c. not (c == 0)) b t ht) (cc e) in
    (cc (e, rest.0), rest.1)

hex-nul_free : (s : Text) → every is_hex_digit s ≡ true → nul_free s ≡ true
unfolding every
hex-nul_free [] h = refl
hex-nul_free (c ∷ s) h = ground (arith, hex-nul_free s)

-- A digest has no NUL in it.
pub is_hex-nul_free : (n : ℕ) (s : Text) → is_hex n s ≡ true → nul_free s ≡ true
unfolding is_hex
is_hex-nul_free n s h = hex-nul_free s (and_right (length s == n) (every is_hex_digit s) h)
