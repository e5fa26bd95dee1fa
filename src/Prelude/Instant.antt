-- ===== src/Prelude/Instant.antt =====
-- What `Date.parse` yields: `none` for NaN, or a whole number of milliseconds, before or after 1970.
use Prim.Native.Nat.{ℕ, suc, ◌+◌, ◌-◌}
use mathlib.Core.Path.{◌≡◌}
use mathlib.Core.Bool.{Bool, true}
use native.Mathlib.Omega.{arith}
use git_pigeon.Prelude.Numbers.{ltb, leb, ◌==◌, if◌then◌else◌}

-- `negsuc n` is -(n + 1).
pub data ℤ : Type 0 where
  pos : ℕ → ℤ
  negsuc : ℕ → ℤ

abbrev pub pos_part : ℤ → ℕ
pos_part (pos n) = n
pos_part (negsuc n) = 0

abbrev pub neg_part : ℤ → ℕ
neg_part (pos n) = 0
neg_part (negsuc n) = suc n

abbrev pub ltb_ℤ : ℤ → ℤ → Bool
ltb_ℤ a b = ltb (pos_part a + neg_part b) (pos_part b + neg_part a)

-- `t + ms`
abbrev pub later : ℤ → ℕ → ℤ
later (pos n) ms = pos (n + ms)
later (negsuc n) ms = if leb ms n then negsuc (n - ms) else pos (ms - n - 1)

abbrev pub eqb_ℤ : ℤ → ℤ → Bool
eqb_ℤ a b = (pos_part a + neg_part b) == (pos_part b + neg_part a)

-- `a - b <= n` and `a - b > n`, for a number `n` of milliseconds.
abbrev pub within : ℤ → ℤ → ℕ → Bool
within a b n = leb (pos_part a + neg_part b) (pos_part b + neg_part a + n)

pub eqb_ℤ→eq : (a b : ℤ) → eqb_ℤ a b ≡ true → a ≡ b
eqb_ℤ→eq a b h = ground arith
