-- ===== src/Pairing/Window/Lifetime.antt =====
-- src/pairing-identity.js, `openPairingWindow` and `windowIsOpen`: how long a window stands.
use git_pigeon.Prelude.{ℕ, ◌+◌, ◌≤◌, ◌<◌, ◌≡◌, ◌↔◌, true, false, Option, none, some, arith}
use git_pigeon.Prelude.Text.{Text}
use git_pigeon.Prelude.Instant.{ℤ, pos}
use git_pigeon.Pairing.Window.{window_is_open, open_pairing_window, pairing_window_ms}

module _ (date_parse : Text → Option ℤ) (iso : ℤ → Text) where
  -- A window opened at `n` for ten minutes is open at `m` exactly when the ten minutes are not over
  -- and the clock has not been set back by more than a second, given that the engine reads the
  -- instants that it writes.
  pub open_exactly :
      ((t : ℤ) → date_parse (iso t) ≡ some t)
      → (n m : ℕ) (phrase : Text)
      → (window_is_open date_parse (open_pairing_window iso (pos n) none false phrase) (pos m)
          ≡ true)
        ↔ ((m < n + pairing_window_ms) × (n ≤ m + 1000))
  unfolding window_is_open open_pairing_window
  open_exactly reads n m phrase =
      rw (reads (pos (n + pairing_window_ms))) (λ h. ground arith, λ h. ground arith)
