-- ===== src/Pairing/Window.antt =====
-- src/pairing-identity.js, `windowIsOpen` to `pairingWindowOpen`. The file `pairing-window.json` is an
-- `Option Window`: `none` where it is missing or cannot be read.
pub mod Guesses
pub mod Framing
pub mod Lifetime
use git_pigeon.Prelude.{
  ℕ, ◌+◌, Bool, true, false, not, ◌&&◌, ◌||◌, Option, none, some, ◌++◌, [], ◌∷◌, leb, length,
  filter, if◌then◌else◌,
}
use git_pigeon.Prelude.Text.{Text, text, text_eq, is_empty}
use git_pigeon.Prelude.Patterns.{is_hex, is_upper, is_digit}
use git_pigeon.Prelude.Instant.{later, ℤ, ltb_ℤ, within}
use git_pigeon.Pairing.Hex.{hex_bytes}

abbrev pub pairing_window_ms : ℕ
pairing_window_ms = 600000

abbrev pub pairing_max_failures : ℕ
pairing_max_failures = 5

pub record Window : Type 0 where
  pub until_paired : Bool
  pub until : Option Text
  pub phrase : Option Text
  pub failures : ℕ

pub record Request : Type 0 where
  pub request_id : Text
  pub epub : Text
  pub proof : Text

-- The engine's `Date.parse` and `toUpperCase`, and `createHmac('sha256', key)` over a message, in hex.
module _ (date_parse : Text → Option ℤ) where
  abbrev open_until : Option ℤ → ℤ → Bool
  open_until none now = false
  open_until (some until) now = ltb_ℤ now until && within until now (pairing_window_ms + 1000)

  abbrev text_of : Option Text → Text
  text_of none = []
  text_of (some s) = s

  unfoldable pub window_is_open : Option Window → ℤ → Bool
  window_is_open none now = false
  window_is_open (some w) now =
      if w.until_paired then true else open_until (date_parse (text_of w.until)) now

module _ (to_upper : Text → Text) where
  unfoldable pub normalize_pairing_phrase : Text → Text
  normalize_pairing_phrase s = filter (λ c. is_upper c || is_digit c) (to_upper s)

  abbrev usable : Option Text → Bool
  usable none = false
  usable (some s) = leb 12 (length (normalize_pairing_phrase s))

module _ (date_parse : Text → Option ℤ) (to_upper : Text → Text) where
  unfoldable pub open_pairing_phrase : Option Window → ℤ → Option Text
  unfolding window_is_open normalize_pairing_phrase
  open_pairing_phrase none now = none
  open_pairing_phrase (some w) now =
      if window_is_open date_parse (some w) now && usable to_upper w.phrase then w.phrase else none

-- What is signed: a label for the purpose, and the request, separated by NUL.
unfoldable pub statement : Text → Text → Text → Text
statement purpose request_id epub =
    (text "gitpigeon-pairing-" ++ (purpose ++ (text "/1" ++ (0 ∷ []))))
    ++ (request_id ++ (0 ∷ epub))

module _ (to_upper : Text → Text) (hmac : Text → Text → Text) where
  unfoldable pub pairing_mac : Text → Text → Text → Text → Text
  unfolding statement normalize_pairing_phrase
  pairing_mac purpose phrase request_id epub =
      hmac (normalize_pairing_phrase to_upper phrase) (statement purpose request_id epub)

  unfoldable pub pairing_proof : Text → Text → Text → Text
  unfolding pairing_mac
  pairing_proof = pairing_mac (text "proof")

  unfoldable pub pairing_answer : Text → Text → Text → Text
  unfolding pairing_mac
  pairing_answer = pairing_mac (text "answer")

-- A wrong proof counts; the last one that is allowed removes the file. A file that cannot be written
-- or removed stays as it was.
unfoldable pub count_failure : Bool → Window → Option Window
count_failure written w =
    if not written
    then some w
    else if leb pairing_max_failures (w.failures + 1)
    then none
    else some (record w { failures = w.failures + 1 })

module _ (date_parse : Text → Option ℤ) (to_upper : Text → Text) (hmac : Text → Text → Text) where
  unfoldable pub pairing_mac_for : Text → Option Window → Text → Text → ℤ → Option Text
  unfolding window_is_open pairing_mac
  pairing_mac_for purpose none request_id epub now = none
  pairing_mac_for purpose (some w) request_id epub now =
      if window_is_open date_parse (some w) now
      then (elim w.phrase [
        | none ↦ none
        | some phrase ↦ some (pairing_mac to_upper hmac purpose phrase request_id epub)
      ])
      else none

  -- The tests before a proof is compared with the open phrase.
  abbrev pub is_judged : Option Window → Request → ℤ → Bool
  is_judged none r now = false
  is_judged (some w) r now =
      window_is_open date_parse (some w) now
      && usable to_upper w.phrase
      && not (is_empty r.epub || is_empty r.request_id || not (is_hex 64 r.proof))

  abbrev phrase_of : Option Text → Text
  phrase_of none = []
  phrase_of (some s) = s

  abbrev pub matches_phrase : Text → Window → Request → Bool
  matches_phrase purpose w r =
      text_eq (hex_bytes r.proof)
        (hex_bytes (pairing_mac to_upper hmac purpose (phrase_of w.phrase) r.request_id r.epub))

  -- The answer and the file afterwards; `written` tells whether the file could be changed.
  unfoldable pub verify_pairing_mac :
      Text → Request → ℤ → Bool → Option Window → Bool × Option Window
  unfolding window_is_open count_failure
  verify_pairing_mac purpose r now written none = (false, none)
  verify_pairing_mac purpose r now written (some w) =
      if not (is_judged (some w) r now)
      then (false, some w)
      else if matches_phrase purpose w r
      then (true, some w)
      else (false, count_failure written w)

  unfoldable pub verify_pairing_proof : Request → ℤ → Bool → Option Window → Bool × Option Window
  unfolding verify_pairing_mac
  verify_pairing_proof = verify_pairing_mac (text "proof")

-- The default of `ms` is PAIRING_WINDOW_MS.
abbrev pub or_ten_minutes : Option ℕ → ℕ
or_ten_minutes none = pairing_window_ms
or_ten_minutes (some ms) = ms

-- `openPairingWindow` at `now`; the phrase is the one that `createPairingPhrase` made, and `iso` the
-- engine's `toISOString` of an instant.
unfoldable pub open_pairing_window : (ℤ → Text) → ℤ → Option ℕ → Bool → Text → Option Window
open_pairing_window iso now ms until_paired phrase = some (record {
  until_paired = until_paired;
  until = if until_paired then none else some (iso (later now (or_ten_minutes ms)));
  phrase = some phrase;
  failures = 0;
})

unfoldable pub close_pairing_window : Option Window → Option Window
close_pairing_window w = none
