-- ===== src/Examples/PairingRuns.antt =====
-- A pairing window, by src/pairing-identity.js.
use git_pigeon.Prelude.{
  zero, suc, ap, ◌==◌, Bool-cases, inl, inr, ℕ, ◌+◌, ◌≤◌, ◌<◌, ◌≡◌, ◌⊎◌, ◌↔◌, refl, true, false,
  Option, none, some, List, [], ◌∷◌, length, arith, filter, if◌then◌else◌,
}
use git_pigeon.Prelude.Text.{Text, text, text_eq, is_empty}
use git_pigeon.Prelude.Patterns.{is_hex}
use git_pigeon.Prelude.Instant.{ℤ, pos, negsuc}
use git_pigeon.Pairing.Hex.{hex_bytes}
use git_pigeon.Pairing.Window.{
  Window, Request, window_is_open, normalize_pairing_phrase, pairing_mac, verify_pairing_mac,
  open_pairing_window, pairing_window_ms,
}
use git_pigeon.Pairing.Window.Guesses.{verify_sound, Guess, guess_all, guesses-le-max_failures}
use git_pigeon.Pairing.Window.Lifetime.{open_exactly}
use git_pigeon.Pairing.Phrase.{create_pairing_phrase}
use git_pigeon.Pairing.Phrase.Shape.{create_total}

abbrev parse : Text → Option ℤ
parse [] = none
parse (sign ∷ n) = if sign == 0 then some (pos (length n)) else some (negsuc (length n))

abbrev zeros : ℕ → Text
zeros zero = []
zeros (suc n) = 0 ∷ zeros n

abbrev iso : ℤ → Text
iso (pos n) = 0 ∷ zeros n
iso (negsuc n) = 1 ∷ zeros n

length-zeros : (n : ℕ) → length (zeros n) ≡ n
length-zeros zero = refl
length-zeros (suc n) = ap suc (length-zeros n)

parse-iso : (t : ℤ) → parse (iso t) ≡ some t
parse-iso (pos n) = ap (λ k. some (pos k)) (length-zeros n)
parse-iso (negsuc n) = ap (λ k. some (negsuc k)) (length-zeros n)

abbrev upper : Text → Text
upper s = s

-- A stand-in for the keyed digest: it looks at the length of what is signed.
abbrev hmac : Text → Text → Text
hmac key message =
    if length message == 30
    then text "00112233445566778899aabbccddeeff00112233445566778899aabbccddeeff"
    else text "ffeeddccbbaa99887766554433221100ffeeddccbbaa99887766554433221100"

hmac-hex : (key message : Text) → is_hex 64 (hmac key message) ≡ true
unfolding is_hex
hmac-hex key message = elim (Bool-cases (length message == 30)) [ inl e ↦ rw e | inr e ↦ rw e ]

abbrev window : Window
window = record {
  until_paired = true;
  until = none;
  phrase = some (text "ABCD-EFGH-JKMN");
  failures = 3;
}

abbrev request : Request
request = record {
  request_id = text "r1";
  epub = text "k";
  proof = text "00112233445566778899aabbccddeeff00112233445566778899aabbccddeeff";
}

accepted_run :
    verify_pairing_mac parse upper hmac (text "grant") request (pos 0) true (some window)
    ≡ (true, some window)
unfolding verify_pairing_mac window_is_open normalize_pairing_phrase is_hex is_empty text_eq
    hex_bytes pairing_mac filter
accepted_run = refl

verify_sound_example :
    (w : Window) × (phrase : Text) × (some window ≡ some w)
    × (some window ≡ some w)
    × (window_is_open parse (some window) (pos 0) ≡ true)
    × (w.phrase ≡ some phrase)
    × (request.proof ≡ pairing_mac upper hmac (text "grant") phrase request.request_id request.epub)
verify_sound_example =
    verify_sound parse upper hmac hmac-hex (text "grant") request (pos 0) true (some window)
      (some window) accepted_run

abbrev wrong_guess : Guess
wrong_guess = record { purpose = text "proof+"; request = request; now = pos 0 }

guesses-le-max_failures_example :
    ((guess_all parse upper hmac (wrong_guess ∷ wrong_guess ∷ []) (some window)).0 + 3 < 5)
    ⊎ (((guess_all parse upper hmac (wrong_guess ∷ wrong_guess ∷ []) (some window)).0 + 3 ≡ 5)
        × ((guess_all parse upper hmac (wrong_guess ∷ wrong_guess ∷ []) (some window)).1 ≡ none))
guesses-le-max_failures_example =
    guesses-le-max_failures parse upper hmac (wrong_guess ∷ wrong_guess ∷ []) window (omega arith)

open_exactly_example :
    (window_is_open parse (open_pairing_window iso (pos 1) none false (text "P")) (pos 2) ≡ true)
    ↔ ((2 < 1 + pairing_window_ms) × (1 ≤ 2 + 1000))
open_exactly_example = open_exactly parse iso parse-iso 1 2 (text "P")

abbrev block : List ℕ
block = 250 ∷ 0 ∷ 1 ∷ 2 ∷ 3 ∷ 4 ∷ 5 ∷ 6 ∷ 7 ∷ 8 ∷ 9 ∷ 40 ∷ 241 ∷ 239 ∷ []

create_total_example :
    (phrase : Text) × (create_pairing_phrase (block ∷ []) ≡ some phrase)
    × (length (normalize_pairing_phrase upper phrase) ≡ 12)
create_total_example = create_total upper (λ s _. refl) (block ∷ []) (omega arith)

created_phrase : create_pairing_phrase (block ∷ []) ≡ some (text "ABCD-EFGH-JKM9")
unfolding create_pairing_phrase
created_phrase = refl
