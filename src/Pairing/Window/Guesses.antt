-- ===== src/Pairing/Window/Guesses.antt =====
-- src/pairing-identity.js, `verifyPairingMac` and `verifyPairingProof`: what a proof that is accepted
-- shows, and how many wrong ones a window stands.
use git_pigeon.Prelude.{
  ℕ, ◌+◌, ◌<◌, ◌≡◌, ◌⊎◌, ap, refl, Bool, true, false, not, ◌&&◌, Option, none, some, List, [], ◌∷◌,
  arith, if◌then◌else◌, Bool-cases, Option-cases, leb, inl, inr, ◌∙◌, suc,
}
use git_pigeon.Prelude.Text.{Text, text_eq→eq}
use git_pigeon.Prelude.Patterns.{is_hex}
use git_pigeon.Prelude.Instant.{ℤ}
use git_pigeon.Pairing.Hex.{hex_bytes, hex-injective}
use git_pigeon.Pairing.Window.{
  Window, Request, window_is_open, pairing_mac, pairing_max_failures, is_judged, matches_phrase,
  verify_pairing_mac,
}

-- A statement made to this machine, and when it arrives.
pub record Guess : Type 0 where
  pub purpose : Text
  pub request : Request
  pub now : ℤ

module _ (date_parse : Text → Option ℤ) (to_upper : Text → Text) (hmac : Text → Text → Text) where
  verify_missing :
      (purpose : Text) (r : Request) (now : ℤ) (written : Bool) (after : Option Window)
      → verify_pairing_mac date_parse to_upper hmac purpose r now written none ≡ (true, after)
      → ⊥
  unfolding verify_pairing_mac
  verify_missing purpose r now written after h = ground arith

  verify_true :
      (purpose : Text) (r : Request) (now : ℤ) (written : Bool) (w : Window) (after : Option Window)
      → verify_pairing_mac date_parse to_upper hmac purpose r now written (some w) ≡ (true, after)
      → (is_judged date_parse to_upper hmac (some w) r now ≡ true)
        × (matches_phrase date_parse to_upper hmac purpose w r ≡ true)
        × (after ≡ some w)
  unfolding verify_pairing_mac
  verify_true purpose r now written w after h = ground arith

  judged_phrase :
      (r : Request) (now : ℤ) (w : Window)
      → is_judged date_parse to_upper hmac (some w) r now ≡ true
      → ¬ (w.phrase ≡ none)
  judged_phrase r now w h e = ground arith

  judged_open :
      (r : Request) (now : ℤ) (w : Window)
      → is_judged date_parse to_upper hmac (some w) r now ≡ true
      → window_is_open date_parse (some w) now ≡ true
  judged_open r now w h = ground arith

  judged_hex :
      (r : Request) (now : ℤ) (w : Window)
      → is_judged date_parse to_upper hmac (some w) r now ≡ true
      → is_hex 64 r.proof ≡ true
  judged_hex r now w h = ground arith

  mac-hex :
      ((key message : Text) → is_hex 64 (hmac key message) ≡ true)
      → (purpose phrase : Text) (r : Request)
      → is_hex 64 (pairing_mac to_upper hmac purpose phrase r.request_id r.epub) ≡ true
  unfolding pairing_mac
  mac-hex hex purpose phrase r = hex _ _

  matching_phrase :
      (purpose : Text) (r : Request) (w : Window) (phrase : Text)
      → w.phrase ≡ some phrase
      → matches_phrase date_parse to_upper hmac purpose w r ≡ true
      → hex_bytes r.proof ≡ hex_bytes (pairing_mac to_upper hmac purpose phrase r.request_id r.epub)
  matching_phrase purpose r w phrase e h = text_eq→eq _ _ (rw e at h)

  -- A statement is accepted only while the window is open, and only if its proof is the phrase's own
  -- statement for that purpose, request and key, given that `hmac` yields 64 hexadecimal digits;
  -- accepting it leaves the window as it was.
  pub verify_sound :
      ((key message : Text) → is_hex 64 (hmac key message) ≡ true)
      → (purpose : Text) (r : Request) (now : ℤ) (written : Bool) (file after : Option Window)
      → verify_pairing_mac date_parse to_upper hmac purpose r now written file ≡ (true, after)
      → (w : Window) × (phrase : Text) × (file ≡ some w)
        × (after ≡ some w)
        × (window_is_open date_parse file now ≡ true)
        × (w.phrase ≡ some phrase)
        × (r.proof ≡ pairing_mac to_upper hmac purpose phrase r.request_id r.epub)
  verify_sound hex purpose r now written none after h =
      absurd (verify_missing purpose r now written after h)
  verify_sound hex purpose r now written (some w) after h =
      let (judged, matching, kept) = verify_true purpose r now written w after h in
      elim (Option-cases w.phrase) [
        | inl e ↦ absurd (judged_phrase r now w judged e)
        | inr (phrase, e) ↦ (
          w,
          phrase,
          refl,
          kept,
          judged_open r now w judged,
          e,
          hex-injective r.proof (pairing_mac to_upper hmac purpose phrase r.request_id r.epub)
              (judged_hex r now w judged) (mac-hex hex purpose phrase r)
              (matching_phrase purpose r w phrase e matching),
        )
      ]

  -- Whether a guess is compared with the phrase and found wrong.
  abbrev is_wrong : Guess → Option Window → Bool
  is_wrong g none = false
  is_wrong g (some w) =
      is_judged date_parse to_upper hmac (some w) g.request g.now
      && not (matches_phrase date_parse to_upper hmac g.purpose w g.request)

  after_guess : Guess → Option Window → Option Window
  after_guess g file =
      (verify_pairing_mac date_parse to_upper hmac g.purpose g.request g.now true file).1

  wrong_last :
      (g : Guess) (w : Window)
      → is_wrong g (some w) ≡ true
      → leb pairing_max_failures (w.failures + 1) ≡ true
      → after_guess g (some w) ≡ none
  unfolding after_guess verify_pairing_mac
  wrong_last g w e h = ground arith

  wrong_more :
      (g : Guess) (w : Window)
      → is_wrong g (some w) ≡ true
      → leb pairing_max_failures (w.failures + 1) ≡ false
      → after_guess g (some w) ≡ some (record w { failures = w.failures + 1 })
  unfolding after_guess verify_pairing_mac
  wrong_more g w e h = ground arith

  not_wrong :
      (g : Guess) (w : Window) → is_wrong g (some w) ≡ false → after_guess g (some w) ≡ some w
  unfolding after_guess verify_pairing_mac
  not_wrong g w e = ground arith

  abbrev tally : Bool → ℕ × Option Window → ℕ × Option Window
  tally wrong (n, final) = (if wrong then suc n else n, final)

  -- The window after a row of guesses, and how many of them were found wrong. Every write succeeds.
  pub guess_all : List Guess → Option Window → ℕ × Option Window
  guess_all [] file = (0, file)
  guess_all (g ∷ gs) file = tally (is_wrong g file) (guess_all gs (after_guess g file))

  guess_none : (gs : List Guess) → guess_all gs none ≡ (0, none)
  unfolding guess_all after_guess verify_pairing_mac
  guess_none [] = refl
  guess_none (g ∷ gs) = rw (guess_none gs)

  guess_last :
      (g : Guess) (gs : List Guess) (w : Window)
      → is_wrong g (some w) ≡ true
      → leb pairing_max_failures (w.failures + 1) ≡ true
      → guess_all (g ∷ gs) (some w) ≡ (1, none)
  unfolding guess_all
  guess_last g gs w e last =
      ap (λ p. tally p (guess_all gs (after_guess g (some w)))) e
      ∙ ap (λ f. tally true (guess_all gs f)) (wrong_last g w e last)
      ∙ ap (tally true) (guess_none gs)

  guess_more :
      (g : Guess) (gs : List Guess) (w : Window)
      → is_wrong g (some w) ≡ true
      → leb pairing_max_failures (w.failures + 1) ≡ false
      → guess_all (g ∷ gs) (some w)
        ≡ tally true (guess_all gs (some (record w { failures = w.failures + 1 })))
  unfolding guess_all
  guess_more g gs w e more =
      ap (λ p. tally p (guess_all gs (after_guess g (some w)))) e
      ∙ ap (λ f. tally true (guess_all gs f)) (wrong_more g w e more)

  guess_pass :
      (g : Guess) (gs : List Guess) (w : Window)
      → is_wrong g (some w) ≡ false
      → guess_all (g ∷ gs) (some w) ≡ guess_all gs (some w)
  unfolding guess_all
  guess_pass g gs w e =
      ap (λ p. tally p (guess_all gs (after_guess g (some w)))) e
      ∙ ap (guess_all gs) (not_wrong g w e)

  shift :
      (r : ℕ × Option Window) (f : ℕ)
      → (r.0 + (f + 1) < pairing_max_failures)
        ⊎ ((r.0 + (f + 1) ≡ pairing_max_failures) × (r.1 ≡ none))
      → ((tally true r).0 + f < pairing_max_failures)
        ⊎ (((tally true r).0 + f ≡ pairing_max_failures) × ((tally true r).1 ≡ none))
  shift r f (inl h) = inl (omega arith)
  shift r f (inr h) = inr (omega arith, h.1)

  -- However many statements are judged one after the other, each only when the window is written for
  -- the one before, of whatever purposes and at whatever times, a window that is not yet used up finds
  -- fewer of them wrong than its failures leave of five, or exactly as many, and then it is shut. Every
  -- write of the window succeeds.
  pub guesses-le-max_failures :
      (gs : List Guess) (w : Window)
      → w.failures < pairing_max_failures
      → ((guess_all gs (some w)).0 + w.failures < pairing_max_failures)
        ⊎ (((guess_all gs (some w)).0 + w.failures ≡ pairing_max_failures)
            × ((guess_all gs (some w)).1 ≡ none))
  guesses-le-max_failures [] w h = unfold guess_all in inl (omega arith)
  guesses-le-max_failures (g ∷ gs) w h = elim (Bool-cases (is_wrong g (some w))) [
    | inl e ↦ elim (Bool-cases (leb pairing_max_failures (w.failures + 1))) [
      | inl last ↦ rw (guess_last g gs w e last) (inr (ground arith, refl))
      | inr more ↦ rw (guess_more g gs w e more) (
          shift (guess_all gs (some (record w { failures = w.failures + 1 }))) w.failures
            (guesses-le-max_failures gs (record w { failures = w.failures + 1 }) (ground arith)))
    ]
    | inr e ↦ rw (guess_pass g gs w e) (guesses-le-max_failures gs w h)
  ]
