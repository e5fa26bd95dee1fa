-- ===== src/Terminal/Capture/Chunks.antt =====
-- src/terminal-server.js, `#captureHistory`: output that comes in any number of pieces.
use git_pigeon.Prelude.{
  ℕ, zero, suc, ◌<◌, ◌≡◌, refl, sym, ap, ◌∙◌, inl, inr, true, none, some, List, [], ◌∷◌, ◌++◌,
  arith, length, length-append, flat, leb, Option-cases, and_left, and_right,
}
use mathlib.Core.Path.{ap₂}
use mathlib.Core.List.{append-nil, append_assoc}
use git_pigeon.Prelude.Text.{Text}
use git_pigeon.Prelude.Search.{split_at, split_at-append, split_at-append_self}
use git_pigeon.Terminal.Capture.{
  header, bell, max_carry, Captured, shown, held, past_frame, at_frame, scan, capture_history,
  capture_all, and_then,
}
use git_pigeon.Terminal.Capture.Pieces.{header_tail, held-nil, scan-held, at_frame-before}
use git_pigeon.Terminal.Capture.Fits.{
  frames_fit, length_rest, scan_fuel, length-carry, fits_unterminated, scan_at, unterminated_short,
  past_frame-and_then, fits_rest,
}

module _ (decode : Text → Text) where
  -- The first piece ends within a frame.
  scan_endless :
      (n : ℕ) (a b before after : Text)
      → split_at header a ≡ some (before, after)
      → split_at bell after ≡ none
      → frames_fit (suc n) (a ++ b) ≡ true
      → scan decode (suc n) (a ++ b)
        ≡ and_then
            (scan decode (suc n) a)
            (scan decode (suc n) ((scan decode (suc n) a).carry ++ b))
  unfolding frames_fit
  scan_endless n a b before after found endless fits =
      let on = split_at-append header a b before after found in
      let short = fits_unterminated decode after b n endless (rw on at fits) in
      let first : scan decode (suc n) a
          ≡ record { visible = before; lines = []; carry = header ++ after } =
        scan_at decode n a before after found
        ∙ ap (at_frame decode (scan decode n) before after) endless
        ∙ unterminated_short decode before (header ++ after) short in
      let whole : scan decode (suc n) (a ++ b)
          ≡ and_then (shown before) (scan decode (suc n) ((header ++ after) ++ b)) =
        scan_at decode n (a ++ b) before (after ++ b) on
        ∙ at_frame-before decode (scan decode n) before (after ++ b) (split_at bell (after ++ b))
        ∙ ap (and_then (shown before)) (
            sym (
              scan_at decode n (header ++ (after ++ b)) [] (after ++ b)
                (split_at-append_self 27 header_tail (after ++ b)))) in
      whole ∙ ap (λ r. and_then r (scan decode (suc n) (r.carry ++ b))) (sym first)

  scan_plain : (n : ℕ) (s : Text) → split_at header s ≡ none → scan decode (suc n) s ≡ held s
  unfolding scan
  scan_plain n s h = rw h refl

  -- The first piece goes beyond a frame.
  scan_ended :
      (n : ℕ) (a b before after payload rest : Text)
      → split_at header a ≡ some (before, after)
      → split_at bell after ≡ some (payload, rest)
      → length (a ++ b) < suc n
      → scan decode n (rest ++ b)
        ≡ and_then (scan decode n rest) (scan decode n ((scan decode n rest).carry ++ b))
      → scan decode (suc n) (a ++ b)
        ≡ and_then
            (scan decode (suc n) a)
            (scan decode (suc n) ((scan decode (suc n) a).carry ++ b))
  scan_ended n a b before after payload rest found ended h ih =
      let shorter = length_rest a before after payload rest found ended in
      let carried = length-carry decode n rest in
      let r = scan decode n rest in
      let first : scan decode (suc n) a ≡ past_frame decode before payload r =
        scan_at decode n a before after found
        ∙ ap (at_frame decode (scan decode n) before after) ended in
      let whole : scan decode (suc n) (a ++ b)
          ≡ past_frame decode before payload (scan decode n (rest ++ b)) =
        scan_at decode n (a ++ b) before (after ++ b)
          (split_at-append header a b before after found)
        ∙ ap (at_frame decode (scan decode n) before (after ++ b))
            (split_at-append bell after b payload rest ended) in
      let fuel : scan decode n (r.carry ++ b) ≡ scan decode (suc n) (r.carry ++ b) =
        scan_fuel decode n (suc n) (r.carry ++ b)
          (omega (arith, length-append r.carry b, length-append a b))
          (omega (arith, length-append r.carry b, length-append a b)) in
      whole
      ∙ ap (past_frame decode before payload) (ih ∙ ap (and_then r) fuel)
      ∙ past_frame-and_then decode before payload r (scan decode (suc n) (r.carry ++ b))
      ∙ ap (λ q. and_then q (scan decode (suc n) (q.carry ++ b))) (sym first)

  -- Two pieces come to the same as the whole.
  scan-append :
      (n : ℕ) (a b : Text)
      → length (a ++ b) < n
      → frames_fit n (a ++ b) ≡ true
      → scan decode n (a ++ b)
        ≡ and_then (scan decode n a) (scan decode n ((scan decode n a).carry ++ b))
  scan-append zero a b h fits = absurd (omega arith)
  scan-append (suc n) a b h fits = elim (Option-cases (split_at header a)) [
    | inl none_found ↦
        scan-held decode n a b none_found
        ∙ ap (λ r. and_then r (scan decode (suc n) (r.carry ++ b)))
            (sym (scan_plain n a none_found))
    | inr ((before, after), found) ↦ elim (Option-cases (split_at bell after)) [
      | inl endless ↦ scan_endless n a b before after found endless fits
      | inr ((payload, rest), ended) ↦
          let shorter = length_rest a before after payload rest found ended in
          scan_ended n a b before after payload rest found ended h (
            scan-append n rest b (omega (arith, length-append rest b, length-append a b))
              (fits_rest decode n a b before after payload rest found ended fits))
    ]
  ]

  frames_fit-append : (n : ℕ) (a b : Text) → frames_fit n (a ++ b) ≡ true → frames_fit n a ≡ true
  unfolding frames_fit
  frames_fit-append zero a b fits = refl
  frames_fit-append (suc n) a b fits = elim (Option-cases (split_at header a)) [
    | inl none_found ↦ rw none_found refl
    | inr ((before, after), found) ↦ rw found (elim (Option-cases (split_at bell after)) [
      | inl endless ↦
          let on = rw (split_at-append header a b before after found) at fits in
          rw endless (ground (arith, fits_unterminated decode after b n endless on))
      | inr ((payload, rest), ended) ↦
          let on = rw (split_at-append header a b before after found) at fits in
          let past = rw (split_at-append bell after b payload rest ended) at on in
          let short =
            and_left (leb (length (header ++ payload)) max_carry) (frames_fit n (rest ++ b)) past in
          let later =
            and_right (leb (length (header ++ payload)) max_carry) (frames_fit n (rest ++ b))
              past in
          rw (ended, short) (frames_fit-append n rest b later)
    ])
  ]

  and_then-end :
      (r : Captured) → and_then r (record { visible = []; lines = []; carry = r.carry }) ≡ r
  and_then-end r =
      ap (λ (q : Text × List Text). record { visible = q.0; lines = q.1; carry = r.carry })
        (ap₂ (λ v l. (v, l)) (append-nil r.visible) (append-nil r.lines))

  and_then_assoc : (q r t : Captured) → and_then q (and_then r t) ≡ and_then (and_then q r) t
  and_then_assoc q r t =
      ap₂ (λ v l. record { visible = v; lines = l; carry = t.carry })
        (sym (append_assoc q.visible r.visible t.visible))
        (sym (append_assoc q.lines r.lines t.lines))

  capture_all-scan :
      (n : ℕ) (a : Text) (pieces : List Text)
      → length (a ++ flat pieces) < n
      → frames_fit n (a ++ flat pieces) ≡ true
      → and_then (scan decode n a) (capture_all decode (scan decode n a).carry pieces)
        ≡ scan decode n (a ++ flat pieces)
  unfolding capture_all capture_history
  capture_all-scan n a [] h fits =
      and_then-end (scan decode n a) ∙ ap (scan decode n) (sym (append-nil a))
  capture_all-scan n a (d ∷ ds) h fits =
      let r = scan decode n a in
      let whole = append_assoc a d (flat ds) in
      let carried = length-carry decode n a in
      let q : scan decode (suc (length (r.carry ++ d))) (r.carry ++ d)
          ≡ scan decode n (r.carry ++ d) =
        scan_fuel decode (suc (length (r.carry ++ d))) n (r.carry ++ d) (omega arith) (
          omega (
            arith,
            length-append r.carry d,
            length-append a (d ++ flat ds),
            length-append d (flat ds),
          )) in
      let fits_first = frames_fit-append n (a ++ d) (flat ds) (rw (← whole) at fits) in
      let joined : scan decode n (a ++ d) ≡ and_then r (scan decode n (r.carry ++ d)) =
        scan-append n a d
          (omega
            (arith, length-append a d, length-append a (d ++ flat ds), length-append d (flat ds)))
          fits_first in
      ap (λ x. and_then r (and_then x (capture_all decode x.carry ds))) q
      ∙ and_then_assoc r (scan decode n (r.carry ++ d))
          (capture_all decode (scan decode n (r.carry ++ d)).carry ds)
      ∙ ap (λ x. and_then x (capture_all decode x.carry ds)) (sym joined)
      ∙ capture_all-scan n (a ++ d) ds (rw (← whole) at h) (rw (← whole) at fits)
      ∙ ap (scan decode n) whole

  -- However the output of a shell is cut into pieces, what is shown of it, the command lines, and what
  -- is held back in the end are those of the output as a whole, given that no frame in it is longer than
  -- 8192 characters.
  pub capture_all-eq-capture_history :
      (pieces : List Text)
      → frames_fit (suc (length (flat pieces))) (flat pieces) ≡ true
      → capture_all decode [] pieces ≡ capture_history decode [] (flat pieces)
  unfolding capture_history
  capture_all-eq-capture_history pieces fits =
      ap (λ r. and_then r (capture_all decode r.carry pieces))
        (sym (scan_empty (length (flat pieces))))
      ∙ capture_all-scan (suc (length (flat pieces))) [] pieces (omega arith) fits
    where
      scan_empty : (n : ℕ) → scan decode (suc n) [] ≡ shown []
      scan_empty n = scan_plain n [] refl ∙ held-nil
