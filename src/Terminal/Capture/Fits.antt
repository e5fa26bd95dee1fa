-- ===== src/Terminal/Capture/Fits.antt =====
-- src/terminal-server.js, `#captureHistory`: the length of what is held back, and output whose frames are short enough.
use git_pigeon.Prelude.{
  ℕ, zero, suc, ◌≤◌, ◌<◌, ◌≡◌, refl, sym, ap, inl, inr, Bool, true, false, ◌&&◌, Option, none, some,
  [], ◌∷◌, ◌++◌, arith, length, length-append, leb, ltb, Bool-cases, Option-cases, and_right,
}
use mathlib.Core.List.{append_assoc}
use git_pigeon.Prelude.Text.{Text}
use git_pigeon.Prelude.Search.{
  is_prefix, split_at, length-split_at, split_at-append, split_at-eq-some, split_at-eq-none,
}
use git_pigeon.Terminal.Capture.{
  header, bell, max_carry, Captured, held, unterminated, past_frame, at_frame, scan, and_then,
}
use git_pigeon.Terminal.Capture.Pieces.{held-nil, held-prefix, held-cons}

-- Each frame in the text, up to its end or to that of the text, is short enough to be held back.
abbrev pub frame_fits : (Text → Bool) → Text → Option (Text × Text) → Bool
frame_fits next after none = leb (length (header ++ after)) max_carry
frame_fits next after (some (payload, rest)) =
    leb (length (header ++ payload)) max_carry && next rest

abbrev pub turn_fits : (Text → Bool) → Option (Text × Text) → Bool
turn_fits next none = true
turn_fits next (some (before, after)) = frame_fits next after (split_at bell after)

unfoldable pub frames_fit : ℕ → Text → Bool
unfolding split_at
frames_fit zero s = true
frames_fit (suc n) s = turn_fits (frames_fit n) (split_at header s)

pub length_after :
    (p s : Text) (before after : Text)
    → split_at p s ≡ some (before, after)
    → length after ≤ length s
length_after p s before after h = ground (arith, length-split_at p s before after h)

-- A bell that is found in the continuation comes after the whole of the beginning.
pub beginning-le-payload :
    (s t payload rest : Text)
    → split_at bell s ≡ none
    → split_at bell (s ++ t) ≡ some (payload, rest)
    → length s ≤ length payload
unfolding is_prefix
beginning-le-payload [] t payload rest h k = omega arith
beginning-le-payload (c ∷ s) t payload rest h k =
    let (other, later) = split_at-eq-none bell c s h in
    elim (split_at-eq-some bell c (s ++ t) payload rest k) [
      | inl (here, first, after) ↦ absurd (ground arith)
      | inr (elsewhere, front, e, found) ↦
          rw e (ground (arith, beginning-le-payload s t front rest later found))
    ]

-- The rest after a frame is shorter than the text.
pub length_rest :
    (s before after payload rest : Text)
    → split_at header s ≡ some (before, after)
    → split_at bell after ≡ some (payload, rest)
    → length rest < length s
length_rest s before after payload rest h k =
    ground
      (arith, length-split_at header s before after h, length-split_at bell after payload rest k)

pub length-held : (s : Text) → length (held s).carry ≤ length s
length-held [] = rw held-nil (omega arith)
length-held (c ∷ s) = elim (Bool-cases (is_prefix (c ∷ s) header)) [
  | inl start ↦ rw (held-prefix c s start) (omega arith)
  | inr other ↦ rw (held-cons c s other) (ground (arith, length-held s))
]

pub length-unterminated :
    (before frame : Text) → length (unterminated before frame).carry ≤ length frame
length-unterminated before frame = ground arith

module _ (decode : Text → Text) where
  pub scan_fuel :
      (n m : ℕ) (s : Text) → length s < n → length s < m → scan decode n s ≡ scan decode m s
  unfolding scan
  scan_fuel zero m s h k = absurd (omega arith)
  scan_fuel (suc n) zero s h k = absurd (omega arith)
  scan_fuel (suc n) (suc m) s h k = elim (Option-cases (split_at header s)) [
    | inl none_found ↦ rw none_found refl
    | inr ((before, after), found) ↦ rw found (elim (Option-cases (split_at bell after)) [
      | inl endless ↦ rw endless refl
      | inr ((payload, rest), ended) ↦
          let shorter = length_rest s before after payload rest found ended in
          rw ended
            (ap (past_frame decode before payload) (scan_fuel n m rest (omega arith) (omega arith)))
    ])
  ]

  pub length-carry : (n : ℕ) (s : Text) → length (scan decode n s).carry ≤ length s
  unfolding scan
  length-carry zero s = omega arith
  length-carry (suc n) s = elim (Option-cases (split_at header s)) [
    | inl none_found ↦ rw none_found (length-held s)
    | inr ((before, after), found) ↦ rw found (elim (Option-cases (split_at bell after)) [
      | inl endless ↦ rw endless (
          ground (
            arith,
            length-split_at header s before after found,
            length-unterminated before (header ++ after),
          ))
      | inr ((payload, rest), ended) ↦
          let shorter = length_rest s before after payload rest found ended in
          rw ended (ground (arith, length-carry n rest))
    ])
  ]

  pub fits_unterminated :
      (after b : Text) (n : ℕ)
      → split_at bell after ≡ none
      → frame_fits (frames_fit n) (after ++ b) (split_at bell (after ++ b)) ≡ true
      → ltb max_carry (length (header ++ after)) ≡ false
  fits_unterminated after b n endless fits = elim (Option-cases (split_at bell (after ++ b))) [
    | inl still ↦ ground (arith, rw still at fits, length-append after b)
    | inr ((payload, rest), ended) ↦
        ground (arith, rw ended at fits, beginning-le-payload after b payload rest endless ended)
  ]

  pub scan_at :
      (n : ℕ) (s before after : Text)
      → split_at header s ≡ some (before, after)
      → scan decode (suc n) s ≡ at_frame decode (scan decode n) before after (split_at bell after)
  unfolding scan
  scan_at n s before after h = rw h refl

  pub unterminated_short :
      (before frame : Text)
      → ltb max_carry (length frame) ≡ false
      → unterminated before frame ≡ record { visible = before; lines = []; carry = frame }
  unterminated_short before frame h = rw h refl

  pub past_frame-and_then :
      (before payload : Text) (r t : Captured)
      → past_frame decode before payload (and_then r t)
        ≡ and_then (past_frame decode before payload r) t
  past_frame-and_then before payload r t =
      ap
        (λ v. record {
          visible = v;
          lines = decode payload ∷ (r.lines ++ t.lines);
          carry = t.carry;
        })
        (sym (append_assoc before r.visible t.visible))

  pub fits_rest :
      (n : ℕ) (a b before after payload rest : Text)
      → split_at header a ≡ some (before, after)
      → split_at bell after ≡ some (payload, rest)
      → frames_fit (suc n) (a ++ b) ≡ true
      → frames_fit n (rest ++ b) ≡ true
  unfolding frames_fit
  fits_rest n a b before after payload rest found ended fits =
      let on = rw (split_at-append header a b before after found) at fits in
      let past = rw (split_at-append bell after b payload rest ended) at on in
      and_right (leb (length (header ++ payload)) max_carry) (frames_fit n (rest ++ b)) past
