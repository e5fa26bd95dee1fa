-- ===== src/Terminal/Capture/Pieces.antt =====
-- src/terminal-server.js, `#captureHistory`: output that comes in two pieces.
use git_pigeon.Prelude.{
  ℕ, suc, ◌≡◌, refl, sym, ap, ◌∙◌, inl, inr, Bool, true, false, not, ◌&&◌, ◌==◌, Option, none, some,
  [], ◌∷◌, ◌++◌, arith, length, leb, ltb, Bool-cases, and_left, and_right,
}
use mathlib.Core.List.{append-nil}
use git_pigeon.Prelude.Text.{Text, text}
use git_pigeon.Prelude.Search.{
  is_prefix, split_at, split_last, last_from, agrees, agrees-append, agrees-is_prefix,
  is_prefix-agrees, split_at-eq-none, pushed, length-is_prefix,
}
use git_pigeon.Terminal.Capture.{
  header, bell, max_carry, Captured, shown, held_at, held, at_frame, one_turn, scan, and_then,
}

-- There is one escape character in the header, at its front.
unfoldable lacks : ℕ → Text → Bool
lacks c [] = true
lacks c (d ∷ s) = not (d == c) && lacks c s

split_last-eq-none :
    (c : ℕ) (s p : Text) → lacks c p ≡ true → is_prefix s p ≡ true → split_last c s ≡ none
unfolding lacks is_prefix split_last
split_last-eq-none c [] p l h = refl
split_last-eq-none c (d ∷ s) [] l h = cc
split_last-eq-none c (d ∷ s) (e ∷ p) l h = ground (arith, split_last-eq-none c s p)

abbrev pub header_tail : Text
header_tail = text "]777;gitpigeon-hist;"

escape_first :
    (c : ℕ) (s : Text)
    → is_prefix (c ∷ s) header ≡ true
    → (c == 27 ≡ true) × (is_prefix s header_tail ≡ true)
unfolding is_prefix
escape_first c s h = (
  and_left (c == 27) (is_prefix s header_tail) h,
  and_right (c == 27) (is_prefix s header_tail) h,
)

-- A tail that could be the start of a frame is held back as a whole.
pub held-prefix :
    (c : ℕ) (s : Text)
    → is_prefix (c ∷ s) header ≡ true
    → held (c ∷ s) ≡ record { visible = []; lines = []; carry = c ∷ s }
unfolding held split_last lacks
held-prefix c s h =
    let (escape, rest) = escape_first c s h in
    let short : leb (length (c ∷ s)) (length header) ≡ true =
      ground (arith, length-is_prefix (c ∷ s) header h) in
    rw (split_last-eq-none 27 s header_tail refl rest) (rw escape (rw (short, h) refl))

pub held-nil : held [] ≡ shown []
unfolding held split_last
held-nil = refl

held_at-cons :
    (c : ℕ) (s : Text) (o : Option (Text × Text))
    → is_prefix (c ∷ s) header ≡ false
    → held_at (c ∷ s) (last_from 27 c s o) ≡ and_then (shown (c ∷ [])) (held_at s o)
held_at-cons c s (some (before, from)) h =
    elim (Bool-cases (leb (length from) (length header) && is_prefix from header)) [
      | inl start ↦ rw start refl
      | inr other ↦ rw other refl
    ]
held_at-cons c s none h = elim (Bool-cases (c == 27)) [
  | inl escape ↦ rw (escape, h) (ground arith)
  | inr other ↦ rw other refl
]

pub held-cons :
    (c : ℕ) (s : Text)
    → is_prefix (c ∷ s) header ≡ false
    → held (c ∷ s) ≡ and_then (shown (c ∷ [])) (held s)
unfolding held split_last
held-cons c s h = held_at-cons c s (split_last 27 s) h

module _ (decode : Text → Text) where
  pub at_frame-before :
      (next : Text → Captured) (before after : Text) (o : Option (Text × Text))
      → at_frame decode next before after o
        ≡ and_then (shown before) (at_frame decode next [] after o)
  at_frame-before next before after (some (payload, rest)) = refl
  at_frame-before next before after none =
      elim (Bool-cases (ltb max_carry (length (header ++ after)))) [
        | inl long ↦ rw long refl
        | inr short ↦ rw short (
            ap (λ v. record { visible = v; lines = []; carry = header ++ after })
              (sym (append-nil before)))
      ]

  one_turn-cons :
      (next : Text → Captured) (c : ℕ) (s : Text) (o : Option (Text × Text))
      → is_prefix (c ∷ s) header ≡ false
      → one_turn decode next (c ∷ s) (pushed c o)
        ≡ and_then (shown (c ∷ [])) (one_turn decode next s o)
  one_turn-cons next c s none h = held-cons c s h
  one_turn-cons next c s (some (before, after)) h =
      at_frame-before next (c ∷ before) after (split_at bell after)
      ∙ ap (and_then (shown (c ∷ [])))
          (sym (at_frame-before next before after (split_at bell after)))

  -- A character that no frame starts with is shown.
  scan-cons :
      (n : ℕ) (c : ℕ) (s : Text)
      → agrees header (c ∷ s) ≡ false
      → scan decode (suc n) (c ∷ s) ≡ and_then (shown (c ∷ [])) (scan decode (suc n) s)
  unfolding scan split_at
  scan-cons n c s h =
      let (no_frame, no_start) = agrees-is_prefix header (c ∷ s) h in
      rw no_frame (one_turn-cons (scan decode n) c s (split_at header s) no_start)

  -- A first piece without a frame's header in it.
  pub scan-held :
      (n : ℕ) (a b : Text)
      → split_at header a ≡ none
      → scan decode (suc n) (a ++ b) ≡ and_then (held a) (scan decode (suc n) ((held a).carry ++ b))
  scan-held n [] b h = rw held-nil refl
  scan-held n (c ∷ a) b h =
      let (no_frame, rest) = split_at-eq-none header c a h in
      elim (Bool-cases (is_prefix (c ∷ a) header)) [
        | inl start ↦ rw (held-prefix c a start) refl
        | inr other ↦ rw (held-cons c a other) (
            scan-cons n c (a ++ b)
              (agrees-append header (c ∷ a) b (is_prefix-agrees header (c ∷ a) no_frame other))
            ∙ ap (and_then (shown (c ∷ []))) (scan-held n a b rest))
      ]
