-- ===== src/Prelude/Search.antt =====
-- `startsWith`, `indexOf` and `lastIndexOf` of a text, as the parts around what is found.
use Prim.Native.Nat.{ℕ, zero, suc, ◌+◌, ◌≤◌}
use mathlib.Core.Path.{◌≡◌, refl, ap, sym, ◌∙◌}
use mathlib.Core.Logic.{◌⊎◌, inl, inr}
use mathlib.Core.Bool.{Bool, true, false, ◌&&◌}
use mathlib.Core.Option.{Option, none, some}
use mathlib.Core.List.{[], ◌∷◌, ◌++◌}
use native.Mathlib.Omega.{arith}
use git_pigeon.Prelude.Numbers.{◌==◌, if◌then◌else◌, Bool-cases}
use git_pigeon.Prelude.Lists.{length, drop, length-drop}
use git_pigeon.Prelude.Result.{some_injective}
use git_pigeon.Prelude.Text.{Text}

-- `s.startsWith(p)`
unfoldable pub is_prefix : Text → Text → Bool
is_prefix [] s = true
is_prefix (c ∷ p) [] = false
is_prefix (c ∷ p) (d ∷ s) = c == d && is_prefix p s

abbrev pub pushed : ℕ → Option (Text × Text) → Option (Text × Text)
pushed c none = none
pushed c (some (before, after)) = some (c ∷ before, after)

-- `s.indexOf(p)`, for a pattern that is not empty: the texts before and after the first place.
unfoldable pub split_at : Text → Text → Option (Text × Text)
unfolding is_prefix
split_at p [] = none
split_at p (c ∷ s) =
    let rest = split_at p s in
    if is_prefix p (c ∷ s) then some ([], drop (length p) (c ∷ s)) else pushed c rest

abbrev pub last_from : ℕ → ℕ → Text → Option (Text × Text) → Option (Text × Text)
last_from c d s (some (before, from)) = some (d ∷ before, from)
last_from c d s none = if d == c then some ([], d ∷ s) else none

-- `s.lastIndexOf(c)`, for one code unit: the texts before the last place, and from it on.
unfoldable pub split_last : ℕ → Text → Option (Text × Text)
split_last c [] = none
split_last c (d ∷ s) = last_from c d s (split_last c s)

-- Whether the two texts agree, as far as both go.
unfoldable pub agrees : Text → Text → Bool
agrees [] s = true
agrees (c ∷ p) [] = true
agrees (c ∷ p) (d ∷ s) = c == d && agrees p s

pub agrees-append : (p s t : Text) → agrees p s ≡ false → agrees p (s ++ t) ≡ false
unfolding agrees
agrees-append [] s t h = cc
agrees-append (c ∷ p) [] t h = cc
agrees-append (c ∷ p) (d ∷ s) t h = ground (arith, agrees-append p s t)

pub agrees-is_prefix :
    (p s : Text) → agrees p s ≡ false → (is_prefix p s ≡ false) × (is_prefix s p ≡ false)
unfolding agrees is_prefix
agrees-is_prefix [] s h = cc
agrees-is_prefix (c ∷ p) [] h = cc
agrees-is_prefix (c ∷ p) (d ∷ s) h = ground (arith, agrees-is_prefix p s)

pub is_prefix-agrees :
    (p s : Text) → is_prefix p s ≡ false → is_prefix s p ≡ false → agrees p s ≡ false
unfolding agrees is_prefix
is_prefix-agrees [] s h k = cc
is_prefix-agrees (c ∷ p) [] h k = cc
is_prefix-agrees (c ∷ p) (d ∷ s) h k = ground (arith, is_prefix-agrees p s)

pub is_prefix-append : (p s t : Text) → is_prefix p s ≡ true → is_prefix p (s ++ t) ≡ true
unfolding is_prefix
is_prefix-append [] s t h = refl
is_prefix-append (c ∷ p) [] t h = cc
is_prefix-append (c ∷ p) (d ∷ s) t h = ground (arith, is_prefix-append p s t)

pub is_prefix-append_self : (p t : Text) → is_prefix p (p ++ t) ≡ true
unfolding is_prefix
is_prefix-append_self [] t = refl
is_prefix-append_self (c ∷ p) t = ground (arith, is_prefix-append_self p t)

pub is_prefix-append_inv :
    (p s t : Text) → length p ≤ length s → is_prefix p (s ++ t) ≡ true → is_prefix p s ≡ true
unfolding is_prefix
is_prefix-append_inv [] s t h k = refl
is_prefix-append_inv (c ∷ p) [] t h k = absurd (omega arith)
is_prefix-append_inv (c ∷ p) (d ∷ s) t h k = ground (arith, is_prefix-append_inv p s t)

pub length-is_prefix : (p s : Text) → is_prefix p s ≡ true → length p ≤ length s
unfolding is_prefix
length-is_prefix [] s h = omega arith
length-is_prefix (c ∷ p) [] h = cc
length-is_prefix (c ∷ p) (d ∷ s) h = ground (arith, length-is_prefix p s)

pub drop-append_short : (n : ℕ) (s t : Text) → n ≤ length s → drop n (s ++ t) ≡ drop n s ++ t
drop-append_short zero s t h = refl
drop-append_short (suc n) [] t h = absurd (omega arith)
drop-append_short (suc n) (c ∷ s) t h = drop-append_short n s t (omega arith)

pub drop-length_append : (p t : Text) → drop (length p) (p ++ t) ≡ t
drop-length_append [] t = refl
drop-length_append (c ∷ p) t = drop-length_append p t

pub pushed-eq-none : (c : ℕ) (o : Option (Text × Text)) → pushed c o ≡ none → o ≡ none
pushed-eq-none c none h = refl
pushed-eq-none c (some (before, after)) h = cc

pub pushed-eq-some :
    (c : ℕ) (o : Option (Text × Text)) {before after : Text}
    → pushed c o ≡ some (before, after)
    → (rest : Text) × (before ≡ c ∷ rest) × (o ≡ some (rest, after))
pushed-eq-some c none h = cc
pushed-eq-some c (some (rest, found)) h =
    let same : ◌≡◌ {A = Text × Text} (c ∷ rest, found) _ = some_injective h in
    (rest, sym (ap (λ r. r.0) same), ap (λ a. some (rest, a)) (ap (λ r. r.1) same))

split_at-nil : (p : Text) {before after : Text} → ¬ (split_at p [] ≡ some (before, after))
unfolding split_at
split_at-nil p h = cc

not_prefix :
    (p : Text) (c : ℕ) (s t : Text)
    → is_prefix p (c ∷ s) ≡ false
    → length p ≤ length s
    → is_prefix p ((c ∷ s) ++ t) ≡ false
not_prefix p c s t h k = elim (Bool-cases (is_prefix p ((c ∷ s) ++ t))) [
  | inl here ↦ absurd (true_ne (sym (is_prefix-append_inv p (c ∷ s) t (omega arith) here) ∙ h))
  | inr later ↦ later
]
  where
    true_ne : ¬ (true ≡ false)
    true_ne e = cc

pub split_at-eq-none :
    (p : Text) (c : ℕ) (s : Text)
    → split_at p (c ∷ s) ≡ none
    → (is_prefix p (c ∷ s) ≡ false) × (split_at p s ≡ none)
unfolding split_at
split_at-eq-none p c s h = elim (Bool-cases (is_prefix p (c ∷ s))) [
  | inl here ↦ absurd (ground (arith, rw here at h))
  | inr later ↦ (later, pushed-eq-none c (split_at p s) (rw later at h))
]

-- A pattern is found at the front, or in the rest.
pub split_at-eq-some :
    (p : Text) (c : ℕ) (s : Text) (before after : Text)
    → split_at p (c ∷ s) ≡ some (before, after)
    → ((is_prefix p (c ∷ s) ≡ true) × (before ≡ []) × (after ≡ drop (length p) (c ∷ s)))
      ⊎ ((is_prefix p (c ∷ s) ≡ false)
          × (rest : Text) × (before ≡ c ∷ rest)
          × (split_at p s ≡ some (rest, after)))
unfolding split_at
split_at-eq-some p c s before after h = elim (Bool-cases (is_prefix p (c ∷ s))) [
  | inl here ↦
      let same : ◌≡◌ {A = Text × Text} ([], drop (length p) (c ∷ s)) (before, after) =
        some_injective (rw here at h) in
      inl (here, sym (ap (λ r. r.0) same), sym (ap (λ r. r.1) same))
  | inr later ↦
      let (front, e, found) = pushed-eq-some c (split_at p s) (rw later at h) in
      inr (later, front, e, found)
]

-- What is found comes after a text and the pattern.
pub length-split_at :
    (p s : Text) (before after : Text)
    → split_at p s ≡ some (before, after)
    → length before + length p + length after ≡ length s
length-split_at p [] before after h = absurd (split_at-nil p h)
length-split_at p (c ∷ s) before after h = elim (split_at-eq-some p c s before after h) [
  | inl (here, first, rest) ↦
      rw (first, rest)
        (ground (arith, length-drop (length p) (c ∷ s), length-is_prefix p (c ∷ s) here))
  | inr (later, front, e, found) ↦ rw e (ground (arith, length-split_at p s front after found))
]

-- What is found in a text is found in the same place when the text goes on.
pub split_at-append :
    (p s t : Text) (before after : Text)
    → split_at p s ≡ some (before, after)
    → split_at p (s ++ t) ≡ some (before, after ++ t)
unfolding split_at
split_at-append p [] t before after h = absurd (split_at-nil p h)
split_at-append p (c ∷ s) t before after h = elim (split_at-eq-some p c s before after h) [
  | inl (here, first, rest) ↦
      rw
        (
          is_prefix-append p (c ∷ s) t here,
          drop-append_short (length p) (c ∷ s) t (length-is_prefix p (c ∷ s) here),
          first,
          rest,
        )
        refl
  | inr (later, front, e, found) ↦
      let no_room = length-split_at p s front after found in
      rw (not_prefix p c s t later (omega arith), e, split_at-append p s t front after found) refl
]

-- A pattern that is at the front is found there.
pub split_at-append_self : (c : ℕ) (p t : Text) → split_at (c ∷ p) ((c ∷ p) ++ t) ≡ some ([], t)
unfolding split_at
split_at-append_self c p t =
    rw (is_prefix-append_self (c ∷ p) t) (ap (λ a. some ([], a)) (drop-length_append (c ∷ p) t))
