-- ===== src/Prelude/Members.antt =====
-- `new Set(texts).has(s)`, and how it goes with what builds the list of texts.
use mathlib.Core.Path.{◌≡◌, refl, ap}
use mathlib.Core.Logic.{inl, inr}
use mathlib.Core.Bool.{Bool, true, false, not, ◌&&◌, ◌&&◌, ◌||◌}
use mathlib.Core.List.{List, [], ◌∷◌, ◌++◌, map}
use native.Mathlib.Omega.{arith}
use git_pigeon.Prelude.Numbers.{Bool-cases}
use git_pigeon.Prelude.Lists.{filter, flat}
use git_pigeon.Prelude.Text.{Text, text_eq, text_eq→eq, text_eq_refl, text_eq_comm, contains}

pub contains-append :
    (s : Text) (xs ys : List Text) → contains s (xs ++ ys) ≡ (contains s xs || contains s ys)
unfolding contains
contains-append s [] ys = refl
contains-append s (x ∷ xs) ys = ground (arith, contains-append s xs ys)

same_test : (test : Text → Bool) (s t : Text) → text_eq s t ≡ true → test s ≡ test t
same_test test s t h = ap test (text_eq→eq s t h)

pub contains-filter :
    (test : Text → Bool) (s : Text) (xs : List Text)
    → contains s (filter test xs) ≡ (contains s xs && test s)
unfolding contains filter
contains-filter test s [] = refl
contains-filter test s (x ∷ xs) = ground (arith, contains-filter test s xs, same_test test s x)

pub contains-flat :
    (of : Text → List Text) (s id : Text) (ids : List Text)
    → contains id ids ≡ true
    → contains s (of id) ≡ true
    → contains s (flat (map of ids)) ≡ true
unfolding contains
contains-flat of s id [] h c = cc
contains-flat of s id (x ∷ xs) h c = ground (
  arith,
  contains-flat of s id xs,
  contains-append s (of x) (flat (map of xs)),
  same_test (λ i. contains s (of i)) id x,
)

pub contains-flat_inv :
    (of : Text → List Text) (s : Text) (ids : List Text)
    → contains s (flat (map of ids)) ≡ true
    → (id : Text) × (contains id ids ≡ true) × (contains s (of id) ≡ true)
unfolding contains
contains-flat_inv of s [] h = absurd (ground arith)
contains-flat_inv of s (x ∷ xs) h = elim (Bool-cases (contains s (of x))) [
  | inl here ↦ (x, ground (arith, text_eq_refl x), here)
  | inr elsewhere ↦
      let rest =
        contains-flat_inv of s xs (ground (arith, contains-append s (of x) (flat (map of xs)))) in
      (rest.0, ground arith, rest.2)
]

-- No text is in the list twice.
unfoldable pub is_unique : List Text → Bool
is_unique [] = true
is_unique (s ∷ ss) = not (contains s ss) && is_unique ss

pub is_unique-append_one :
    (s : Text) (xs : List Text)
    → is_unique xs ≡ true
    → contains s xs ≡ false
    → is_unique (xs ++ (s ∷ [])) ≡ true
unfolding is_unique contains
is_unique-append_one s [] h c = refl
is_unique-append_one s (x ∷ xs) h c =
    ground (arith, is_unique-append_one s xs, contains-append x xs (s ∷ []), text_eq_comm x s)
