-- ===== src/Prelude/Sorting.antt =====
-- `Array.prototype.sort`, which is stable: `before y x` tells that the comparison puts y before x.
use Prim.Native.Nat.{suc}
use mathlib.Core.Path.{◌≡◌, refl, ap, sym, ◌∙◌}
use mathlib.Core.Bool.{Bool, not, ◌&&◌, ◌||◌}
use mathlib.Core.List.{List, [], ◌∷◌, map}
use native.Mathlib.Omega.{arith}
use mathlib.Core.Logic.{inl, inr}
use git_pigeon.Prelude.Numbers.{if◌then◌else◌, Bool-cases}
use git_pigeon.Prelude.Lists.{All, length}
use git_pigeon.Prelude.Text.{Text, text_eq, text_eq_comm, contains}
use git_pigeon.Prelude.Members.{is_unique}

module _ {ℓ} {A : Type ℓ} (before : A → A → Bool) where
  unfoldable pub insert_by : A → List A → List A
  insert_by x [] = x ∷ []
  insert_by x (y ∷ ys) = let rest = insert_by x ys in if before y x then y ∷ rest else x ∷ y ∷ ys

  unfoldable pub sort_by : List A → List A
  unfolding insert_by
  sort_by [] = []
  sort_by (x ∷ xs) = insert_by x (sort_by xs)

  length-insert_by : (x : A) (xs : List A) → length (insert_by x xs) ≡ suc (length xs)
  unfolding insert_by
  length-insert_by x [] = refl
  length-insert_by x (y ∷ ys) = ground (arith, length-insert_by x ys)

  pub length-sort_by : (xs : List A) → length (sort_by xs) ≡ length xs
  unfolding sort_by
  length-sort_by [] = refl
  length-sort_by (x ∷ xs) = length-insert_by x (sort_by xs) ∙ ap suc (length-sort_by xs)

  pub All-insert_by {κ} :
      (P : A → Type κ) (x : A) (xs : List A) → P x → All P xs → All P (insert_by x xs)
  unfolding insert_by
  All-insert_by P x [] h k = (h, tt)
  All-insert_by P x (y ∷ ys) h k = elim (Bool-cases (before y x)) [
    | inl first ↦ rw first (k.0, All-insert_by P x ys h k.1)
    | inr later ↦ rw later ((h, (k.0, k.1)))
  ]

  -- What holds of every element still does.
  pub All-sort_by {κ} : (P : A → Type κ) (xs : List A) → All P xs → All P (sort_by xs)
  unfolding sort_by
  All-sort_by P [] h = tt
  All-sort_by P (x ∷ xs) h = All-insert_by P x (sort_by xs) h.0 (All-sort_by P xs h.1)

  -- The texts that stand for the elements.
  module _ (f : A → Text) where
    contains-insert_by :
        (s : Text) (x : A) (xs : List A)
        → contains s (map f (insert_by x xs)) ≡ contains s (map f (x ∷ xs))
    unfolding insert_by contains
    contains-insert_by s x [] = refl
    contains-insert_by s x (y ∷ ys) = ground (arith, contains-insert_by s x ys)

    pub contains-sort_by :
        (s : Text) (xs : List A) → contains s (map f (sort_by xs)) ≡ contains s (map f xs)
    unfolding sort_by contains
    contains-sort_by s [] = refl
    contains-sort_by s (x ∷ xs) =
        contains-insert_by s x (sort_by xs) ∙ ap (λ b. text_eq s (f x) || b) (contains-sort_by s xs)

    is_unique-insert_by :
        (x : A) (xs : List A) → is_unique (map f (insert_by x xs)) ≡ is_unique (map f (x ∷ xs))
    unfolding insert_by is_unique contains
    is_unique-insert_by x [] = refl
    is_unique-insert_by x (y ∷ ys) =
        ground
          (arith, is_unique-insert_by x ys, contains-insert_by (f y) x ys, text_eq_comm (f y) (f x))

    pub is_unique-sort_by : (xs : List A) → is_unique (map f (sort_by xs)) ≡ is_unique (map f xs)
    unfolding sort_by is_unique
    is_unique-sort_by [] = refl
    is_unique-sort_by (x ∷ xs) =
        is_unique-insert_by x (sort_by xs)
        ∙ ap (λ b. not b && is_unique (map f (sort_by xs))) (contains-sort_by (f x) xs)
        ∙ ap (λ b. not (contains (f x) (map f xs)) && b) (is_unique-sort_by xs)

map_self {ℓ} : {A : Type ℓ} (xs : List A) → map (λ x. x) xs ≡ xs
map_self [] = refl
map_self (x ∷ xs) = ap (◌∷◌ x) (map_self xs)

pub contains-sort_by_self :
    (before : Text → Text → Bool) (s : Text) (xs : List Text)
    → contains s (sort_by before xs) ≡ contains s xs
contains-sort_by_self before s xs =
    ap (contains s) (sym (map_self (sort_by before xs)))
    ∙ contains-sort_by before (λ x. x) s xs
    ∙ ap (contains s) (map_self xs)
