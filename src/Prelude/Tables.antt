-- ===== src/Prelude/Tables.antt =====
-- The size of a map, whose keys are distinct.
use Prim.Native.Nat.{◌+◌}
use mathlib.Core.Path.{◌≡◌, refl, subst}
use mathlib.Core.Logic.{inl, inr}
use mathlib.Core.Bool.{Bool, not}
use mathlib.Core.Option.{none}
use mathlib.Core.List.{[], ◌∷◌}
use native.Mathlib.Omega.{arith}
use git_pigeon.Prelude.Numbers.{if◌then◌else◌, Bool-cases, is_some}
use git_pigeon.Prelude.Lists.{length, filter}
use git_pigeon.Prelude.Text.{Text, text_eq, text_eq_comm, text_eq→eq}
use git_pigeon.Prelude.Assoc.{Assoc, get, put, remove, remove_if, get-put}

module _ {A : Type 0} where
  -- No key stands twice.
  unfoldable pub Distinct : Assoc A → Type 0
  Distinct [] = Unit {0}
  Distinct ((k, a) ∷ m) = (get k m ≡ none) × Distinct m

  pub get-filter :
      (test : Text × A → Bool) (key : Text) (m : Assoc A)
      → get key m ≡ none
      → get key (filter test m) ≡ none
  unfolding get filter
  get-filter test key [] h = refl
  get-filter test key ((k, a) ∷ m) h = ground (arith, h, get-filter test key m)

  pub filter-Distinct :
      (test : Text × A → Bool) (m : Assoc A) → Distinct m → Distinct (filter test m)
  unfolding Distinct filter
  filter-Distinct test [] h = tt
  filter-Distinct test ((k, a) ∷ m) (h, t) = elim (Bool-cases (test (k, a))) [
    | inl e ↦ rw e (get-filter test k m h, filter-Distinct test m t)
    | inr e ↦ rw e (filter-Distinct test m t)
  ]

  pub put-Distinct : (key : Text) (a : A) (m : Assoc A) → Distinct m → Distinct (put key a m)
  unfolding Distinct put get
  put-Distinct key a [] h = (refl, tt)
  put-Distinct key a ((k, b) ∷ m) (h, t) = elim (Bool-cases (text_eq k key)) [
    | inl e ↦ rw e (h, t)
    | inr e ↦
        rw e (ground (arith, get-put key k a m, e, h, text_eq_comm k key), put-Distinct key a m t)
  ]

  pub length-put :
      (key : Text) (a : A) (m : Assoc A)
      → length (put key a m) ≡ (if is_some (get key m) then length m else length m + 1)
  unfolding put get
  length-put key a [] = refl
  length-put key a ((k, b) ∷ m) = ground (arith, length-put key a m, text_eq_comm k key)

  pub length-filter-split :
      (test : Text × A → Bool) (m : Assoc A)
      → length (filter (λ e. not (test e)) m) + length (filter test m) ≡ length m
  unfolding filter
  length-filter-split test [] = refl
  length-filter-split test (e ∷ m) = ground (arith, length-filter-split test m)

  remove_absent : (key : Text) (m : Assoc A) → get key m ≡ none → length (remove key m) ≡ length m
  unfolding remove remove_if filter get
  remove_absent key [] h = refl
  remove_absent key ((k, a) ∷ m) h = ground (arith, h, remove_absent key m, text_eq_comm k key)

  pub length-remove :
      (key : Text) (m : Assoc A)
      → Distinct m
      → length (remove key m) + (if is_some (get key m) then 1 else 0) ≡ length m
  unfolding remove remove_if filter get Distinct
  length-remove key [] h = refl
  length-remove key ((k, a) ∷ m) (h, t) = elim (Bool-cases (text_eq k key)) [
    | inl e ↦
        ground
          (arith, e, h, remove_absent key m, subst (λ j. get j m ≡ none) (text_eq→eq k key e) h)
    | inr e ↦ ground (arith, e, length-remove key m t)
  ]

  pub remove-Distinct : (key : Text) (m : Assoc A) → Distinct m → Distinct (remove key m)
  unfolding remove remove_if
  remove-Distinct key m h = filter-Distinct (λ e. not (text_eq e.0 key)) m h
