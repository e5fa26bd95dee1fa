-- ===== src/Prelude/Assoc.antt =====
-- A JavaScript `Map`, or an object used as one, under texts: a list of keys and values.
use mathlib.Core.Path.{subst, ◌≡◌, refl, ap, sym}
use mathlib.Core.Logic.{inl, inr}
use mathlib.Core.Bool.{Bool, true, not}
use mathlib.Core.Option.{Option, none, some}
use mathlib.Core.List.{List, [], ◌∷◌}
use native.Mathlib.Omega.{arith}
use git_pigeon.Prelude.Numbers.{if◌then◌else◌, Bool-cases}
use git_pigeon.Prelude.Result.{some_injective}
use git_pigeon.Prelude.Lists.{All, filter}
use git_pigeon.Prelude.Text.{Text, text_eq, text_eq→eq, text_eq_refl}

abbrev pub Assoc {ℓ} : Type ℓ → Type ℓ
Assoc A = List (Text × A)

same_left : (k key other : Text) → text_eq k key ≡ true → text_eq k other ≡ text_eq key other
same_left k key other h = ap (λ t. text_eq t other) (text_eq→eq k key h)

same_right : (k key other : Text) → text_eq key other ≡ true → text_eq k key ≡ text_eq k other
same_right k key other h = ap (text_eq k) (text_eq→eq key other h)

same_test : (test : Text → Bool) (k key : Text) → text_eq k key ≡ true → test k ≡ test key
same_test test k key h = ap test (text_eq→eq k key h)

module _ {ℓ} {A : Type ℓ} where
  unfoldable pub get : Text → Assoc A → Option A
  get key [] = none
  get key ((k, a) ∷ m) = let rest = get key m in if text_eq k key then some a else rest

  -- A key that is there keeps its place.
  unfoldable pub put : Text → A → Assoc A → Assoc A
  put key a [] = (key, a) ∷ []
  put key a ((k, b) ∷ m) =
      let rest = put key a m in if text_eq k key then (k, a) ∷ m else (k, b) ∷ rest

  unfoldable pub remove_if : (Text → Bool) → Assoc A → Assoc A
  remove_if test m = filter (λ e. not (test e.0)) m

  unfoldable pub remove : Text → Assoc A → Assoc A
  unfolding remove_if
  remove key m = remove_if (λ k. text_eq k key) m

  pub get-put :
      (key other : Text) (a : A) (m : Assoc A)
      → get other (put key a m) ≡ (if text_eq key other then some a else get other m)
  unfolding get put
  get-put key other a [] = refl
  get-put key other a ((k, b) ∷ m) =
      ground (arith, get-put key other a m, same_left k key other, same_right k key other)

  pub get-put_self : (key : Text) (a : A) (m : Assoc A) → get key (put key a m) ≡ some a
  get-put_self key a m = ground (arith, get-put key key a m, text_eq_refl key)

  pub get-remove_if :
      (test : Text → Bool) (key : Text) (m : Assoc A)
      → get key (remove_if test m) ≡ (if test key then none else get key m)
  unfolding get remove_if filter
  get-remove_if test key [] = ground arith
  get-remove_if test key ((k, b) ∷ m) =
      ground (arith, get-remove_if test key m, same_test test k key)

  pub All-put {κ} :
      (P : Text × A → Type κ) (key : Text) (a : A) (m : Assoc A)
      → ((k : Text) → P (k, a))
      → All P m
      → All P (put key a m)
  unfolding put
  All-put P key a [] h k = (h key, tt)
  All-put P key a ((j, b) ∷ m) h k = elim (Bool-cases (text_eq j key)) [
    | inl here ↦ rw here (h j, k.1)
    | inr other ↦ rw other (k.0, All-put P key a m h k.1)
  ]

  pub All-put_at {κ} :
      (P : Text × A → Type κ) (key : Text) (a : A) (m : Assoc A)
      → P (key, a)
      → All P m
      → All P (put key a m)
  unfolding put
  All-put_at P key a [] h k = (h, tt)
  All-put_at P key a ((j, b) ∷ m) h k = elim (Bool-cases (text_eq j key)) [
    | inl here ↦ rw here (subst (λ i. P (i, a)) (sym (text_eq→eq j key here)) h, k.1)
    | inr other ↦ rw other (k.0, All-put_at P key a m h k.1)
  ]

  pub All-remove_if {κ} :
      (P : Text × A → Type κ) (test : Text → Bool) (m : Assoc A)
      → All P m
      → All P (remove_if test m)
  unfolding remove_if filter
  All-remove_if P test [] k = tt
  All-remove_if P test ((j, b) ∷ m) k = elim (Bool-cases (test j)) [
    | inl gone ↦ rw gone (All-remove_if P test m k.1)
    | inr kept ↦ rw kept (k.0, All-remove_if P test m k.1)
  ]

  pub All-get {κ} :
      (P : A → Type κ) (key : Text) (a : A) (m : Assoc A)
      → All (λ e. P e.1) m
      → get key m ≡ some a
      → P a
  unfolding get
  All-get P key a [] k h = absurd (ground arith)
  All-get P key a ((j, b) ∷ m) k h = elim (Bool-cases (text_eq j key)) [
    | inl here ↦ rw (sym (some_injective (rw here at h))) k.0
    | inr other ↦ All-get P key a m k.1 (rw other at h)
  ]
