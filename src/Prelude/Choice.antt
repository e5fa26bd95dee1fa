-- ===== src/Prelude/Choice.antt =====
-- A choice between two, met in any order: what remains after meeting a list of others one by one.
use mathlib.Core.Path.{◌≡◌, refl, sym, ap, ◌∙◌}
use mathlib.Core.Logic.{∥∥₁_elim}
use mathlib.Core.Option.{Option, none, some}
use mathlib.Core.List.{List, [], ◌∷◌, foldl, Perm, Permᴰ}
use mathlib.Core.Logic.{◌⊎◌, inl, inr}
use mathlib.Core.Bool.{Bool, true, false, not}
use native.Mathlib.Omega.{arith}
use git_pigeon.Prelude.Numbers.{if◌then◌else◌, Bool-cases}
use git_pigeon.Prelude.Lists.{All}

-- The choice of two elements that satisfy `Ok` is one of the kind, and neither the order nor the
-- grouping of the meetings counts.
pub record IsChoice {ℓ κ} {A : Type ℓ} (Ok : A → Type κ) (pick : A → A → A) : Type (ℓ ⊔ κ) where
  pub closed : (a b : A) → Ok a → Ok b → Ok (pick a b)
  pub comm : (a b : A) → Ok a → Ok b → pick a b ≡ pick b a
  pub assoc : (a b c : A) → Ok a → Ok b → Ok c → pick (pick a b) c ≡ pick a (pick b c)

-- What is held after meeting the others one by one.
abbrev pub settle {ℓ} : {A : Type ℓ} → (A → A → A) → A → List A → A
settle pick = foldl pick

module _ {ℓ κ} {A : Type ℓ} {Ok : A → Type κ} {pick : A → A → A} (c : IsChoice Ok pick) where
  All-Permᴰ : {xs ys : List A} → Permᴰ xs ys → All Ok xs → All Ok ys
  All-Permᴰ Permᴰ.nil h = tt
  All-Permᴰ (Permᴰ.cons e d) h = (rw (sym e) h.0, All-Permᴰ d h.1)
  All-Permᴰ (Permᴰ.swap e e') h = (rw (sym e') h.1.0, (rw (sym e) h.0, h.1.1))
  All-Permᴰ (Permᴰ.trans d d') h = All-Permᴰ d' (All-Permᴰ d h)

  swap_two : (a x y : A) → Ok a → Ok x → Ok y → pick (pick a x) y ≡ pick (pick a y) x
  swap_two a x y ha hx hy =
      c.assoc a x y ha hx hy ∙ ap (pick a) (c.comm x y hx hy) ∙ sym (c.assoc a y x ha hy hx)

  settle-Permᴰ :
      (a : A) {xs ys : List A}
      → Permᴰ xs ys
      → Ok a
      → All Ok xs
      → settle pick a xs ≡ settle pick a ys
  settle-Permᴰ a Permᴰ.nil ha h = refl
  settle-Permᴰ a (Permᴰ.cons {a = x} {b = y} {l₂ = ys} e d) ha h =
      settle-Permᴰ (pick a x) d (c.closed a x ha h.0) h.1 ∙ ap (λ z. settle pick (pick a z) ys) e
  settle-Permᴰ a (Permᴰ.swap {a = x} {b = y} {a' = y'} {l = l} e e') ha h =
      ap (λ z. settle pick z l) (swap_two a x y ha h.0 h.1.0)
      ∙ ap (λ z. settle pick (pick (pick a z) x) l) e'
      ∙ ap (λ z. settle pick (pick (pick a y') z) l) e
  settle-Permᴰ a (Permᴰ.trans d d') ha h =
      settle-Permᴰ a d ha h ∙ settle-Permᴰ a d' ha (All-Permᴰ d h)

  pub settle-perm :
      IsSet A
      → (a : A) {xs ys : List A} → Perm xs ys
      → Ok a
      → All Ok xs
      → settle pick a xs ≡ settle pick a ys
  settle-perm A_set a p ha h = ∥∥₁_elim p (A_set _ _) (λ d. settle-Permᴰ a d ha h)

  pub settle-Ok : (a : A) (xs : List A) → Ok a → All Ok xs → Ok (settle pick a xs)
  settle-Ok a [] ha h = ha
  settle-Ok a (x ∷ xs) ha h = settle-Ok (pick a x) xs (c.closed a x ha h.0) h.1

-- A test `wins` that decides between any two different elements, and never in a circle, is such a
-- choice.
pub record IsContest {ℓ κ} {A : Type ℓ} (Ok : A → Type κ) (wins : A → A → Bool) : Type (ℓ ⊔ κ) where
  pub decides : (a b : A) → Ok a → Ok b → (a ≡ b) ⊎ (wins b a ≡ not (wins a b))
  pub trans : (a b c : A) → Ok a → Ok b → Ok c → wins a b ≡ true → wins b c ≡ true → wins a c ≡ true

module _ {ℓ κ} {A : Type ℓ} {Ok : A → Type κ} {wins : A → A → Bool} (k : IsContest Ok wins) where
  winner_closed : (a b : A) → Ok a → Ok b → Ok (if wins a b then a else b)
  winner_closed a b ha hb = elim (Bool-cases (wins a b)) [ inl e ↦ rw e ha | inr e ↦ rw e hb ]

  winner_comm : (a b : A) → Ok a → Ok b → (if wins a b then a else b) ≡ (if wins b a then b else a)
  winner_comm a b ha hb = elim (k.decides a b ha hb) [
    | inl e ↦ ground (arith, e)
    | inr e ↦ ground (arith, e)
  ]

  winner_assoc :
      (a b c : A)
      → Ok a
      → Ok b
      → Ok c
      → (if wins (if wins a b then a else b) c then (if wins a b then a else b) else c)
        ≡ (if wins a (if wins b c then b else c) then a else (if wins b c then b else c))
  winner_assoc a b c ha hb hc =
      ground (arith, k.decides b c hb hc, k.trans a b c ha hb hc, k.trans a c b ha hc hb)

  pub IsContest-IsChoice : IsChoice Ok (λ a b. if wins a b then a else b)
  IsContest-IsChoice = record { closed = winner_closed; comm = winner_comm; assoc = winner_assoc }

-- A test that agrees with a contest on the elements in question is a contest.
pub IsContest-eq {ℓ κ} :
    {A : Type ℓ} {Ok : A → Type κ} {wins : A → A → Bool} (keeps : A → A → Bool)
    → ((a b : A) → Ok a → Ok b → keeps a b ≡ wins a b)
    → IsContest Ok wins
    → IsContest Ok keeps
IsContest-eq keeps e k = record {
  decides = λ a b ha hb. ground (arith, e a b ha hb, e b a hb ha, k.decides a b ha hb);
  trans = λ a b c ha hb hc h h'.
      ground (arith, e a b ha hb, e b c hb hc, e a c ha hc, k.trans a b c ha hb hc);
}

-- A choice on values that may be missing.
abbrev pub OkOption {ℓ κ} : {A : Type ℓ} → (A → Type κ) → Option A → Type κ
OkOption Ok none = Unit
OkOption Ok (some a) = Ok a

abbrev pub pick_option {ℓ} : {A : Type ℓ} → (A → A → A) → Option A → Option A → Option A
pick_option pick none b = b
pick_option pick (some a) none = some a
pick_option pick (some a) (some b) = some (pick a b)

module _ {ℓ κ} {A : Type ℓ} {Ok : A → Type κ} {pick : A → A → A} (c : IsChoice Ok pick) where
  option_closed :
      (a b : Option A) → OkOption Ok a → OkOption Ok b → OkOption Ok (pick_option pick a b)
  option_closed none b ha hb = hb
  option_closed (some a) none ha hb = ha
  option_closed (some a) (some b) ha hb = c.closed a b ha hb

  option_comm :
      (a b : Option A) → OkOption Ok a → OkOption Ok b → pick_option pick a b ≡ pick_option pick b a
  option_comm none none ha hb = refl
  option_comm none (some b) ha hb = refl
  option_comm (some a) none ha hb = refl
  option_comm (some a) (some b) ha hb = ap some (c.comm a b ha hb)

  option_assoc :
      (a b d : Option A)
      → OkOption Ok a
      → OkOption Ok b
      → OkOption Ok d
      → pick_option pick (pick_option pick a b) d ≡ pick_option pick a (pick_option pick b d)
  option_assoc none b d ha hb hd = refl
  option_assoc (some a) none d ha hb hd = refl
  option_assoc (some a) (some b) none ha hb hd = refl
  option_assoc (some a) (some b) (some d) ha hb hd = ap some (c.assoc a b d ha hb hd)

  pub IsChoice-option : IsChoice (OkOption Ok) (pick_option pick)
  IsChoice-option = record { closed = option_closed; comm = option_comm; assoc = option_assoc }

-- It is enough to compare elements of different keys, where one key has one element.
module _ {ℓ κ} {A : Type ℓ} {Ok : A → Type κ} (wins same : A → A → Bool)
    (one : (a b : A) → Ok a → Ok b → same a b ≡ true → a ≡ b)
    (decides : (a b : A) → Ok a → Ok b → same a b ≡ false → wins b a ≡ not (wins a b))
    (trans : (a b c : A)
      → same a b ≡ false
      → same b c ≡ false
      → wins a b ≡ true
      → wins b c ≡ true
      → wins a c ≡ true) where
  keyed_decides : (a b : A) → Ok a → Ok b → (a ≡ b) ⊎ (wins b a ≡ not (wins a b))
  keyed_decides a b ha hb = elim (Bool-cases (same a b)) [
    | inl e ↦ inl (one a b ha hb e)
    | inr d ↦ inr (decides a b ha hb d)
  ]

  keyed_trans :
      (a b c : A) → Ok a → Ok b → Ok c → wins a b ≡ true → wins b c ≡ true → wins a c ≡ true
  keyed_trans a b c ha hb hc h k = elim (Bool-cases (same a b)) [
    | inl e ↦ rw (one a b ha hb e) k
    | inr d ↦ elim (Bool-cases (same b c)) [
      | inl e ↦ rw (← one b c hb hc e) h
      | inr d' ↦ trans a b c d d' h k
    ]
  ]

  pub keyed-IsContest : IsContest Ok wins
  keyed-IsContest = record { decides = keyed_decides; trans = keyed_trans }
