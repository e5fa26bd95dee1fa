-- ===== src/Share/Precedence.antt =====
-- src/share-precedence.js: every side settles on one share, in whatever order it meets them, and a
-- merge of declarations loses nothing.
use mathlib.Core.List.{Perm}
use mathlib.Core.Path.{fun_ext}
use native.Mathlib.Nat.{ℕ_set}
use git_pigeon.Prelude.{
  ◌≡◌, refl, sym, ap, ◌∙◌, true, false, not, Option, none, some, List, All, arith, if◌then◌else◌,
  is_some, ◌||◌,
}
use git_pigeon.Prelude.Text.{
  Text, text_eq, text_eq→eq, text_eq_comm, text_lt-asymm, text_lt-total, text_lt_trans,
}
use git_pigeon.Prelude.Instant.{ℤ}
use git_pigeon.Prelude.Choice.{
  settle, settle-perm, IsContest, IsContest-IsChoice, IsChoice-option, OkOption, pick_option,
  keyed-IsContest,
}
use git_pigeon.Share.{Share, takes, preferred_share, merge_share_declarations, first}

module _ (date_parse : Text → Option ℤ) where
  takes-not :
      (a b : Share)
      → text_eq a.key b.key ≡ false
      → takes date_parse b a ≡ not (takes date_parse a b)
  unfolding takes
  takes-not a b d =
      ground (arith, text_eq_comm a.key b.key, text_lt-asymm a.key b.key, text_lt-total a.key b.key)

  takes_trans :
      (a b c : Share)
      → text_eq a.key b.key ≡ false
      → text_eq b.key c.key ≡ false
      → takes date_parse a b ≡ true
      → takes date_parse b c ≡ true
      → takes date_parse a c ≡ true
  unfolding takes
  takes_trans a b c d e h k = ground (arith, text_lt_trans a.key b.key c.key)

  abbrev pick : Share → Share → Share
  pick a b = if takes date_parse a b then a else b

  preferred_cases : (a b : Option Share) → preferred_share date_parse a b ≡ pick_option pick a b
  unfolding preferred_share
  preferred_cases none b = refl
  preferred_cases (some a) none = refl
  preferred_cases (some a) (some b) = ground arith

  preferred-eq-pick : preferred_share date_parse ≡ pick_option pick
  preferred-eq-pick = fun_ext λ a. fun_ext λ b. preferred_cases a b

  IsDeclared-IsContest :
      (canon : Text → Share) → IsContest (λ s. canon s.key ≡ s) (takes date_parse)
  IsDeclared-IsContest canon =
      keyed-IsContest (takes date_parse) (λ a b. text_eq a.key b.key)
        (λ a b ha hb e. sym ha ∙ ap canon (text_eq→eq a.key b.key e) ∙ hb)
        (λ a b ha hb. takes-not a b) takes_trans

  Share-set : IsSet (Option Share)
  Share-set = hlevel ℕ_set

  -- Whichever shares of a repository are met, some perhaps missing, and in whatever order, one is
  -- settled on: for shares of which one key has one declaration.
  pub settle-perm_share :
      (canon : Text → Share) (a : Option Share) (xs ys : List (Option Share))
      → Perm xs ys
      → OkOption (λ s. canon s.key ≡ s) a
      → All (OkOption (λ s. canon s.key ≡ s)) xs
      → settle (preferred_share date_parse) a xs ≡ settle (preferred_share date_parse) a ys
  settle-perm_share canon a xs ys p ha h = rw preferred-eq-pick (
      settle-perm (IsChoice-option (IsContest-IsChoice (IsDeclared-IsContest canon))) Share-set a p
        ha h)

-- Two declarations of one share merge to one of that share which has a mirror, a creation time and an
-- owner exactly where either has; and of three declarations, merged in order, neither grouping
-- matters.
pub merge_keeps :
    (a b c : Share)
    → text_eq a.key b.key ≡ true
    → text_eq b.key c.key ≡ true
    → (m : Share) × (merge_share_declarations (some a) (some b) ≡ some m)
      × (m.key ≡ a.key)
      × (is_some m.mirror ≡ is_some a.mirror || is_some b.mirror)
      × (is_some m.created_at ≡ is_some a.created_at || is_some b.created_at)
      × (is_some m.owner_public_key ≡ is_some a.owner_public_key || is_some b.owner_public_key)
      × (merge_share_declarations (some m) (some c)
          ≡ merge_share_declarations (some a) (merge_share_declarations (some b) (some c)))
unfolding merge_share_declarations
merge_keeps a b c h k = (
  record a {
    mirror = first a.mirror b.mirror;
    created_at = first a.created_at b.created_at;
    owner_public_key = first a.owner_public_key b.owner_public_key;
  },
  ground arith,
  refl,
  ground arith,
  ground arith,
  ground arith,
  ground (arith, text_eq→eq a.key b.key h),
)
