-- ===== src/Share.antt =====
-- src/share-precedence.js: which of two shares of one repository every side settles on, and how two
-- declarations of one share are merged.
pub mod Precedence
use git_pigeon.Prelude.{
  ℕ, Bool, true, false, not, ◌&&◌, Option, none, some, is_some, List, [], if◌then◌else◌,
}
use git_pigeon.Prelude.Text.{Text, text_eq, text_lt}
use git_pigeon.Prelude.Instant.{ℤ, pos, ltb_ℤ, eqb_ℤ}

-- The fields that the rule reads. A missing field, and one that is falsy, is `none`.
pub record Share : Type 0 where
  pub key : Text
  pub mirror : Option Text
  pub created_at : Option Text
  pub owner_public_key : Option Text

abbrev text_of : Option Text → Text
text_of none = []
text_of (some s) = s

-- `none` is infinity: NaN and 0 are falsy.
abbrev or_infinity : Option ℤ → Option ℤ
or_infinity none = none
or_infinity (some t) = if eqb_ℤ t (pos 0) then none else some t

abbrev same_instant : Option ℤ → Option ℤ → Bool
same_instant none none = true
same_instant none (some t) = false
same_instant (some s) none = false
same_instant (some s) (some t) = eqb_ℤ s t

abbrev before : Option ℤ → Option ℤ → Bool
before none t = false
before (some s) none = true
before (some s) (some t) = ltb_ℤ s t

module _ (date_parse : Text → Option ℤ) where
  -- `Date.parse(String(share.createdAt ?? '')) || Number.POSITIVE_INFINITY`
  created : Share → Option ℤ
  created s = or_infinity (date_parse (text_of s.created_at))

  -- Whether `a` is taken over `b`, where both are there.
  unfoldable pub takes : Share → Share → Bool
  unfolding created
  takes a b =
      if text_eq a.key b.key
      then true
      else if is_some a.mirror && not (is_some b.mirror)
      then true
      else if not (is_some a.mirror) && is_some b.mirror
      then false
      else if not (same_instant (created a) (created b))
      then before (created a) (created b)
      else text_lt a.key b.key

  unfoldable pub preferred_share : Option Share → Option Share → Option Share
  unfolding takes
  preferred_share none b = b
  preferred_share (some a) none = some a
  preferred_share (some a) (some b) = if takes a b then some a else some b

abbrev pub first {ℓ} : {A : Type ℓ} → Option A → Option A → Option A
first none y = y
first (some x) y = some x

unfoldable pub merge_share_declarations : Option Share → Option Share → Option Share
merge_share_declarations none b = b
merge_share_declarations (some a) none = some a
merge_share_declarations (some a) (some b) =
    if not (text_eq a.key b.key)
    then some a
    else some (record a {
      mirror = first a.mirror b.mirror;
      created_at = first a.created_at b.created_at;
      owner_public_key = first a.owner_public_key b.owner_public_key;
    })
