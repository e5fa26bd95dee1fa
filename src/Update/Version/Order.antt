-- ===== src/Update/Version/Order.antt =====
-- src/auto-update.js, `isNewerVersion`: a strict order of the versions, whatever their spelling.
use git_pigeon.Prelude.{
  ◌≡◌, refl, ◌⊎◌, inl, inr, true, false, Option, none, some, arith, Bool-cases,
}
use git_pigeon.Prelude.Text.{Text, text}
use git_pigeon.Update.Version.{Version, safe_version, both_newer, is_newer_version}

both_newer_trans :
    (a b c : Option Version) → both_newer a b ≡ true → both_newer b c ≡ true → both_newer a c ≡ true
unfolding both_newer
both_newer_trans none b c h k = cc
both_newer_trans (some a) none c h k = cc
both_newer_trans (some a) (some b) none h k = cc
both_newer_trans (some a) (some b) (some c) h k = ground arith

both_newer-asymm : (a b : Option Version) → both_newer a b ≡ true → both_newer b a ≡ false
unfolding both_newer
both_newer-asymm none b h = cc
both_newer-asymm (some a) none h = cc
both_newer-asymm (some a) (some b) h = ground arith

same_version :
    (a b : Version)
    → both_newer (some a) (some b) ≡ false
    → both_newer (some b) (some a) ≡ false
    → a ≡ b
unfolding both_newer
same_version a b h k = ground arith

both_newer-trichotomy :
    (a b : Version)
    → (both_newer (some a) (some b) ≡ true) ⊎ ((both_newer (some b) (some a) ≡ true) ⊎ (a ≡ b))
both_newer-trichotomy a b = elim (Bool-cases (both_newer (some a) (some b))) [
  | inl h ↦ inl h
  | inr h ↦ elim (Bool-cases (both_newer (some b) (some a))) [
    | inl k ↦ inr (inl k)
    | inr k ↦ inr (inr (same_version a b h k))
  ]
]

both_newer-none : (a : Option Version) → both_newer a none ≡ false
unfolding both_newer
both_newer-none none = refl
both_newer-none (some a) = refl

-- Of three texts, the first newer than the second and the second than the third, the first is newer
-- than the third, and no text is newer than one that is newer than it. So updating to a newer
-- version never comes back.
pub newer_strict_order :
    (a b c : Text)
    → is_newer_version a b ≡ true
    → is_newer_version b c ≡ true
    → (is_newer_version a c ≡ true) × (is_newer_version c a ≡ false)
unfolding is_newer_version
newer_strict_order a b c h k =
    let t = both_newer_trans (safe_version a) (safe_version b) (safe_version c) h k in
    (t, both_newer-asymm (safe_version a) (safe_version c) t)

-- Of two texts that are versions, one is newer than the other, or both are the same version.
pub newer_total :
    (a b : Text) (v w : Version)
    → safe_version a ≡ some v
    → safe_version b ≡ some w
    → (is_newer_version a b ≡ true) ⊎ ((is_newer_version b a ≡ true) ⊎ (v ≡ w))
newer_total a b v w e d = unfold is_newer_version in rw (e, d) (both_newer-trichotomy v w)

-- A text that is no version is newer than nothing, and nothing is newer than it.
pub newer_malformed :
    (a b : Text)
    → safe_version a ≡ none
    → (is_newer_version a b ≡ false) × (is_newer_version b a ≡ false)
unfolding is_newer_version both_newer
newer_malformed a b e = rw e (refl, both_newer-none (safe_version b))

newer_spelling : is_newer_version (text " v0.13.110") (text "0.13.109 ") ≡ true
unfolding is_newer_version safe_version both_newer
newer_spelling = refl
