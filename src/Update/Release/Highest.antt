-- ===== src/Update/Release/Highest.antt =====
-- src/auto-update.js, `highestCompleteRelease`: the loop over the releases.
use git_pigeon.Prelude.{
  ℕ, ◌≡◌, ◌⊎◌, inl, inr, refl, sym, ◌∙◌, ap, true, false, Option, none, some, List, [], ◌∷◌, arith,
  All, if◌then◌else◌, Bool-cases, Option-cases,
}
use mathlib.Core.List.{Memᴰ}
use mathlib.Core.List.Memᴰ.{head, tail}
use git_pigeon.Prelude.Text.{Text}
use git_pigeon.Prelude.Result.{some_injective}
use git_pigeon.Update.Version.{Version, safe_version, newer_parts, both_newer, is_newer_version}
use git_pigeon.Update.Release.{
  Release, listed, is_complete, written, written_of, is_better, better, highest,
  highest_complete_release,
}

-- A release that may be taken: it is published, has its checksums and a version.
pub record IsCandidate (r : Release) (v : Version) : Type 0 where
  pub complete : is_complete r ≡ true
  pub version : safe_version r.tag_name ≡ some v

not_newer_trans :
    (u v w : Version) → newer_parts u v ≡ false → newer_parts v w ≡ false → newer_parts u w ≡ false
unfolding newer_parts
not_newer_trans u v w h k = ground arith

not_newer_refl : (v : Version) → newer_parts v v ≡ false
unfolding newer_parts
not_newer_refl v = ground arith

newer_not : (u v : Version) → newer_parts u v ≡ true → newer_parts v u ≡ false
unfolding newer_parts
newer_not u v h = ground arith

-- None of the releases that may be taken is newer.
abbrev pub IsTop : Version → Option Release → Type 0
IsTop w none = Unit
IsTop w (some r) = (v : Version) → IsCandidate r v → newer_parts v w ≡ false

module _ (show : ℕ → Text) where
  -- A version that is written is read again.
  unfoldable pub IsReadable : Option Release → Type 0
  IsReadable none = Unit
  IsReadable (some r) =
      (v : Version) → safe_version r.tag_name ≡ some v → safe_version (written show v) ≡ some v

  is_better-newer :
      (r best : Release) (v w : Version)
      → IsReadable (some r)
      → IsReadable (some best)
      → safe_version r.tag_name ≡ some v
      → safe_version best.tag_name ≡ some w
      → is_better show r (some best) ≡ newer_parts v w
  unfolding is_newer_version both_newer IsReadable written_of
  is_better-newer r best v w h k e d = rw (e, d) (rw (h v e, k w d) refl)

  better-none :
      (best : Release) (s : Release)
      → safe_version s.tag_name ≡ none
      → better show (some best) (some s) ≡ some best
  better-none best s e = rw e refl

  better-incomplete :
      (best : Release) (s : Release)
      → is_complete s ≡ false
      → better show (some best) (some s) ≡ some best
  better-incomplete best s e = rw e (ground arith)

  better-candidate :
      (best : Release) (s : Release) (v w : Version)
      → IsReadable (some s)
      → IsReadable (some best)
      → IsCandidate s v
      → IsCandidate best w
      → better show (some best) (some s) ≡ (if newer_parts v w then some s else some best)
  better-candidate best s v w h k c d =
      rw (is_better-newer s best v w h k c.version d.version) (rw (c.version, c.complete) refl)

IsTop-trans : (o : Option Release) (w v : Version) → IsTop w o → newer_parts w v ≡ false → IsTop v o
IsTop-trans none w v t h = tt
IsTop-trans (some r) w v t h = λ x c. not_newer_trans x w v (t x c) h

later_member :
    {best b : Release} {o : Option Release} {rs : List (Option Release)}
    → (best ≡ b) ⊎ Memᴰ (some b) rs
    → (best ≡ b) ⊎ Memᴰ (some b) (o ∷ rs)
later_member (inl e) = inl e
later_member (inr m) = inr (tail m)

new_member :
    {s b : Release} {rs : List (Option Release)}
    → (s ≡ b) ⊎ Memᴰ (some b) rs
    → Memᴰ (some b) (some s ∷ rs)
new_member (inl e) = head (ap some (sym e))
new_member (inr m) = tail m

-- A release that may not be taken.
abbrev pub HasNone : Option Release → Type 0
HasNone none = Unit
HasNone (some r) = (v : Version) → ¬ IsCandidate r v

none_ne : {v : Version} → ¬ (none ≡ some v)
none_ne h = cc

false_ne : ¬ (false ≡ true)
false_ne h = cc

-- What the loop finds when it starts with a release.
pub record Found (best : Release) (w : Version) (rs : List (Option Release)) (b : Release)
    (v : Version) : Type 0 where
  pub candidate : IsCandidate b v
  pub top : All (IsTop v) rs
  pub top_best : newer_parts w v ≡ false
  pub member : (best ≡ b) ⊎ Memᴰ (some b) rs

same_version : (r : Release) (u v : Version) → IsCandidate r u → IsCandidate r v → u ≡ v
same_version r u v c d = some_injective (sym c.version ∙ d.version)

keep_best :
    (best : Release) (w : Version) (o : Option Release) (rs : List (Option Release)) (b : Release)
    (v : Version)
    → IsTop w o
    → Found best w rs b v
    → Found best w (o ∷ rs) b v
keep_best best w o rs b v t f = record {
  candidate = f.candidate;
  top = (IsTop-trans o w v t f.top_best, f.top);
  top_best = f.top_best;
  member = later_member f.member;
}

take_new :
    (best s : Release) (u w : Version) (rs : List (Option Release)) (b : Release) (v : Version)
    → IsCandidate s u
    → newer_parts u w ≡ true
    → Found s u rs b v
    → Found best w (some s ∷ rs) b v
take_new best s u w rs b v c n f = record {
  candidate = f.candidate;
  top = ((λ x d. rw (same_version s x u d c) f.top_best), f.top);
  top_best = not_newer_trans w u v (newer_not u w n) f.top_best;
  member = inr (new_member f.member);
}

module _ (show : ℕ → Text) where
  highest-some :
      (best : Release) (w : Version) (rs : List (Option Release))
      → IsCandidate best w
      → IsReadable show (some best)
      → All (IsReadable show) rs
      → (b : Release) × (v : Version) × (highest show (some best) rs ≡ some b) × Found best w rs b v
  unfolding highest
  highest-some best w [] c r k = (
    best,
    w,
    refl,
    record { candidate = c; top = tt; top_best = not_newer_refl w; member = inl refl },
  )
  highest-some best w (none ∷ rs) c r k =
      let (b, v, e, f) = highest-some best w rs c r k.1 in
      (b, v, e, keep_best best w none rs b v tt f)
  highest-some best w (some s ∷ rs) c r k = elim (Option-cases (safe_version s.tag_name)) [
    | inl unversioned ↦
        let (b, v, e, f) = highest-some best w rs c r k.1 in
        (
          b,
          v,
          ap (λ o. highest show o rs) (better-none show best s unversioned) ∙ e,
          keep_best best w (some s) rs b v (λ x d. absurd (none_ne (sym unversioned ∙ d.version)))
              f,
        )
    | inr (u, version) ↦ elim (Bool-cases (is_complete s)) [
      | inl complete ↦
          let d : IsCandidate s u = record { complete = complete; version = version } in
          let step = better-candidate show best s u w k.0 r d c in
          elim (Bool-cases (newer_parts u w)) [
            | inl newer ↦
                let (b, v, e, f) = highest-some s u rs d k.0 k.1 in
                (
                  b,
                  v,
                  ap (λ o. highest show o rs)
                        (step ∙ ap (λ t. if t then some s else some best) newer)
                      ∙ e,
                  take_new best s u w rs b v d newer f,
                )
            | inr older ↦
                let (b, v, e, f) = highest-some best w rs c r k.1 in
                (
                  b,
                  v,
                  ap (λ o. highest show o rs)
                        (step ∙ ap (λ t. if t then some s else some best) older)
                      ∙ e,
                  keep_best best w (some s) rs b v (λ x i. rw (same_version s x u i d) older) f,
                )
          ]
      | inr incomplete ↦
          let (b, v, e, f) = highest-some best w rs c r k.1 in
          (
            b,
            v,
            ap (λ o. highest show o rs) (better-incomplete show best s incomplete) ∙ e,
            keep_best best w (some s) rs b v
                (λ x d. absurd (false_ne (sym incomplete ∙ d.complete))) f,
          )
    ]
  ]

  -- The start, with nothing found so far.
  better_first :
      (s : Release)
      → (better show none (some s) ≡ none) × ((v : Version) → ¬ IsCandidate s v)
        ⊎ ((v : Version) × IsCandidate s v × (better show none (some s) ≡ some s))
  better_first s = elim (Option-cases (safe_version s.tag_name)) [
    | inl unversioned ↦ inl (rw unversioned refl, λ v c. none_ne (sym unversioned ∙ c.version))
    | inr (v, version) ↦ elim (Bool-cases (is_complete s)) [
      | inl complete ↦
          inr (v, record { complete = complete; version = version }, rw (version, complete) refl)
      | inr incomplete ↦
          inl (rw (version, incomplete) refl, λ u c. false_ne (sym incomplete ∙ c.complete))
    ]
  ]

  -- Of a list of releases one is taken that is published, has its checksums and a version, and there is
  -- no such release in the list that is newer; where there is no such release none is taken. A version
  -- that the engine writes is given to be read again.
  pub highest_complete_release-IsTop :
      (rs : List (Option Release))
      → All (IsReadable show) rs
      → ((b : Release) × (v : Version) × (highest_complete_release show (listed rs) ≡ some b)
          × IsCandidate b v
          × Memᴰ (some b) rs
          × All (IsTop v) rs)
        ⊎ ((highest_complete_release show (listed rs) ≡ none) × All (HasNone) rs)
  unfolding highest_complete_release highest
  highest_complete_release-IsTop [] k = inr (refl, tt)
  highest_complete_release-IsTop (none ∷ rs) k = elim (highest_complete_release-IsTop rs k.1) [
    | inl (b, v, e, c, m, t) ↦ inl (b, v, e, c, tail m, (tt, t))
    | inr (e, t) ↦ inr (e, (tt, t))
  ]
  highest_complete_release-IsTop (some s ∷ rs) k = elim (better_first s) [
    | inl (step, bad) ↦ elim (highest_complete_release-IsTop rs k.1) [
      | inl (b, v, e, c, m, t) ↦
          inl
            (b, v, ap (λ o. highest show o rs) step ∙ e, c, tail m, ((λ x i. absurd (bad x i)), t))
      | inr (e, t) ↦ inr (ap (λ o. highest show o rs) step ∙ e, (bad, t))
    ]
    | inr (u, d, step) ↦
        let (b, v, e, f) = highest-some s u rs d k.0 k.1 in
        inl (
          b,
          v,
          ap (λ o. highest show o rs) step ∙ e,
          f.candidate,
          new_member f.member,
          ((λ x i. rw (same_version s x u i d) f.top_best), f.top),
        )
  ]
