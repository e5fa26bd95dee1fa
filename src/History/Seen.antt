-- ===== src/History/Seen.antt =====
-- src/terminal-history.js, `merge`: the set `seen` is that of the entries, and no entry is there twice.
use git_pigeon.Prelude.{
  ℕ, suc, zero, ◌-◌, ◌≡◌, refl, sym, ap, ◌∙◌, true, false, not, ◌&&◌, Option, none, some, List, [],
  ◌∷◌, ◌++◌, map, arith, take, drop, filter, length, ltb, Bool-cases, inl, inr, if-cases,
}
use git_pigeon.Prelude.Text.{Text, text_eq, text_eq→eq, contains}
use git_pigeon.Prelude.Members.{contains-filter, contains-append, is_unique, is_unique-append_one}
use git_pigeon.Prelude.Sorting.{contains-sort_by, is_unique-sort_by}
use git_pigeon.History.{
  Entry, Value, History, identity, accepted, push, collect, capped, settled, merge, older, sorted,
  valid_entry, history_limit,
}

contains_same : (s t : Text) (xs : List Text) → text_eq s t ≡ true → contains s xs ≡ contains t xs
contains_same s t xs h = ap (λ u. contains u xs) (text_eq→eq s t h)

module _ (show : ℕ → Text) where
  abbrev pub ids : List Entry → List Text
  ids = map (identity show)

  -- The state between two merges.
  pub record IsConsistent (h : History) : Type 0 where
    pub seen_eq : (s : Text) → contains s h.seen ≡ contains s (ids h.entries)
    pub unique : is_unique (ids h.entries) ≡ true

  ids-append : (xs ys : List Entry) → ids (xs ++ ys) ≡ ids xs ++ ids ys
  ids-append [] ys = refl
  ids-append (x ∷ xs) ys = ap (◌∷◌ (identity show x)) (ids-append xs ys)

  pub contains-sorted :
      (s : Text) (es : List Entry) → contains s (ids (sorted es)) ≡ contains s (ids es)
  unfolding sorted
  contains-sorted = contains-sort_by older (identity show)

  is_unique-sorted : (es : List Entry) → is_unique (ids (sorted es)) ≡ is_unique (ids es)
  unfolding sorted
  is_unique-sorted = is_unique-sort_by older (identity show)

  is_unique-drop :
      (n : ℕ) (es : List Entry) → is_unique (ids es) ≡ true → is_unique (ids (drop n es)) ≡ true
  unfolding is_unique
  is_unique-drop zero es h = h
  is_unique-drop (suc n) [] h = refl
  is_unique-drop (suc n) (e ∷ es) h = is_unique-drop n es (ground arith)

  contains-drop_le :
      (s : Text) (n : ℕ) (es : List Entry)
      → contains s (ids es) ≡ false
      → contains s (ids (drop n es)) ≡ false
  unfolding contains
  contains-drop_le s zero es h = h
  contains-drop_le s (suc n) [] h = refl
  contains-drop_le s (suc n) (e ∷ es) h = contains-drop_le s n es (ground arith)

  -- What is left of entries without repetition is what is not dropped.
  contains-drop :
      (s : Text) (n : ℕ) (es : List Entry)
      → is_unique (ids es) ≡ true
      → contains s (ids (drop n es)) ≡ (contains s (ids es) && not (contains s (ids (take n es))))
  unfolding contains is_unique
  contains-drop s zero es h = ground arith
  contains-drop s (suc n) [] h = refl
  contains-drop s (suc n) (e ∷ es) h = ground (
    arith,
    contains-drop s n es,
    contains_same s (identity show e) (ids es),
    contains-drop_le s n es,
  )

  pub empty-IsConsistent : IsConsistent (record { entries = []; seen = [] })
  unfolding contains is_unique
  empty-IsConsistent = record { seen_eq = λ s. refl; unique = refl }

  sort-IsConsistent :
      (h : History) → IsConsistent h → IsConsistent (record h { entries = sorted h.entries })
  sort-IsConsistent h c = record {
    seen_eq = λ s. c.seen_eq s ∙ sym (contains-sorted s h.entries);
    unique = is_unique-sorted h.entries ∙ c.unique;
  }

  drop-IsConsistent :
      (n : ℕ) (h : History)
      → IsConsistent h
      → IsConsistent (record {
        entries = drop n h.entries;
        seen = filter (λ s. not (contains s (ids (take n h.entries)))) h.seen;
      })
  drop-IsConsistent n h c = record {
    seen_eq = λ s.
        contains-filter (λ t. not (contains t (ids (take n h.entries)))) s h.seen
        ∙ ap (λ b. b && not (contains s (ids (take n h.entries)))) (c.seen_eq s)
        ∙ sym (contains-drop s n h.entries c.unique);
    unique = is_unique-drop n h.entries c.unique;
  }

  capped-IsConsistent : (h : History) → IsConsistent h → IsConsistent (capped show h)
  unfolding capped
  capped-IsConsistent h c =
      if-cases IsConsistent (ltb history_limit (length h.entries)) _ _
        (drop-IsConsistent (length h.entries - history_limit) h c) c

  contains-ids_push :
      (s : Text) (seen : List Text) (es : List Entry) (e : Entry)
      → contains s seen ≡ contains s (ids es)
      → contains s (identity show e ∷ seen) ≡ contains s (ids (es ++ (e ∷ [])))
  unfolding contains
  contains-ids_push s seen es e h =
      rw (ids-append es (e ∷ []))
        (ground (arith, contains-append s (ids es) (identity show e ∷ [])))

  is_unique-ids_push :
      (es : List Entry) (e : Entry)
      → is_unique (ids es) ≡ true
      → contains (identity show e) (ids es) ≡ false
      → is_unique (ids (es ++ (e ∷ []))) ≡ true
  is_unique-ids_push es e u c =
      rw (ids-append es (e ∷ [])) (is_unique-append_one (identity show e) (ids es) u c)

  push-IsConsistent :
      (h : History) (v : Option Entry)
      → IsConsistent h
      → IsConsistent (push show h (accepted show h.seen v))
  unfolding push accepted
  push-IsConsistent h none c = c
  push-IsConsistent h (some e) c = elim (Bool-cases (contains (identity show e) h.seen)) [
    | inl known ↦ rw known c
    | inr fresh ↦ rw fresh (record {
      seen_eq = λ s. contains-ids_push s h.seen h.entries e (c.seen_eq s);
      unique = is_unique-ids_push h.entries e c.unique (sym (c.seen_eq (identity show e)) ∙ fresh);
    })
  ]

  pub collect-IsConsistent :
      (h : History) (vs : List Value) → IsConsistent h → IsConsistent (collect show h vs).0
  unfolding collect
  collect-IsConsistent h [] c = c
  collect-IsConsistent h (v ∷ vs) c =
      collect-IsConsistent (push show h (accepted show h.seen (valid_entry v))) vs
        (push-IsConsistent h (valid_entry v) c)

  settled-IsConsistent :
      (r : History × List Entry) → IsConsistent r.0 → IsConsistent (settled show r).1
  settled-IsConsistent (h, []) c = c
  settled-IsConsistent (h, e ∷ es) c =
      capped-IsConsistent (record h { entries = sorted h.entries }) (sort-IsConsistent h c)

  -- A merge, of whatever values, keeps the history consistent: the texts that are seen are the
  -- identities of the entries, and no entry is there twice.
  pub merge-IsConsistent :
      (h : History) (values : List Value) → IsConsistent h → IsConsistent (merge show h values).1
  unfolding merge
  merge-IsConsistent h values c =
      settled-IsConsistent (collect show h values) (collect-IsConsistent h values c)
