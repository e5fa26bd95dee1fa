-- ===== src/History/Merge.antt =====
-- src/terminal-history.js, `merge`: the entries are in order of time and at most as many as the limit,
-- and what is merged is there afterwards unless the limit is passed.
use git_pigeon.Prelude.{
  ℕ, suc, zero, ◌-◌, ◌≤◌, ◌≡◌, refl, sym, ap, ◌∙◌, Bool, true, false, ◌&&◌, Option, none, some,
  List, [], ◌∷◌, ◌++◌, arith, drop, length, ltb, ltb→lt, leb, Bool-cases, inl, inr, length-drop,
}
use git_pigeon.Prelude.Sorting.{insert_by, sort_by, length-sort_by}
use git_pigeon.Prelude.Text.{Text, text_eq_refl, contains}
use git_pigeon.History.{
  Entry, Value, History, identity, accepted, push, or_cons, collect, capped, settled, merge, older,
  sorted, valid_entry, history_limit,
}
use git_pigeon.History.Seen.{IsConsistent, ids, collect-IsConsistent, contains-sorted}

-- No entry is older than one before it.
abbrev starts_at : ℕ → List Entry → Bool
starts_at at [] = true
starts_at at (e ∷ es) = leb at e.at

unfoldable pub is_ordered : List Entry → Bool
is_ordered [] = true
is_ordered (e ∷ es) = starts_at e.at es && is_ordered es

starts_at-insert :
    (at : ℕ) (e : Entry) (es : List Entry)
    → starts_at at es ≡ true
    → leb at e.at ≡ true
    → starts_at at (insert_by older e es) ≡ true
unfolding insert_by
starts_at-insert at e [] h k = k
starts_at-insert at e (y ∷ ys) h k = ground arith

is_ordered-insert :
    (e : Entry) (es : List Entry) → is_ordered es ≡ true → is_ordered (insert_by older e es) ≡ true
unfolding insert_by is_ordered
is_ordered-insert e [] h = refl
is_ordered-insert e (y ∷ ys) h = ground (arith, is_ordered-insert e ys, starts_at-insert y.at e ys)

is_ordered-sorted : (es : List Entry) → is_ordered (sorted es) ≡ true
unfolding sorted sort_by is_ordered
is_ordered-sorted [] = refl
is_ordered-sorted (e ∷ es) = is_ordered-insert e (sorted es) (is_ordered-sorted es)

is_ordered-drop : (n : ℕ) (es : List Entry) → is_ordered es ≡ true → is_ordered (drop n es) ≡ true
unfolding is_ordered
is_ordered-drop zero es h = h
is_ordered-drop (suc n) [] h = refl
is_ordered-drop (suc n) (e ∷ es) h = is_ordered-drop n es (ground arith)

length-sorted : (es : List Entry) → length (sorted es) ≡ length es
unfolding sorted
length-sorted = length-sort_by older

module _ (show : ℕ → Text) where
  abbrev pub IsTidy : History → Type 0
  IsTidy h = (is_ordered h.entries ≡ true) × (length h.entries ≤ history_limit)

  pub empty-IsTidy : IsTidy (record { entries = []; seen = [] })
  unfolding is_ordered
  empty-IsTidy = (refl, omega arith)

  capped-IsTidy : (h : History) → is_ordered h.entries ≡ true → IsTidy (capped show h)
  unfolding capped
  capped-IsTidy h o = elim (Bool-cases (ltb history_limit (length h.entries))) [
    | inl over ↦ rw over (
      is_ordered-drop (length h.entries - history_limit) h.entries o,
      omega (
        arith,
        length-drop (length h.entries - history_limit) h.entries,
        ltb→lt history_limit (length h.entries) over,
      ),
    )
    | inr fits ↦ rw fits (o, ground arith)
  ]

  push_nothing :
      (h : History) (a : Option Entry) (vs : List Value)
      → ((collect show h vs).1 ≡ [] → (collect show h vs).0 ≡ h)
      → or_cons show a (collect show (push show h a) vs).1 ≡ []
      → (collect show (push show h a) vs).0 ≡ h
  unfolding push
  push_nothing h none vs same e = same e
  push_nothing h (some x) vs same e = absurd (ground arith)

  collect_nothing :
      (h : History) (values : List Value)
      → (collect show h values).1 ≡ []
      → (collect show h values).0 ≡ h
  unfolding collect
  collect_nothing h [] e = refl
  collect_nothing h (v ∷ vs) e =
      push_nothing h (accepted show h.seen (valid_entry v)) vs (collect_nothing h vs) e

  settled-IsTidy :
      (h : History) (r : History × List Entry)
      → IsTidy h
      → (r.1 ≡ [] → r.0 ≡ h)
      → IsTidy (settled show r).1
  settled-IsTidy h (next, []) t same = rw (same refl) t
  settled-IsTidy h (next, e ∷ es) t same =
      capped-IsTidy (record next { entries = sorted next.entries }) (is_ordered-sorted next.entries)

  -- A merge, of whatever values, leaves the entries in order of time and at most 500 of them.
  pub merge-IsTidy : (h : History) (values : List Value) → IsTidy h → IsTidy (merge show h values).1
  unfolding merge
  merge-IsTidy h values t = settled-IsTidy h (collect show h values) t (collect_nothing h values)

  push_keeps :
      (s : Text) (h : History) (a : Option Entry)
      → contains s h.seen ≡ true
      → contains s (push show h a).seen ≡ true
  unfolding push contains
  push_keeps s h none c = c
  push_keeps s h (some e) c = ground arith

  collect_keeps :
      (s : Text) (h : History) (vs : List Value)
      → contains s h.seen ≡ true
      → contains s (collect show h vs).0.seen ≡ true
  unfolding collect
  collect_keeps s h [] c = c
  collect_keeps s h (v ∷ vs) c =
      let a = accepted show h.seen (valid_entry v) in
      collect_keeps s (push show h a) vs (push_keeps s h a c)

  push_sees :
      (h : History) (e : Entry)
      → contains (identity show e) (push show h (accepted show h.seen (some e))).seen ≡ true
  unfolding push accepted contains
  push_sees h e = elim (Bool-cases (contains (identity show e) h.seen)) [
    | inl known ↦ rw known known
    | inr fresh ↦ rw fresh (rw (text_eq_refl (identity show e)) refl)
  ]

  -- A valid value that is merged is seen afterwards.
  collect_sees :
      (h : History) (xs : List Value) (v : Value) (ys : List Value) (e : Entry)
      → valid_entry v ≡ some e
      → contains (identity show e) (collect show h (xs ++ (v ∷ ys))).0.seen ≡ true
  unfolding collect
  collect_sees h [] v ys e k =
      let a = accepted show h.seen (valid_entry v) in
      collect_keeps (identity show e) (push show h a) ys (rw k (push_sees h e))
  collect_sees h (x ∷ xs) v ys e k =
      collect_sees (push show h (accepted show h.seen (valid_entry x))) xs v ys e k

  capped_fits : (h : History) → length h.entries ≤ history_limit → capped show h ≡ h
  unfolding capped
  capped_fits h fits =
      let b : ltb history_limit (length h.entries) ≡ false = ground arith in rw b refl

  settled_fits :
      (s : Text) (r : History × List Entry)
      → length r.0.entries ≤ history_limit
      → contains s (ids show (settled show r).1.entries) ≡ contains s (ids show r.0.entries)
  settled_fits s (h, []) fits = refl
  settled_fits s (h, e ∷ es) fits =
      let o = record h { entries = sorted h.entries } in
      ap (λ x. contains s (ids show x.entries))
        (capped_fits o (omega (arith, length-sorted h.entries)))
      ∙ contains-sorted show s h.entries

  -- A valid value that is merged is an entry afterwards, as long as the entries do not pass the limit.
  pub merge_complete :
      (h : History) (xs : List Value) (v : Value) (ys : List Value) (e : Entry)
      → IsConsistent show h
      → valid_entry v ≡ some e
      → length (collect show h (xs ++ (v ∷ ys))).0.entries ≤ history_limit
      → contains (identity show e) (ids show (merge show h (xs ++ (v ∷ ys))).1.entries) ≡ true
  unfolding merge
  merge_complete h xs v ys e c k fits =
      let values = xs ++ (v ∷ ys) in
      settled_fits (identity show e) (collect show h values) fits
      ∙ sym ((collect-IsConsistent show h values c).seen_eq (identity show e))
      ∙ collect_sees h xs v ys e k
