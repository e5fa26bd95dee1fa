-- ===== src/Pairing/Phrase/Shape.antt =====
-- src/pairing-identity.js, `createPairingPhrase`: a phrase has twelve symbols, and there is one as
-- soon as the random bytes suffice.
use git_pigeon.Prelude.{
  ℕ, zero, suc, ◌+◌, ◌%◌, ◌≤◌, ◌<◌, ◌≡◌, refl, ap, ◌∙◌, sym, Bool, true, false, ◌&&◌, ◌||◌, some,
  List, [], ◌∷◌, ◌++◌, ◌⊎◌, arith, ltb, ◌==◌, length, length-append, take, drop, filter, take-drop,
  take_all, drop-drop, length-drop, Bool-cases, inl, inr,
}
use git_pigeon.Prelude.Text.{Text}
use git_pigeon.Prelude.Patterns.{every, is_upper, is_digit}
use git_pigeon.Pairing.Window.{normalize_pairing_phrase}
use git_pigeon.Pairing.Phrase.{
  phrase_alphabet, symbol_at, take_symbols, draw, grouped, create_pairing_phrase, accepted,
  accepted_all,
}

abbrev is_alphanumeric : ℕ → Bool
is_alphanumeric c = is_upper c || is_digit c

length-take_symbols :
    (symbols : Text) (block : List ℕ)
    → length symbols ≤ 12
    → (length (take_symbols symbols block) ≤ 12)
      × ((12 ≤ length (take_symbols symbols block))
          ⊎ (length symbols + accepted block ≤ length (take_symbols symbols block)))
unfolding take_symbols
length-take_symbols symbols [] h = (h, inr (omega arith))
length-take_symbols symbols (value ∷ block) h =
    let added = length-append symbols (symbol_at phrase_alphabet (value % 30) ∷ []) in
    elim (Bool-cases (ltb value 240 && ltb (length symbols) 12)) [
      | inl e ↦ rw e (
          ground (
            arith,
            length-take_symbols (symbols ++ (symbol_at phrase_alphabet (value % 30) ∷ [])) block
                (ground arith),
          ))
      | inr e ↦ rw e (ground (arith, length-take_symbols symbols block h))
    ]

draw_total :
    (symbols : Text) (blocks : List (List ℕ))
    → length symbols ≤ 12
    → 12 ≤ length symbols + accepted_all blocks
    → (s : Text) × (draw symbols blocks ≡ some s) × (length s ≡ 12)
unfolding draw
draw_total symbols [] h e = (symbols, ground arith, omega arith)
draw_total symbols (block ∷ blocks) h e = elim (Bool-cases (ltb (length symbols) 12)) [
  | inl more ↦ rw more (
      draw_total (take_symbols symbols block) blocks (length-take_symbols symbols block h).0
        (ground (arith, length-take_symbols symbols block h)))
  | inr done ↦ rw done (symbols, refl, ground arith)
]

every-symbol_at :
    (p : ℕ → Bool) (s : Text) (i : ℕ) → every p s ≡ true → i < length s → p (symbol_at s i) ≡ true
unfolding every
every-symbol_at p [] i h l = absurd (omega arith)
every-symbol_at p (c ∷ s) zero h l = ground arith
every-symbol_at p (c ∷ s) (suc i) h l = every-symbol_at p s i (ground arith) (omega arith)

every-snoc :
    (p : ℕ → Bool) (s : Text) (c : ℕ)
    → every p s ≡ true
    → p c ≡ true
    → every p (s ++ (c ∷ [])) ≡ true
unfolding every
every-snoc p [] c h hc = ground arith
every-snoc p (x ∷ s) c h hc = ground (arith, every-snoc p s c)

alphabet-alphanumeric : every is_alphanumeric phrase_alphabet ≡ true
unfolding every
alphabet-alphanumeric = refl

symbol-alphanumeric : (v : ℕ) → is_alphanumeric (symbol_at phrase_alphabet (v % 30)) ≡ true
symbol-alphanumeric v =
    every-symbol_at is_alphanumeric phrase_alphabet (v % 30) alphabet-alphanumeric (omega arith)

take_symbols-alphanumeric :
    (symbols : Text) (block : List ℕ)
    → every is_alphanumeric symbols ≡ true
    → every is_alphanumeric (take_symbols symbols block) ≡ true
unfolding take_symbols
take_symbols-alphanumeric symbols [] h = h
take_symbols-alphanumeric symbols (value ∷ block) h =
    elim (Bool-cases (ltb value 240 && ltb (length symbols) 12)) [
      | inl e ↦ rw e (
          take_symbols-alphanumeric (symbols ++ (symbol_at phrase_alphabet (value % 30) ∷ [])) block
            (every-snoc is_alphanumeric symbols _ h (symbol-alphanumeric value)))
      | inr e ↦ rw e (take_symbols-alphanumeric symbols block h)
    ]

draw-alphanumeric :
    (symbols : Text) (blocks : List (List ℕ)) (s : Text)
    → every is_alphanumeric symbols ≡ true
    → draw symbols blocks ≡ some s
    → every is_alphanumeric s ≡ true
unfolding draw
draw-alphanumeric symbols [] s h e = ground arith
draw-alphanumeric symbols (block ∷ blocks) s h e = ground (
  arith,
  draw-alphanumeric (take_symbols symbols block) blocks s
      (take_symbols-alphanumeric symbols block h),
)

every-take : (p : ℕ → Bool) (n : ℕ) (s : Text) → every p s ≡ true → every p (take n s) ≡ true
unfolding every
every-take p zero s h = refl
every-take p (suc n) [] h = refl
every-take p (suc n) (c ∷ s) h = ground (arith, every-take p n s)

every-drop : (p : ℕ → Bool) (n : ℕ) (s : Text) → every p s ≡ true → every p (drop n s) ≡ true
unfolding every
every-drop p zero s h = h
every-drop p (suc n) [] h = refl
every-drop p (suc n) (c ∷ s) h = every-drop p n s (ground arith)

filter-every : (p : ℕ → Bool) (s : Text) → every p s ≡ true → filter p s ≡ s
unfolding filter every
filter-every p [] h = refl
filter-every p (c ∷ s) h = ground (arith, filter-every p s)

filter-skip :
    (p : ℕ → Bool) (s : Text) (c : ℕ) (t : Text)
    → every p s ≡ true
    → p c ≡ false
    → filter p (s ++ (c ∷ t)) ≡ s ++ filter p t
unfolding filter every
filter-skip p [] c t h hc = ground arith
filter-skip p (x ∷ s) c t h hc = ground (arith, filter-skip p s c t)

three_groups : (s : Text) → length s ≡ 12 → take 4 s ++ (take 4 (drop 4 s) ++ take 4 (drop 8 s)) ≡ s
three_groups s l =
    let last : take 4 (drop 8 s) ≡ drop 4 (drop 4 s) =
      take_all 4 (drop 8 s) (omega (arith, length-drop 8 s)) ∙ sym (drop-drop 4 4 s) in
    ap (λ t. take 4 s ++ (take 4 (drop 4 s) ++ t)) last
    ∙ ap (◌++◌ (take 4 s)) (take-drop 4 (drop 4 s))
    ∙ take-drop 4 s

-- The dashes are no part of the secret.
filter-grouped :
    (s : Text)
    → length s ≡ 12
    → every is_alphanumeric s ≡ true
    → filter is_alphanumeric (grouped s) ≡ s
unfolding grouped
filter-grouped s l h =
    let h4 = every-drop is_alphanumeric 4 s h in
    let h8 = every-drop is_alphanumeric 8 s h in
    filter-skip is_alphanumeric (take 4 s) b'-' (take 4 (drop 4 s) ++ (b'-' ∷ take 4 (drop 8 s)))
      (every-take is_alphanumeric 4 s h) refl
    ∙ ap (◌++◌ (take 4 s)) (
        filter-skip is_alphanumeric (take 4 (drop 4 s)) b'-' (take 4 (drop 8 s))
          (every-take is_alphanumeric 4 (drop 4 s) h4) refl
        ∙ ap (◌++◌ (take 4 (drop 4 s))) (
            filter-every is_alphanumeric (take 4 (drop 8 s))
              (every-take is_alphanumeric 4 (drop 8 s) h8)))
    ∙ three_groups s l

abbrev is_plain : ℕ → Bool
is_plain c = is_upper c || is_digit c || c == b'-'

every-plain :
    (s t : Text)
    → every is_alphanumeric s ≡ true
    → every is_plain t ≡ true
    → every is_plain (s ++ t) ≡ true
unfolding every
every-plain [] t h k = k
every-plain (c ∷ s) t h k = ground (arith, every-plain s t)

plain-of_alphanumeric : (s : Text) → every is_alphanumeric s ≡ true → every is_plain s ≡ true
unfolding every
plain-of_alphanumeric [] h = refl
plain-of_alphanumeric (c ∷ s) h = ground (arith, plain-of_alphanumeric s)

plain-dash : (t : Text) → every is_plain t ≡ true → every is_plain (b'-' ∷ t) ≡ true
unfolding every
plain-dash t h = h

grouped-plain : (s : Text) → every is_alphanumeric s ≡ true → every is_plain (grouped s) ≡ true
unfolding grouped
grouped-plain s h = every-plain (take 4 s) _ (every-take is_alphanumeric 4 s h) (
    plain-dash _ (
      every-plain (take 4 (drop 4 s)) _
        (every-take is_alphanumeric 4 (drop 4 s) (every-drop is_alphanumeric 4 s h))
        (plain-dash _ (
          plain-of_alphanumeric (take 4 (drop 8 s))
            (every-take is_alphanumeric 4 (drop 8 s) (every-drop is_alphanumeric 8 s h))))))

created :
    (blocks : List (List ℕ)) (s : Text)
    → draw [] blocks ≡ some s
    → create_pairing_phrase blocks ≡ some (grouped s)
unfolding create_pairing_phrase
created blocks s e = rw (e, create_pairing_phrase)

module _ (to_upper : Text → Text) where
  -- As soon as the random blocks have twelve bytes below 240 there is a phrase, and normalising it
  -- leaves twelve symbols, given that upper-casing leaves upper case letters, digits and dashes alone.
  pub create_total :
      ((s : Text) → every (λ c. is_upper c || is_digit c || c == b'-') s ≡ true → to_upper s ≡ s)
      → (blocks : List (List ℕ)) → 12 ≤ accepted_all blocks
      → (phrase : Text) × (create_pairing_phrase blocks ≡ some phrase)
        × (length (normalize_pairing_phrase to_upper phrase) ≡ 12)
  create_total plain blocks h =
      let (s, e, l) = draw_total [] blocks (omega arith) (omega arith) in
      let alnum = draw-alphanumeric [] blocks s (unfold every in refl) e in
      (
        grouped s,
        created blocks s e,
        unfold normalize_pairing_phrase in
            rw (plain (grouped s) (grouped-plain s alnum), filter-grouped s l alnum) l,
      )
