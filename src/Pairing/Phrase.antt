-- ===== src/Pairing/Phrase.antt =====
-- src/pairing-identity.js, `createPairingPhrase`. The random bytes are an input: each call of
-- `randomBytes(32)` takes the next block.
pub mod Shape
use git_pigeon.Prelude.{
  ℕ, zero, suc, ◌+◌, ◌*◌, ◌%◌, ◌≤◌, ◌<◌, ◌≡◌, refl, ap, ◌∙◌, sym, Bool, true, false, not, ◌&&◌,
  ◌||◌, Option, none, some, List, [], ◌∷◌, ◌++◌, ◌⊎◌, arith, ltb, leb, ◌==◌, length, length-append,
  take, drop, filter, any, if◌then◌else◌, Bool-cases, inl, inr,
}
use git_pigeon.Prelude.Text.{Text, text}
use git_pigeon.Prelude.Patterns.{every, is_upper, is_digit}

abbrev pub phrase_alphabet : Text
phrase_alphabet = text "ABCDEFGHJKMNPQRSTVWXYZ23456789"

abbrev pub symbol_at : Text → ℕ → ℕ
symbol_at [] i = 0
symbol_at (c ∷ s) zero = c
symbol_at (c ∷ s) (suc i) = symbol_at s i

-- The `for` loop over one block. 12 symbols make a phrase.
unfoldable pub take_symbols : Text → List ℕ → Text
take_symbols symbols [] = symbols
take_symbols symbols (value ∷ block) =
    take_symbols
      (if ltb value 240 && ltb (length symbols) 12
        then symbols ++ (symbol_at phrase_alphabet (value % 30) ∷ [])
        else symbols)
      block

-- The `while` loop; `none` where the blocks given run out.
unfoldable pub draw : Text → List (List ℕ) → Option Text
unfolding take_symbols
draw symbols [] = if ltb (length symbols) 12 then none else some symbols
draw symbols (block ∷ blocks) =
    let rest = draw (take_symbols symbols block) blocks in
    if ltb (length symbols) 12 then rest else some symbols

-- Three groups of four, joined by dashes.
unfoldable pub grouped : Text → Text
grouped symbols =
    take 4 symbols ++ (b'-' ∷ (take 4 (drop 4 symbols) ++ (b'-' ∷ take 4 (drop 8 symbols))))

unfoldable pub create_pairing_phrase : List (List ℕ) → Option Text
unfolding draw grouped
create_pairing_phrase blocks = elim (draw [] blocks) [
  | none ↦ none
  | some symbols ↦ some (grouped symbols)
]

-- How many bytes of a block are taken by the rejection sampling.
abbrev pub accepted : List ℕ → ℕ
accepted [] = 0
accepted (value ∷ block) = if ltb value 240 then suc (accepted block) else accepted block

abbrev pub accepted_all : List (List ℕ) → ℕ
accepted_all [] = 0
accepted_all (block ∷ blocks) = accepted block + accepted_all blocks
