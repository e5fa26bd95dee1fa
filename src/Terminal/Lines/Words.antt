-- ===== src/Terminal/Lines/Words.antt =====
-- src/terminal-server.js, `quoteShell`: what a POSIX shell reads of the text.
use git_pigeon.Prelude.{
  ℕ, Bool, false, ◌||◌, Option, none, some, [], ◌∷◌, ◌++◌, ◌==◌, if◌then◌else◌, Bool-cases, ◌≡◌,
  refl, ap, ◌∙◌, inl, inr, arith,
}
use mathlib.Core.List.{append_assoc}
use git_pigeon.Prelude.Text.{Text, text, text_eq}
use git_pigeon.Terminal.Lines.{replace_all, single, broken, quote_shell, change_directory_line}

-- Within a word: outside of quotes, within single quotes, and after a backslash.
pub data Mode : Type 0 where
  bare quoted escaped : Mode

pub data Turn : Type 0 where
  ends : Turn
  enters takes : Mode → Turn

abbrev is_blank : ℕ → Bool
is_blank c = c == 32 || c == 9 || c == 10 || c == 13

abbrev turn_of : Mode → ℕ → Turn
turn_of quoted c = if c == single then enters bare else takes quoted
turn_of escaped c = takes bare
turn_of bare c =
    if c == single
    then enters quoted
    else if c == 92
    then enters escaped
    else if is_blank c
    then ends
    else takes bare

abbrev word_on : ℕ → Option (Text × Text) → Option (Text × Text)
word_on c none = none
word_on c (some (word, rest)) = some (c ∷ word, rest)

abbrev go_on : Turn → ℕ → Text → (Mode → Option (Text × Text)) → Option (Text × Text)
go_on ends c s read = some ([], c ∷ s)
go_on (enters m) c s read = read m
go_on (takes m) c s read = word_on c (read m)

-- The word at the start of a text, and the text from the blank after it.
unfoldable pub read_word : Mode → Text → Option (Text × Text)
read_word bare [] = some ([], [])
read_word quoted [] = none
read_word escaped [] = none
read_word m (c ∷ s) = go_on (turn_of m c) c s (λ n. read_word n s)

quoted_lem :
    (value rest : Text)
    → read_word quoted (replace_all single broken value ++ (single ∷ 13 ∷ rest))
      ≡ some (value, 13 ∷ rest)
unfolding read_word replace_all
quoted_lem [] rest = refl
quoted_lem (c ∷ value) rest = elim (Bool-cases (c == single)) [
  | inl e ↦ rw e (
      ap (word_on single) (quoted_lem value rest)
      ∙ ap (λ (d : ℕ). some (d ∷ value, 13 ∷ rest)) (ground (arith, e)))
  | inr e ↦ rw (e, e) (ap (word_on c) (quoted_lem value rest))
]

-- A POSIX shell reads what is quoted as one word, which is the value, whatever characters it has; the line of a
-- change of directory has exactly that after its command.
pub change_directory_line-read_word :
    (flavor directory rest : Text)
    → text_eq flavor (text "powershell") ≡ false
    → text_eq flavor (text "cmd") ≡ false
    → (change_directory_line flavor directory
        ≡ text " clear; cd " ++ (quote_shell directory ++ (13 ∷ [])))
      × (read_word bare (quote_shell directory ++ (13 ∷ rest)) ≡ some (directory, 13 ∷ rest))
unfolding change_directory_line
change_directory_line-read_word flavor directory rest h k = (
  rw (h, k) refl,
  unfold quote_shell read_word in
      rw (append_assoc (replace_all single broken directory) (single ∷ []) (13 ∷ rest))
        (quoted_lem directory rest),
)
