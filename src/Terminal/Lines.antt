-- ===== src/Terminal/Lines.antt =====
-- src/terminal-server.js, `quoteShell` and `changeDirectoryLine`: the lines that are typed into a shell.
pub mod Words
use git_pigeon.Prelude.{ℕ, List, [], ◌∷◌, ◌++◌, ◌==◌, if◌then◌else◌}
use git_pigeon.Prelude.Text.{Text, text, text_eq}

-- `value.replaceAll(c, by)`, of one code unit
unfoldable pub replace_all : ℕ → Text → Text → Text
replace_all c by [] = []
replace_all c by (d ∷ s) = (if d == c then by else d ∷ []) ++ replace_all c by s

abbrev pub single : ℕ
single = 39

-- A quote, a backslash, and two quotes: the quoted part ends, a quote follows, and the next part starts.
abbrev pub broken : Text
broken = 39 ∷ 92 ∷ 39 ∷ 39 ∷ []

-- `quoteShell`
unfoldable pub quote_shell : Text → Text
unfolding replace_all
quote_shell value = (single ∷ []) ++ (replace_all single broken value ++ (single ∷ []))

-- `changeDirectoryLine`
unfoldable pub change_directory_line : Text → Text → Text
unfolding replace_all quote_shell text_eq
change_directory_line flavor directory =
    if text_eq flavor (text "powershell")
    then text " Clear-Host; Set-Location -LiteralPath '"
      ++ (replace_all single (text "''") directory ++ (single ∷ 13 ∷ []))
    else if text_eq flavor (text "cmd")
    then text " cls & cd /d " ++ (34 ∷ (replace_all 34 [] directory ++ (34 ∷ 13 ∷ [])))
    else text " clear; cd " ++ (quote_shell directory ++ (13 ∷ []))
