-- ===== src/Examples/HistoryRuns.antt =====
-- Terminal histories, by src/terminal-history.js.
use git_pigeon.Prelude.{ℕ, zero, suc, ◌≡◌, refl, true, none, some, [], ◌∷◌, ◌++◌, arith, length}
use git_pigeon.Prelude.Sorting.{sort_by, insert_by}
use git_pigeon.Prelude.Text.{Text, text, text_eq, trim, trim_start, is_space, contains, is_empty}
use git_pigeon.History.{
  Entry, Value, History, identity, collect, merge, push, accepted, valid_entry, clean_line, sorted,
  capped,
}
use git_pigeon.History.Seen.{IsConsistent, ids, merge-IsConsistent, empty-IsConsistent}
use git_pigeon.History.Merge.{merge_complete}

-- A number is written as as many letters.
abbrev show : ℕ → Text
show zero = []
show (suc n) = b'a' ∷ show n

abbrev nothing : History
nothing = record { entries = []; seen = [] }

abbrev later : Value
later = record { at = some 2; device = text "mini"; line = text " ls " }

abbrev earlier : Value
earlier = record { at = some 1; device = text "desk"; line = text "pwd" }

abbrev undated : Value
undated = record { at = none; device = text "desk"; line = text "pwd" }

abbrev pwd : Entry
pwd = record { at = 1; device = text "desk"; line = text "pwd" }

abbrev ls : Entry
ls = record { at = 2; device = text "mini"; line = text "ls" }

nothing_run :
    (merge show nothing (later ∷ earlier ∷ undated ∷ later ∷ [])).1.entries ≡ pwd ∷ ls ∷ []
unfolding merge collect push accepted valid_entry clean_line sorted sort_by insert_by capped
    identity contains text_eq trim trim_start is_space is_empty
nothing_run = refl

merge-IsConsistent_example :
    IsConsistent show (merge show nothing (later ∷ earlier ∷ undated ∷ later ∷ [])).1
merge-IsConsistent_example =
    merge-IsConsistent show nothing (later ∷ earlier ∷ undated ∷ later ∷ [])
      (empty-IsConsistent show)

merge_complete_example :
    contains
      (identity show pwd)
      (ids show (merge show nothing ((later ∷ []) ++ (earlier ∷ undated ∷ []))).1.entries)
    ≡ true
unfolding collect push accepted valid_entry clean_line identity contains text_eq trim trim_start
    is_space is_empty
merge_complete_example =
    let two : length (collect show nothing ((later ∷ []) ++ (earlier ∷ undated ∷ []))).0.entries
        ≡ 2 =
      refl in
    merge_complete show nothing (later ∷ []) earlier (undated ∷ []) pwd (empty-IsConsistent show)
      refl (omega arith)
