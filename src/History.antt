-- ===== src/History.antt =====
-- src/terminal-history.js: the terminal history that the machines share. The file that the shells
-- read is the list of lines appended to it; `show` is the engine's writing of a number.
pub mod Merge
pub mod Seen
use git_pigeon.Prelude.{
  ℕ, ◌-◌, Bool, true, false, not, ◌&&◌, ◌||◌, ◌==◌, Option, none, some, List, [], ◌∷◌, ◌++◌, map,
  take, drop, filter, length, ltb, if◌then◌else◌,
}
use git_pigeon.Prelude.Sorting.{sort_by}
use git_pigeon.Prelude.Text.{Text, text_eq, trim, contains, is_empty}

abbrev pub history_limit : ℕ
history_limit = 500

abbrev pub max_line_length : ℕ
max_line_length = 2000

pub record Entry : Type 0 where
  pub at : ℕ
  pub device : Text
  pub line : Text

-- A value of an array of entries: `none` where `Number(at)` is no safe integer or is negative; the
-- texts are empty where they are missing.
pub record Value : Type 0 where
  pub at : Option ℕ
  pub device : Text
  pub line : Text

-- `seen` is a set.
pub record History : Type 0 where
  pub entries : List Entry
  pub seen : List Text

abbrev blank : ℕ → ℕ
blank c = if c == 0 || c == 10 || c == 13 then 32 else c

unfoldable pub clean_line : Text → Text
clean_line line = take max_line_length (trim (map blank line))

abbrev pub dated : Option ℕ → Text → Text → Option Entry
dated none device line = none
dated (some at) device line =
    if at == 0 || is_empty line
    then none
    else some (record { at = at; device = take 64 device; line = line })

-- `validEntry` of an object.
unfoldable pub valid_entry : Value → Option Entry
unfolding clean_line
valid_entry v = dated v.at v.device (clean_line v.line)

abbrev pub older : Entry → Entry → Bool
older e f = ltb e.at f.at

-- `entries.sort((a, b) => a.at - b.at)`
unfoldable pub sorted : List Entry → List Entry
unfolding sort_by
sorted = sort_by older

-- `fresh.filter((entry) => entry.device !== deviceId)`
abbrev keep_others : Text → List Entry → List Entry
keep_others device_id = filter (λ e. not (text_eq e.device device_id))

abbrev last_line : List Entry → Option Text
last_line [] = none
last_line (e ∷ []) = some e.line
last_line (e ∷ y ∷ ys) = last_line (y ∷ ys)

abbrev is_repeated : Option Text → Text → Bool
is_repeated none line = false
is_repeated (some last) line = text_eq last line

module _ (show : ℕ → Text) where
  unfoldable pub identity : Entry → Text
  identity e = show e.at ++ ((0 ∷ e.device) ++ (0 ∷ e.line))

  unfoldable pub accepted : List Text → Option Entry → Option Entry
  unfolding identity
  accepted seen none = none
  accepted seen (some e) = if contains (identity e) seen then none else some e

  unfoldable pub push : History → Option Entry → History
  unfolding identity
  push h none = h
  push h (some e) = record { entries = h.entries ++ (e ∷ []); seen = identity e ∷ h.seen }

  abbrev pub or_cons : Option Entry → List Entry → List Entry
  or_cons none es = es
  or_cons (some e) es = e ∷ es

  -- The loop of `merge` over the values: the history afterwards, and the fresh entries.
  unfoldable pub collect : History → List Value → History × List Entry
  unfolding push accepted valid_entry
  collect h [] = (h, [])
  collect h (v ∷ vs) =
      let e = accepted h.seen (valid_entry v) in
      let rest = collect (push h e) vs in (rest.0, or_cons e rest.1)

  -- The newest entries, up to the limit; the others are no longer seen.
  unfoldable pub capped : History → History
  unfolding identity
  capped h =
      if ltb history_limit (length h.entries)
      then (let excess = length h.entries - history_limit in
          record {
            entries = drop excess h.entries;
            seen = filter (λ s. not (contains s (map identity (take excess h.entries)))) h.seen;
          })
      else h

  abbrev pub settled : History × List Entry → Bool × History
  settled (h, []) = (false, h)
  settled (h, e ∷ es) = (true, capped (record h { entries = sorted h.entries }))

  -- `merge` of an array: whether anything was fresh, and the history.
  unfoldable pub merge : History → List Value → Bool × History
  unfolding collect capped sorted
  merge h values = settled (collect h values)

  -- The lines that `merge` appends to the spool: those of the fresh entries of other devices.
  unfoldable pub spooled : Text → History → List Value → List Text
  unfolding collect
  spooled device_id h values = map (λ e. e.line) (keep_others device_id (collect h values).1)

  abbrev pub value_of : Entry → Value
  value_of e = record { at = some e.at; device = e.device; line = e.line }

  -- `add` of an entry that is valid: whether it is published, and the history.
  unfoldable pub add_entry : History → Option Entry → Bool × History
  unfolding merge
  add_entry h none = (false, h)
  add_entry h (some e) =
      if is_repeated (last_line h.entries) e.line then (false, h) else merge h (value_of e ∷ [])

  unfoldable pub add : Text → History → ℕ → Text → Bool × History
  unfolding add_entry valid_entry
  add device_id h at line =
      add_entry h (valid_entry (record { at = some at; device = device_id; line = line }))

  -- `publish`: merges what is stored and stores the entries.
  unfoldable pub publish : History → List Value → History × List Value
  unfolding merge
  publish h stored = let next = (merge h stored).1 in (next, map value_of next.entries)
