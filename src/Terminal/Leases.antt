-- ===== src/Terminal/Leases.antt =====
-- src/terminal-server.js, `addRepository`, `repositoryRoot`, `start`, `#listen`, `stop` and `#workingDirectory`: the
-- repositories that the server is told of, and the rooms that it listens to. Entries are told apart by a number;
-- what a message of a room does is in Sessions.
pub mod Listening
use git_pigeon.Prelude.{
  ℕ, ◌+◌, Bool, true, false, not, ◌||◌, Option, none, some, is_some, List, [], ◌∷◌, ◌++◌, map,
  filter, any, ◌==◌, if◌then◌else◌,
}
use git_pigeon.Prelude.Assoc.{Assoc, get, put, remove}
use git_pigeon.Prelude.Text.{Text, text_eq, is_empty, contains}

pub record LocalClone : Type 0 where
  pub lease : ℕ
  pub root : Text

-- `released` has the leases that were released.
pub record Roads : Type 0 where
  pub serving : Bool
  pub repositories : Assoc (List LocalClone)
  pub subscriptions : List Text
  pub released : List ℕ
  pub next : ℕ

abbrev pub no_roads : Roads
no_roads = record {
  serving = false;
  repositories = [];
  subscriptions = [];
  released = [];
  next = 0;
}

abbrev pub entries_of : Option (List LocalClone) → List LocalClone
entries_of none = []
entries_of (some entries) = entries

-- `#listen`
unfoldable pub listen : Text → List Text → List Text
unfolding contains
listen room rooms = if contains room rooms then rooms else rooms ++ (room ∷ [])

unfoldable pub listen_all : List Text → List Text → List Text
unfolding listen
listen_all [] rooms = rooms
listen_all (room ∷ more) rooms = listen_all more (listen room rooms)

-- `addRepository`, which yields the lease's number, or throws
unfoldable pub add_repository : Text → Text → Roads → Option (ℕ × Roads)
unfolding listen is_empty
add_repository id root s =
    if is_empty id
    then none
    else some (
      s.next,
      record s {
        repositories =
            put id
              (entries_of (get id s.repositories) ++ (record { lease = s.next; root = root } ∷ []))
              s.repositories;
        subscriptions = if s.serving then listen id s.subscriptions else s.subscriptions;
        next = s.next + 1;
      },
    )

abbrev pub left_over : Text → List LocalClone → Roads → Roads
left_over id [] s = record s {
  repositories = remove id s.repositories;
  subscriptions = filter (λ room. not (text_eq room id)) s.subscriptions;
}
left_over id (e ∷ entries) s = record s { repositories = put id (e ∷ entries) s.repositories }

-- `release` of a lease
unfoldable pub release_lease : Text → ℕ → Roads → Roads
release_lease id lease s =
    if any (λ n. n == lease) s.released
    then s
    else left_over id (filter (λ e. not (e.lease == lease)) (entries_of (get id s.repositories)))
        (record s { released = lease ∷ s.released })

abbrev pub first_root : List LocalClone → Option Text
first_root [] = none
first_root (e ∷ entries) = some e.root

-- `repositoryRoot`
unfoldable pub repository_root : Text → Roads → Option Text
repository_root id s = first_root (entries_of (get id s.repositories))

pub data Act : Type 0 where
  adds : Text → Text → Act
  releases : Text → ℕ → Act
  starts stops : Act

abbrev pub unless_thrown : Roads → Option (ℕ × Roads) → Roads
unless_thrown s none = s
unless_thrown s (some (n, t)) = t

-- `stop`
unfoldable pub stop_listening : Roads → Roads
stop_listening s = if s.serving then record s { serving = false; subscriptions = [] } else s

module _ (device_room : Text) where
  -- `start`
  unfoldable pub start_listening : Roads → Roads
  unfolding listen_all
  start_listening s = if s.serving then s else record s {
    serving = true;
    subscriptions = listen_all (map (λ e. e.0) s.repositories) (listen device_room s.subscriptions);
  }

  unfoldable pub act : Act → Roads → Roads
  unfolding add_repository release_lease start_listening stop_listening
  act (adds id root) s = unless_thrown s (add_repository id root s)
  act (releases id lease) s = release_lease id lease s
  act starts s = start_listening s
  act stops s = stop_listening s

  unfoldable pub act_all : List Act → Roads → Roads
  unfolding act
  act_all [] s = s
  act_all (a ∷ acts) s = act_all acts (act a s)

-- `#workingDirectory`, where `exists` is whether `stat` succeeds: the repository that is wanted comes first, then
-- the one whose room it is.
module _ (exists : Text → Bool) where
  abbrev pub usable_root : Option Text → Option Text
  usable_root none = none
  usable_root (some root) = if is_empty root || not (exists root) then none else some root

  abbrev pub root_of : Option Text → Roads → Option Text
  root_of none s = none
  root_of (some id) s = if is_empty id then none else usable_root (repository_root id s)

  abbrev pub first_of : Option Text → Option Text → Option Text
  first_of none other = other
  first_of (some root) other = some root

  unfoldable pub working_directory : Option Text → Option Text → Roads → Option Text
  unfolding repository_root is_empty
  working_directory wanted room s = first_of (root_of wanted s) (root_of room s)
