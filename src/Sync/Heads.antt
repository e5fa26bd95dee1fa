-- ===== src/Sync/Heads.antt =====
-- src/protocol.js, `#acceptRegistry`, `#acceptHead`, `#acceptValidatedHead` and `#reconcileOwnHead`:
-- what a synchroniser does when it learns of another machine, or of its newest snapshot. How an import
-- ends is a parameter, and so is what the storage holds; heads are taken one after the other.
pub mod Own
pub mod Backoff
use git_pigeon.Prelude.{
  ℕ, ◌+◌, ◌*◌, ◌/◌, Bool, true, false, not, ◌&&◌, ◌||◌, ◌==◌, Option, none, some, List, [], ◌∷◌,
  ◌++◌, take, length, any, filter, ltb, leb, if◌then◌else◌,
}
use git_pigeon.Prelude.Text.{Text, text, text_eq, contains}
use git_pigeon.Prelude.Assoc.{Assoc, get, put, remove_if, remove}
use git_pigeon.Sync.Chunks.{protocol}
use git_pigeon.Sync.Records.{
  RawHead, Head, RawRegistry, validate_head, validate_registry, sorted_unique,
}

abbrev pub import_retry_min_ms : ℕ
import_retry_min_ms = 60000

abbrev pub import_retry_max_ms : ℕ
import_retry_max_ms = 1800000

pub record Wait : Type 0 where
  pub until : ℕ
  pub wait : ℕ

pub record State : Type 0 where
  pub heads : Assoc RawHead
  pub imported : Assoc Text
  pub imported_refs : Assoc (Option Text)
  -- A set.
  pub devices : List Text
  pub registry_devices : List Text
  -- `importBackoff`, by device and snapshot.
  pub backoff : Assoc Wait

-- A conflict of the import into Git: `working-tree-not-clean`, or another one.
pub data Conflict : Type 0 where
  tree_not_clean other_conflict : Conflict

-- How the import of a snapshot ends. A throw while its manifest is retrieved is not caught, and puts
-- nothing off; a throw after that is.
pub data Import : Type 0 where
  no_manifest threw manifest_threw : Import
  finished : List Conflict → Import

-- What happens to a head: it is not imported, its import was tried, or the own head is written again.
pub data Effect : Type 0 where
  no_import : Effect
  tried : Import → Effect
  reasserted : Head → Effect

abbrev pub is_dirty : List Conflict → Bool
is_dirty [] = false
is_dirty (tree_not_clean ∷ cs) = true
is_dirty (other_conflict ∷ cs) = is_dirty cs

abbrev pub with_member : Text → List Text → List Text
with_member s set = if contains s set then set else set ++ (s ∷ [])

-- `${head.deviceId}:${head.snapshotId}`
unfoldable pub attempt_key : Text → Text → Text
attempt_key device_id snapshot_id = device_id ++ (b':' ∷ snapshot_id)

-- `key.startsWith(`${head.deviceId}:`)`
unfoldable pub is_of_device : Text → Text → Bool
is_of_device device_id key = text_eq (take (length device_id + 1) key) (device_id ++ (b':' ∷ []))

abbrev pub min : ℕ → ℕ → ℕ
min a b = if leb a b then a else b

-- `Math.min((backoff?.wait ?? IMPORT_RETRY_MIN_MS / 2) * 2, IMPORT_RETRY_MAX_MS)`
unfoldable pub next_wait : Option Wait → ℕ
next_wait none = min (import_retry_min_ms / 2 * 2) import_retry_max_ms
next_wait (some b) = min (b.wait * 2) import_retry_max_ms

abbrev pub waits : Option Wait → ℕ → Bool
waits none now = false
waits (some b) now = ltb now b.until

abbrev pub raw_head : Text → Head → RawHead
raw_head repository_id h = record {
  protocol = protocol;
  repository_id = repository_id;
  device_id = h.device_id;
  snapshot_id = h.snapshot_id;
  refs_digest = h.refs_digest;
  content_digest = some h.content_digest;
  updated_at = h.updated_at;
}

-- `key.startsWith(`${head.deviceId}:`) && key !== attemptKey`
abbrev pub is_stale : Head → Text → Bool
is_stale head k =
    is_of_device head.device_id k && not (text_eq k (attempt_key head.device_id head.snapshot_id))

abbrev pub wait_until : ℕ → ℕ → Wait
wait_until now wait = record { until = now + wait; wait = wait }

-- `deferImport`
unfoldable pub defer_import : ℕ → Head → State → State
unfolding next_wait is_of_device attempt_key
defer_import now head s =
    let key = attempt_key head.device_id head.snapshot_id in
    let wait = next_wait (get key s.backoff) in
    record s { backoff = put key (wait_until now wait) (remove_if (is_stale head) s.backoff) }

abbrev pub set_refs : List Conflict → Head → State → State
set_refs [] head s = record s {
  imported_refs = put head.device_id head.refs_digest s.imported_refs;
}
set_refs (c ∷ cs) head s = s

abbrev pub taken : Head → State → State
taken head s = record s {
  imported = put head.device_id head.snapshot_id s.imported;
  backoff = remove (attempt_key head.device_id head.snapshot_id) s.backoff;
}

-- After an import that has come to its end.
unfoldable pub finish_import : ℕ → Head → List Conflict → State → State
unfolding defer_import attempt_key
finish_import now head conflicts s =
    set_refs conflicts head (if is_dirty conflicts then defer_import now head s else taken head s)

unfoldable pub after_import : ℕ → Head → Import → State → State
unfolding defer_import finish_import
after_import now head no_manifest s = defer_import now head s
after_import now head threw s = defer_import now head s
after_import now head manifest_threw s = s
after_import now head (finished conflicts) s = finish_import now head conflicts s

abbrev pub is_equal : Option Text → Text → Bool
is_equal none t = false
is_equal (some s) t = text_eq s t

abbrev pub known : Head → State → State
known head s = record s { devices = with_member head.device_id s.devices }

abbrev pub with_head : Text → Head → State → State
with_head repository_id head s = record s {
  heads = put head.device_id (raw_head repository_id head) s.heads;
}

-- A head of this machine: another snapshot than the one that was published does not count.
abbrev pub own_head : Text → Option Head → Head → State → State × Effect
own_head repository_id none head s = (with_head repository_id head s, no_import)
own_head repository_id (some desired) head s =
    if not (text_eq desired.snapshot_id head.snapshot_id)
    then (s, reasserted desired)
    else (with_head repository_id head s, no_import)

module _ (repository_id own : Text) (import_of : Head → Import) where
  -- A head of another machine, once it is written down.
  unfoldable pub import_head : ℕ → Head → State → State × Effect
  unfolding after_import attempt_key
  import_head now head s =
      if is_equal (get head.device_id s.imported) head.snapshot_id
      then (s, no_import)
      else if waits (get (attempt_key head.device_id head.snapshot_id) s.backoff) now
      then (s, no_import)
      else (after_import now head (import_of head) s, tried (import_of head))

  -- `#acceptValidatedHead`
  unfoldable pub accept_validated_head : ℕ → Head → State → State × Effect
  unfolding import_head validate_head
  accept_validated_head now head s =
      if text_eq head.device_id own
      then own_head repository_id (validate_head repository_id (get own s.heads)) head
          (known head s)
      else import_head now head (with_head repository_id head (known head s))

  abbrev pub accept_valid : ℕ → Option Head → State → State × Effect
  accept_valid now none s = (s, no_import)
  accept_valid now (some head) s = accept_validated_head now head s

  -- `#acceptHead`
  unfoldable pub accept_head : ℕ → Option RawHead → State → State × Effect
  unfolding accept_validated_head validate_head
  accept_head now value s = accept_valid now (validate_head repository_id value) s

  abbrev pub joined : List Text → List Text → List Text
  joined [] set = set
  joined (d ∷ ds) set = joined ds (with_member d set)

  -- `#acceptRegistry`: the devices, those that the registry has, and those that are new.
  abbrev pub with_registry : Option (List Text) → State → State
  with_registry none s = record s { devices = with_member own s.devices }
  with_registry (some devices) s = record s {
    registry_devices = devices;
    devices = with_member own (joined devices s.devices);
  }

  unfoldable pub accept_registry : Option RawRegistry → State → State × List Text
  unfolding validate_registry sorted_unique
  accept_registry value s =
      let after = with_registry (validate_registry repository_id value) s in
      (
        after,
        filter (λ d. not (text_eq d own) && not (contains d s.devices))
            (sorted_unique after.devices),
      )

  abbrev pub same_strings : List Text → List Text → Bool
  same_strings [] [] = true
  same_strings [] (y ∷ ys) = false
  same_strings (x ∷ xs) [] = false
  same_strings (x ∷ xs) (y ∷ ys) = text_eq x y && same_strings xs ys

  -- `#publishRegistryIfNeeded`: the devices that are put into the registry, if they are others.
  unfoldable pub publish_registry_if_needed : State → State × Option (List Text)
  unfolding sorted_unique
  publish_registry_if_needed s =
      let devices = sorted_unique s.devices in
      if same_strings devices s.registry_devices
      then (s, none)
      else (record s { registry_devices = devices }, some devices)

  abbrev adopt : Option Head → State → State × Option Head
  adopt none s = (s, none)
  adopt (some observed) s =
      (record s { heads = put own (raw_head repository_id observed) s.heads }, none)

  abbrev reassert : Option Head → Head → State → State × Option Head
  reassert none desired s = (s, some desired)
  reassert (some observed) desired s =
      if text_eq observed.snapshot_id desired.snapshot_id then (s, none) else (s, some desired)

  abbrev pub reconcile : Option Head → Option Head → State → State × Option Head
  reconcile none observed s = adopt observed s
  reconcile (some desired) observed s = reassert observed desired s

  -- `#reconcileOwnHead`: the own head that is put into the storage, if one is.
  unfoldable pub reconcile_own_head : Option RawHead → State → State × Option Head
  unfolding validate_head
  reconcile_own_head record_value s =
      reconcile (validate_head repository_id (get own s.heads))
        (validate_head repository_id record_value) s
