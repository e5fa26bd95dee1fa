-- ===== src/Sync/Heads/Backoff.antt =====
-- src/protocol.js, `deferImport` in `#acceptValidatedHead`: the waits between imports that fail.
use git_pigeon.Prelude.{
  ◌≡◌, refl, ℕ, ◌≤◌, Bool, true, false, Option, none, some, List, [], ◌∷◌, arith, if◌then◌else◌,
  Bool-cases, Option-cases, inl, inr, All, if-cases,
}
use git_pigeon.Prelude.Text.{Text, text_eq}
use git_pigeon.Prelude.Assoc.{Assoc, get, remove_if, remove, All-put, All-remove_if, All-get}
use git_pigeon.Sync.Records.{RawHead, Head, validate_head}
use git_pigeon.Sync.Heads.{
  State, Wait, Import, Effect, Conflict, import_retry_min_ms, import_retry_max_ms, next_wait,
  defer_import, finish_import, after_import, import_head, accept_validated_head, accept_head,
  attempt_key, waits, own_head, known, is_dirty, with_head, is_equal, set_refs, taken, wait_until,
  is_stale, no_manifest, threw, manifest_threw, finished, tried, no_import, tried, finished,
  no_import,
}

abbrev InBounds : Wait → Type 0
InBounds w = (import_retry_min_ms ≤ w.wait) × (w.wait ≤ import_retry_max_ms)

-- Every import that is put off is put off for a minute at least and for half an hour at most.
unfoldable pub IsPaced : State → Type 0
IsPaced s = All (λ e. InBounds e.1) s.backoff

next_wait-lower :
    (o : Option Wait) → ((w : Wait) → o ≡ some w → InBounds w) → import_retry_min_ms ≤ next_wait o
unfolding next_wait
next_wait-lower none h = ground arith
next_wait-lower (some w) h = ground (arith, h w refl)

next_wait-upper : (o : Option Wait) → next_wait o ≤ import_retry_max_ms
unfolding next_wait
next_wait-upper none = ground arith
next_wait-upper (some w) = ground arith

next_wait-bounds :
    (now : ℕ) (key : Text) (m : Assoc Wait)
    → All (λ e. InBounds e.1) m
    → InBounds (wait_until now (next_wait (get key m)))
next_wait-bounds now key m k =
    (next_wait-lower (get key m) (λ w h. All-get InBounds key w m k h), next_wait-upper (get key m))

defer_import-IsPaced :
    (now : ℕ) (head : Head) (s : State) → IsPaced s → IsPaced (defer_import now head s)
unfolding defer_import IsPaced
defer_import-IsPaced now head s k =
    let key = attempt_key head.device_id head.snapshot_id in
    let wait = next_wait (get key s.backoff) in
    All-put (λ e. InBounds e.1) key (wait_until now wait) (remove_if (is_stale head) s.backoff)
      (λ _. next_wait-bounds now key s.backoff k)
      (All-remove_if (λ e. InBounds e.1) (is_stale head) s.backoff k)

set_refs-IsPaced :
    (cs : List Conflict) (head : Head) (s : State) → IsPaced s → IsPaced (set_refs cs head s)
unfolding IsPaced
set_refs-IsPaced [] head s k = k
set_refs-IsPaced (c ∷ cs) head s k = k

taken-IsPaced : (head : Head) (s : State) → IsPaced s → IsPaced (taken head s)
unfolding IsPaced remove
taken-IsPaced head s k =
    let key = attempt_key head.device_id head.snapshot_id in
    All-remove_if (λ e. InBounds e.1) (λ j. text_eq j key) s.backoff k

finish_import-IsPaced :
    (now : ℕ) (head : Head) (cs : List Conflict) (s : State)
    → IsPaced s
    → IsPaced (finish_import now head cs s)
unfolding finish_import
finish_import-IsPaced now head cs s k =
    set_refs-IsPaced cs head (if is_dirty cs then defer_import now head s else taken head s) (
      if-cases IsPaced (is_dirty cs) (defer_import now head s) (taken head s)
        (defer_import-IsPaced now head s k) (taken-IsPaced head s k))

after_import-IsPaced :
    (now : ℕ) (head : Head) (i : Import) (s : State)
    → IsPaced s
    → IsPaced (after_import now head i s)
unfolding after_import
after_import-IsPaced now head no_manifest s k = defer_import-IsPaced now head s k
after_import-IsPaced now head threw s k = defer_import-IsPaced now head s k
after_import-IsPaced now head manifest_threw s k = k
after_import-IsPaced now head (finished cs) s k = finish_import-IsPaced now head cs s k

module _ (repository_id own : Text) (import_of : Head → Import) where
  Unhurried : State × Effect → Type 0
  Unhurried r = IsPaced r.0

  import_head-IsPaced :
      (now : ℕ) (head : Head) (s : State)
      → IsPaced s
      → IsPaced (import_head repository_id own import_of now head s).0
  unfolding import_head Unhurried
  import_head-IsPaced now head s k =
      let untried : State × Effect = (s, no_import) in
      let already = is_equal (get head.device_id s.imported) head.snapshot_id in
      let waiting = waits (get (attempt_key head.device_id head.snapshot_id) s.backoff) now in
      let done = after_import now head (import_of head) s in
      let tried_now : State × Effect = (done, tried (import_of head)) in
      if-cases Unhurried already untried (if waiting then untried else tried_now) k (
        if-cases Unhurried waiting untried tried_now k
          (after_import-IsPaced now head (import_of head) s k))

  own_head-IsPaced :
      (desired : Option Head) (head : Head) (s : State)
      → IsPaced s
      → IsPaced (own_head repository_id desired head s).0
  unfolding IsPaced
  own_head-IsPaced none head s k = k
  own_head-IsPaced (some d) head s k = ground arith

  accept_validated_head-IsPaced :
      (now : ℕ) (head : Head) (s : State)
      → IsPaced s
      → IsPaced (accept_validated_head repository_id own import_of now head s).0
  unfolding accept_validated_head IsPaced
  accept_validated_head-IsPaced now head s k = elim (Bool-cases (text_eq head.device_id own)) [
    | inl mine ↦
        rw mine
          (own_head-IsPaced (validate_head repository_id (get own s.heads)) head (known head s) k)
    | inr other ↦
        rw other (import_head-IsPaced now head (with_head repository_id head (known head s)) k)
  ]

  -- Every wait of an import that failed is a minute at least and half an hour at most, and stays so
  -- whatever head is received.
  pub accept_head-IsPaced :
      (now : ℕ) (value : Option RawHead) (s : State)
      → IsPaced s
      → IsPaced (accept_head repository_id own import_of now value s).0
  unfolding accept_head
  accept_head-IsPaced now value s k = elim (Option-cases (validate_head repository_id value)) [
    | inl bad ↦ rw bad k
    | inr (head, good) ↦ rw good (accept_validated_head-IsPaced now head s k)
  ]

-- An import that did not bring the snapshot in, and got past the retrieval of its manifest.
unfoldable pub is_failed : Import → Bool
is_failed no_manifest = true
is_failed threw = true
is_failed manifest_threw = false
is_failed (finished cs) = is_dirty cs
