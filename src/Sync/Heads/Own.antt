-- ===== src/Sync/Heads/Own.antt =====
-- src/protocol.js, `#acceptValidatedHead`: the head that a machine knows as its own.
use git_pigeon.Prelude.{
  ◌≡◌, refl, ap, ◌∙◌, ℕ, true, false, Option, none, some, List, [], ◌∷◌, arith, ◌&&◌, sym,
  Bool-cases, Option-cases, inl, inr,
}
use git_pigeon.Prelude.Result.{some_injective, >>=-eq-some, guard-eq-some, ◌>>=◌, ◌>>◌, guard}
use git_pigeon.Prelude.Text.{Text, text_eq, text_eq→eq, text_eq_refl}
use git_pigeon.Prelude.Assoc.{get, get-put}
use git_pigeon.Sync.Chunks.{protocol}
use git_pigeon.Sync.Records.{
  RawHead, Head, validate_head, is_device, is_digest, is_digest_or_none, or_else, head_of,
}
use git_pigeon.Sync.Heads.{
  State, Import, accept_validated_head, accept_head, raw_head, known, with_head, own_head,
  defer_import, finish_import, after_import, Conflict, no_manifest, threw, manifest_threw, finished,
  import_head,
}

module _ (repository_id own : Text) where
  -- The snapshot that the machine takes for the one it published.
  unfoldable pub own_snapshot : State → Option Text
  own_snapshot s = (validate_head repository_id (get own s.heads)) >>= λ h. some h.snapshot_id

  -- A head that was validated is written down as one that validates again, to the same.
  validate_head-raw_head :
      (value : Option RawHead) (h : Head)
      → validate_head repository_id value ≡ some h
      → validate_head repository_id (some (raw_head repository_id h)) ≡ some h
  unfolding validate_head
  validate_head-raw_head none h e = cc
  validate_head-raw_head (some v) h e =
      let (ours, e1) =
        guard-eq-some (text_eq v.protocol protocol && text_eq v.repository_id repository_id)
          (guard (is_device v.device_id && is_digest v.snapshot_id)
            >> (guard (is_digest_or_none v.refs_digest)
                >> (guard (is_digest (or_else v.content_digest v.snapshot_id))
                    >> some (head_of v))))
          e in
      let (named, e2) =
        guard-eq-some (is_device v.device_id && is_digest v.snapshot_id)
          (guard (is_digest_or_none v.refs_digest)
            >> (guard (is_digest (or_else v.content_digest v.snapshot_id)) >> some (head_of v)))
          e1 in
      let (refs, e3) =
        guard-eq-some (is_digest_or_none v.refs_digest)
          (guard (is_digest (or_else v.content_digest v.snapshot_id)) >> some (head_of v)) e2 in
      let (content, e4) =
        guard-eq-some (is_digest (or_else v.content_digest v.snapshot_id)) (some (head_of v)) e3 in
      rw (sym (some_injective e4)) (
        rw (text_eq_refl protocol)
          (rw (text_eq_refl repository_id) (rw named (rw refs (rw content refl)))))

  shown-snapshot :
      (value : Option RawHead) (h : Head) (s : State)
      → validate_head repository_id value ≡ some h
      → text_eq h.device_id own ≡ true
      → own_snapshot (with_head repository_id h s) ≡ some h.snapshot_id
  unfolding own_snapshot
  shown-snapshot value h s good mine =
      rw (get-put h.device_id own (raw_head repository_id h) s.heads)
        (rw mine (rw (validate_head-raw_head value h good) refl))

  shown_other-snapshot :
      (h : Head) (s : State)
      → text_eq h.device_id own ≡ false
      → own_snapshot (with_head repository_id h s) ≡ own_snapshot s
  unfolding own_snapshot
  shown_other-snapshot h s other =
      rw (get-put h.device_id own (raw_head repository_id h) s.heads) (rw other refl)

  own_head-snapshot :
      (value : Option RawHead) (h : Head) (s t : State)
      → validate_head repository_id value ≡ some h
      → text_eq h.device_id own ≡ true
      → t.heads ≡ s.heads
      → (d : Text) → own_snapshot s ≡ some d
      → own_snapshot (own_head repository_id (validate_head repository_id (get own s.heads)) h t).0
        ≡ some d
  unfolding own_snapshot
  own_head-snapshot value h s t good mine same d e =
      let (desired, found, e1) =
        >>=-eq-some (validate_head repository_id (get own s.heads)) (λ j. some j.snapshot_id) e in
      rw found (elim (Bool-cases (text_eq desired.snapshot_id h.snapshot_id)) [
        | inl ours ↦ rw ours (
            shown-snapshot value h t good mine
            ∙ ap some (sym (text_eq→eq desired.snapshot_id h.snapshot_id ours) ∙ some_injective e1))
        | inr foreign ↦ rw foreign (rw same e)
      ])

defer_import-heads : (now : ℕ) (head : Head) (s : State) → (defer_import now head s).heads ≡ s.heads
unfolding defer_import
defer_import-heads now head s = refl

finish_import-heads :
    (now : ℕ) (head : Head) (cs : List Conflict) (s : State)
    → (finish_import now head cs s).heads ≡ s.heads
unfolding finish_import defer_import
finish_import-heads now head [] s = refl
finish_import-heads now head (c ∷ cs) s = ground arith

after_import-heads :
    (now : ℕ) (head : Head) (i : Import) (s : State) → (after_import now head i s).heads ≡ s.heads
unfolding after_import
after_import-heads now head no_manifest s = defer_import-heads now head s
after_import-heads now head threw s = defer_import-heads now head s
after_import-heads now head manifest_threw s = refl
after_import-heads now head (finished cs) s = finish_import-heads now head cs s

module _ (repository_id own : Text) (import_of : Head → Import) where
  import_head-heads :
      (now : ℕ) (head : Head) (s : State)
      → (import_head repository_id own import_of now head s).0.heads ≡ s.heads
  unfolding import_head
  import_head-heads now head s = ground (arith, after_import-heads now head (import_of head) s)

  accept_validated_head-snapshot :
      (now : ℕ) (value : Option RawHead) (h : Head) (s : State) (d : Text)
      → validate_head repository_id value ≡ some h
      → own_snapshot repository_id own s ≡ some d
      → own_snapshot repository_id own (accept_validated_head repository_id own import_of now h s).0
        ≡ some d
  unfolding accept_validated_head own_snapshot
  accept_validated_head-snapshot now value h s d good e =
      elim (Bool-cases (text_eq h.device_id own)) [
        | inl mine ↦
            rw mine (own_head-snapshot repository_id own value h s (known h s) good mine refl d e)
        | inr other ↦ rw other (
            ap (λ m. (validate_head repository_id (get own m)) >>= λ j. some j.snapshot_id)
              (import_head-heads now h (with_head repository_id h (known h s)))
            ∙ shown_other-snapshot repository_id own h (known h s) other
            ∙ e)
      ]

  -- Once a machine knows a head of its own, no head that it receives makes it know another snapshot as
  -- its own.
  pub accept_head-own_snapshot :
      (now : ℕ) (value : Option RawHead) (s : State) (d : Text)
      → own_snapshot repository_id own s ≡ some d
      → own_snapshot repository_id own (accept_head repository_id own import_of now value s).0
        ≡ some d
  unfolding accept_head
  accept_head-own_snapshot now value s d e =
      elim (Option-cases (validate_head repository_id value)) [
        | inl bad ↦ rw bad e
        | inr (head, good) ↦ rw good (accept_validated_head-snapshot now value head s d good e)
      ]
