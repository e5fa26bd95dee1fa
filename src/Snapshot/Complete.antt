-- ===== src/Snapshot/Complete.antt =====
-- src/snapshot-stream.js, `#handle`: what a peer that asks for chunks of a cached snapshot is answered.
use git_pigeon.Prelude.{
  ℕ, ◌==◌, ◌≡◌, refl, true, Option, List, [], ◌∷◌, arith, length, filter, map, if◌then◌else◌,
  Bool-cases, inl, inr,
}
use git_pigeon.Prelude.Text.{Text, text, text_eq, contains}
use git_pigeon.Snapshot.{
  Manifest, Field, Frame, Reply, metadata, not_available, chunk_error, corrupt, chunk, Read, bytes,
  failed, Lookup, found, is_digest, referenced, asked, answer, serve_chunks, serve_from, is_usable,
  handle,
}

-- The digest that a reply is about.
abbrev pub digest_of : Reply → Text
digest_of (metadata id fields) = []
digest_of (not_available id) = []
digest_of (chunk_error id digest message) = digest
digest_of (corrupt id digest) = digest
digest_of (chunk id snapshot digest payload) = digest

empty_asked : (xs : List Text) → length xs == 0 ≡ true → xs ≡ []
empty_asked [] h = refl
empty_asked (x ∷ xs) h = absurd (ground arith)

module _ (sha256 : List ℕ → Text) (read_chunk : Text → Read) where
  digest_of-answer :
      (f : Frame) (digest : Text) (r : Read)
      → digest_of (answer sha256 read_chunk f digest r) ≡ digest
  unfolding answer
  digest_of-answer f digest (bytes payload) = ground arith
  digest_of-answer f digest (failed message) = refl

  digests-serve_chunks :
      (f : Frame) (known digests : List Text)
      → map digest_of (serve_chunks sha256 read_chunk f known digests)
        ≡ filter (λ d. contains d known) digests
  unfolding serve_chunks filter
  digests-serve_chunks f known [] = refl
  digests-serve_chunks f known (d ∷ ds) =
      ground (arith, digests-serve_chunks f known ds, digest_of-answer f d (read_chunk d))

  handle_chunk_request :
      (get_metadata : Option (List (Text × Field))) (read_manifest : Text → Lookup) (f : Frame)
      → f.kind ≡ text "chunk-request"
      → is_digest f.snapshot_id ≡ true
      → handle sha256 read_chunk get_metadata read_manifest f ≡ (
          if length (asked f) == 0
          then []
          else serve_from sha256 read_chunk f (read_manifest f.snapshot_id))
  unfolding handle text_eq
  handle_chunk_request get_metadata read_manifest f k v = rw (k, v) refl

  serve_from_found :
      (f : Frame) (m : Manifest)
      → is_usable sha256 read_chunk f.snapshot_id m ≡ true
      → serve_from sha256 read_chunk f (found m)
        ≡ serve_chunks sha256 read_chunk f (referenced m) (asked f)
  unfolding serve_from
  serve_from_found f m u = rw u

  -- A request for chunks of a snapshot whose manifest is in the cache is answered, digest by digest
  -- and in order, for each of its first eight valid digests that the manifest refers to for its bundle, a
  -- private or a live file, and for no other.
  pub handle_complete :
      (get_metadata : Option (List (Text × Field))) (read_manifest : Text → Lookup) (f : Frame)
      (m : Manifest)
      → f.kind ≡ text "chunk-request"
      → is_digest f.snapshot_id ≡ true
      → read_manifest f.snapshot_id ≡ found m
      → is_usable sha256 read_chunk f.snapshot_id m ≡ true
      → map digest_of (handle sha256 read_chunk get_metadata read_manifest f)
        ≡ filter (λ d. contains d (referenced m)) (asked f)
  handle_complete get_metadata read_manifest f m k v e u =
      rw (handle_chunk_request get_metadata read_manifest f k v, e, serve_from_found f m u)
        (elim (Bool-cases (length (asked f) == 0)) [
          | inl none_asked ↦
              rw (none_asked, empty_asked (asked f) none_asked) (unfold filter in refl)
          | inr some_asked ↦ rw some_asked (digests-serve_chunks f (referenced m) (asked f))
        ])
