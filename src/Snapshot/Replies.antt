-- ===== src/Snapshot/Replies.antt =====
-- src/snapshot-stream.js, `#handle`: what a peer that holds the repository's secret can get.
use git_pigeon.Prelude.{
  ℕ, ◌≤◌, ◌==◌, ◌≡◌, refl, Bool, true, false, not, Option, none, some, List, [], ◌∷◌, arith, All,
  All-imp, length, Bool-cases, inl, inr, if◌then◌else◌, length-take-le,
}
use git_pigeon.Prelude.Text.{Text, text, text_eq, text_eq→eq, contains, text_eq_refl}
use git_pigeon.Snapshot.{
  Manifest, Field, Frame, Reply, chunk, Read, Lookup, found, is_digest, max_chunks_per_request,
  referenced, asked, answer, serve_chunks, serve_from, is_usable, metadata_replies,
  watcher_service_metadata, missing, unreadable, bytes, failed, handle,
}

contains_head : (d : Text) (ds : List Text) → contains d (d ∷ ds) ≡ true
unfolding contains
contains_head d ds = rw (text_eq_refl d)

contains_tail : (d e : Text) (ds : List Text) → contains d ds ≡ true → contains d (e ∷ ds) ≡ true
unfolding contains
contains_tail d e ds h = ground arith

All-contains : (ds : List Text) → All (λ d. contains d ds ≡ true) ds
All-contains [] = tt
All-contains (d ∷ ds) = (
  contains_head d ds,
  All-imp (λ e. contains e ds ≡ true) (λ e. contains e (d ∷ ds) ≡ true) (λ e. contains_tail e d ds)
      ds (All-contains ds),
)

module _ (sha256 : List ℕ → Text) (read_chunk : Text → Read) where
  -- A chunk that is sent is one that the frame asks for and that the manifest refers to, with the
  -- bytes that its digest names.
  abbrev pub IsSound : (Text → Lookup) → Frame → Reply → Type 0
  IsSound read_manifest f (chunk id snapshot digest payload) =
      (m : Manifest) × (read_manifest f.snapshot_id ≡ found m)
      × (snapshot ≡ f.snapshot_id)
      × (m.snapshot_id ≡ f.snapshot_id)
      × (contains digest (referenced m) ≡ true)
      × (contains digest (asked f) ≡ true)
      × (sha256 payload ≡ digest)
  IsSound read_manifest f _ = Unit

  answer-IsSound :
      (read_manifest : Text → Lookup) (f : Frame) (m : Manifest) (digest : Text) (r : Read)
      → read_manifest f.snapshot_id ≡ found m
      → m.snapshot_id ≡ f.snapshot_id
      → contains digest (referenced m) ≡ true
      → contains digest (asked f) ≡ true
      → IsSound read_manifest f (answer sha256 read_chunk f digest r)
  unfolding answer
  answer-IsSound read_manifest f m digest (failed message) e i r a = tt
  answer-IsSound read_manifest f m digest (bytes payload) e i r a =
      elim (Bool-cases (text_eq (sha256 payload) digest)) [
        | inl same ↦ rw same (m, e, refl, i, r, a, text_eq→eq (sha256 payload) digest same)
        | inr other ↦ rw other tt
      ]

  if_cases :
      (P : List Reply → Type 0) (b : Bool) (xs ys : List Reply)
      → P xs
      → P ys
      → P (if b then xs else ys)
  if_cases P true xs ys h k = h
  if_cases P false xs ys h k = k

  All-if :
      (P : Reply → Type 0) (b : Bool) (xs ys : List Reply)
      → (b ≡ true → All P xs)
      → (b ≡ false → All P ys)
      → All P (if b then xs else ys)
  All-if P true xs ys h k = h refl
  All-if P false xs ys h k = k refl

  serve_chunks-IsSound :
      (read_manifest : Text → Lookup) (f : Frame) (m : Manifest) (digests : List Text)
      → read_manifest f.snapshot_id ≡ found m
      → m.snapshot_id ≡ f.snapshot_id
      → All (λ d. contains d (asked f) ≡ true) digests
      → All (IsSound read_manifest f) (serve_chunks sha256 read_chunk f (referenced m) digests)
  unfolding serve_chunks
  serve_chunks-IsSound read_manifest f m [] e i h = tt
  serve_chunks-IsSound read_manifest f m (d ∷ ds) e i h =
      let rest = serve_chunks-IsSound read_manifest f m ds e i h.1 in
      elim (Bool-cases (contains d (referenced m))) [
        | inl known ↦
            rw known ((answer-IsSound read_manifest f m d (read_chunk d) e i known h.0, rest))
        | inr unknown ↦ rw unknown rest
      ]

  serve_from-IsSound :
      (read_manifest : Text → Lookup) (f : Frame) (l : Lookup)
      → read_manifest f.snapshot_id ≡ l
      → All (IsSound read_manifest f) (serve_from sha256 read_chunk f l)
  unfolding serve_from
  serve_from-IsSound read_manifest f unreadable e = tt
  serve_from-IsSound read_manifest f missing e = (tt, tt)
  serve_from-IsSound read_manifest f (found m) e =
      All-if (IsSound read_manifest f) (is_usable sha256 read_chunk f.snapshot_id m) _ _
        (λ u.
          serve_chunks-IsSound read_manifest f m (asked f) e
            (text_eq→eq m.snapshot_id f.snapshot_id (ground arith)) (All-contains (asked f)))
        (λ _. (tt, tt))

  metadata-IsSound :
      (read_manifest : Text → Lookup) (f : Frame) (m : Option (List (Text × Text)))
      → All (IsSound read_manifest f) (metadata_replies sha256 read_chunk f m)
  metadata-IsSound read_manifest f none = tt
  metadata-IsSound read_manifest f (some m) = (tt, tt)

  handle_cases :
      (P : List Reply → Type 0) (get_metadata : Option (List (Text × Field)))
      (read_manifest : Text → Lookup) (f : Frame)
      → P (metadata_replies sha256 read_chunk f (watcher_service_metadata get_metadata))
      → P []
      → P (serve_from sha256 read_chunk f (read_manifest f.snapshot_id))
      → P (handle sha256 read_chunk get_metadata read_manifest f)
  unfolding handle
  handle_cases P get_metadata read_manifest f m n r =
      if_cases P (text_eq f.kind (text "metadata-request")) _ _ m (
        if_cases P (not (text_eq f.kind (text "chunk-request"))) _ _ n (
          if_cases P (not (is_digest f.snapshot_id)) _ _ n
            (if_cases P (length (asked f) == 0) _ _ n r)))

  -- Whatever frame arrives, each chunk sent in reply is one that the frame asks for under a manifest
  -- of the cache which has the frame's snapshot ID and refers to it, and its bytes have that digest.
  pub handle-IsSound :
      (get_metadata : Option (List (Text × Field))) (read_manifest : Text → Lookup) (f : Frame)
      → All (IsSound read_manifest f) (handle sha256 read_chunk get_metadata read_manifest f)
  handle-IsSound get_metadata read_manifest f =
      handle_cases (All (IsSound read_manifest f)) get_metadata read_manifest f
        (metadata-IsSound read_manifest f (watcher_service_metadata get_metadata)) tt
        (serve_from-IsSound read_manifest f (read_manifest f.snapshot_id) refl)

  length-serve_chunks-le :
      (f : Frame) (known digests : List Text)
      → length (serve_chunks sha256 read_chunk f known digests) ≤ length digests
  unfolding serve_chunks
  length-serve_chunks-le f known [] = omega arith
  length-serve_chunks-le f known (d ∷ ds) = ground (arith, length-serve_chunks-le f known ds)

  length-asked-le : (f : Frame) → length (asked f) ≤ max_chunks_per_request
  unfolding asked
  length-asked-le f = length-take-le max_chunks_per_request _

  length-serve_from-le :
      (f : Frame) (l : Lookup) → length (serve_from sha256 read_chunk f l) ≤ max_chunks_per_request
  unfolding serve_from
  length-serve_from-le f unreadable = omega arith
  length-serve_from-le f missing = omega arith
  length-serve_from-le f (found m) =
      ground (arith, length-asked-le f, length-serve_chunks-le f (referenced m) (asked f))

  length-metadata-le :
      (f : Frame) (m : Option (List (Text × Text)))
      → length (metadata_replies sha256 read_chunk f m) ≤ max_chunks_per_request
  length-metadata-le f none = omega arith
  length-metadata-le f (some m) = omega arith

  -- No frame, however many digests it lists, is answered with more than eight replies.
  pub length-handle-le :
      (get_metadata : Option (List (Text × Field))) (read_manifest : Text → Lookup) (f : Frame)
      → length (handle sha256 read_chunk get_metadata read_manifest f) ≤ max_chunks_per_request
  length-handle-le get_metadata read_manifest f =
      handle_cases (λ rs. length rs ≤ max_chunks_per_request) get_metadata read_manifest f
        (length-metadata-le f (watcher_service_metadata get_metadata)) (omega arith)
        (length-serve_from-le f (read_manifest f.snapshot_id))
