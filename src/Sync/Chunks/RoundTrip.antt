-- ===== src/Sync/Chunks/RoundTrip.antt =====
-- src/protocol.js: `#cacheChunks`, followed by `#retrieveChunks`.
use native.Mathlib.Nat.{div-add-mod, mod-lt}
use git_pigeon.Prelude.{
  ℕ, zero, suc, ◌+◌, ◌-◌, ◌*◌, ◌/◌, ◌≤◌, ◌<◌, ◌≡◌, refl, sym, ap, ◌∙◌, Option, none, some, List, [],
  ◌∷◌, ◌++◌, map, flat, take, drop, take_all, take-take-drop, drop-drop, length-drop, length, ltb,
  arith, All, Bool-cases, inl, inr,
}
use git_pigeon.Prelude.Text.{Text, text_eq, text_eq→eq, text_eq_refl}
use git_pigeon.Prelude.Result.{ok}
use git_pigeon.Sync.Chunks.{
  Bytes, Chunk, ChunkRecord, Chunks, lookup, keep, write_chunk, store_pieces, cache_chunks,
  chunk_count, piece, offsets, confirmed, retrieve_chunk, from_cache, and_rest, prepended,
  retrieve_all, assembled, retrieve_chunks,
}
use git_pigeon.Sync.Chunks.Sound.{IsAddressed, write_chunk-IsAddressed}

piece-take :
    (chunk_size offset : ℕ) (payload : Bytes)
    → piece chunk_size payload offset ≡ take chunk_size (drop offset payload)
piece-take chunk_size offset payload =
    elim (Bool-cases (ltb (offset + chunk_size) (length payload))) [
      | inl inside ↦ rw inside (
          let e : offset + chunk_size - offset ≡ chunk_size = omega arith in
          ap (λ k. take k (drop offset payload)) e)
      | inr past ↦ rw past (
          let l = length-drop offset payload in
          take_all (length payload - offset) (drop offset payload) (omega arith)
          ∙ sym (take_all chunk_size (drop offset payload) (ground arith)))
    ]

pieces-take :
    (chunk_size index n : ℕ) (payload : Bytes)
    → flat (map (piece chunk_size payload) (offsets chunk_size index n))
      ≡ take (n * chunk_size) (drop (index * chunk_size) payload)
unfolding offsets
pieces-take chunk_size index zero payload =
    let e : zero ≡ zero * chunk_size = omega arith in
    ap (λ k. take k (drop (index * chunk_size) payload)) e
pieces-take chunk_size index (suc n) payload =
    let rest = drop (index * chunk_size) payload in
    let next : (index + 1) * chunk_size ≡ index * chunk_size + chunk_size = grind arith in
    let all : chunk_size + n * chunk_size ≡ suc n * chunk_size = grind arith in
    ap (λ p. p ++ flat (map (piece chunk_size payload) (offsets chunk_size (index + 1) n)))
      (piece-take chunk_size (index * chunk_size) payload)
    ∙ ap (λ r. take chunk_size rest ++ r)
        (pieces-take chunk_size (index + 1) n payload
          ∙ ap (λ k. take (n * chunk_size) (drop k payload)) next
          ∙ ap (take (n * chunk_size)) (sym (drop-drop chunk_size (index * chunk_size) payload)))
    ∙ take-take-drop chunk_size (n * chunk_size) rest
    ∙ ap (λ k. take k rest) all

count_enough :
    (chunk_size : ℕ) (payload : Bytes)
    → 0 < chunk_size
    → length payload ≤ chunk_count chunk_size payload * chunk_size
count_enough chunk_size payload h =
    let m = length payload + (chunk_size - 1) in
    let e = div-add-mod m chunk_size in
    let l = mod-lt m h in
    let c : chunk_size * (m / chunk_size) ≡ m / chunk_size * chunk_size = grind arith in omega arith

flat-pieces :
    (chunk_size : ℕ) (payload : Bytes)
    → 0 < chunk_size
    → flat (map (piece chunk_size payload) (offsets chunk_size 0 (chunk_count chunk_size payload)))
      ≡ payload
flat-pieces chunk_size payload h =
    let n = chunk_count chunk_size payload in
    let none_dropped : 0 * chunk_size ≡ 0 = omega arith in
    pieces-take chunk_size 0 n payload
    ∙ ap (λ k. take (n * chunk_size) (drop k payload)) none_dropped
    ∙ take_all (n * chunk_size) payload (count_enough chunk_size payload h)

module _ (digest : Bytes → Text) where
  -- No two sequences of bytes have one digest.
  abbrev pub IsInjective : Type 0
  IsInjective = (a b : Bytes) → digest a ≡ digest b → a ≡ b

  abbrev Holds : Chunks → Bytes → Type 0
  Holds cache p = lookup (digest p) cache ≡ some p

  lookup-digest :
      (d : Text) (cache : Chunks) (found : Bytes)
      → IsAddressed digest cache
      → lookup d cache ≡ some found
      → digest found ≡ d
  unfolding lookup
  lookup-digest d [] found a h = absurd (ground arith)
  lookup-digest d ((e, payload) ∷ cache) found a h =
      ground (arith, lookup-digest d cache found, text_eq→eq e d)

  keep-Holds :
      (o : Option Bytes) (p : Bytes) (cache : Chunks)
      → lookup (digest p) cache ≡ o
      → IsInjective
      → IsAddressed digest cache
      → Holds (keep o (digest p) p cache) p
  unfolding lookup
  keep-Holds none p cache e i a = rw (text_eq_refl (digest p)) refl
  keep-Holds (some held) p cache e i a =
      e ∙ ap some (i held p (lookup-digest (digest p) cache held a e))

  write_chunk-Holds :
      (p : Bytes) (cache : Chunks)
      → IsInjective
      → IsAddressed digest cache
      → Holds (write_chunk (digest p) p cache) p
  unfolding write_chunk
  write_chunk-Holds p cache i a = keep-Holds (lookup (digest p) cache) p cache refl i a

  keep-keeps :
      (o : Option Bytes) (p q : Bytes) (cache : Chunks)
      → lookup (digest p) cache ≡ o
      → Holds cache q
      → Holds (keep o (digest p) p cache) q
  unfolding lookup
  keep-keeps none p q cache e h = elim (Bool-cases (text_eq (digest p) (digest q))) [
    | inl same ↦
        let c : none ≡ some q =
          sym e ∙ ap (λ d. lookup d cache) (text_eq→eq (digest p) (digest q) same) ∙ h in
        cc
    | inr other ↦ rw other h
  ]
  keep-keeps (some held) p q cache e h = h

  store_pieces-keeps :
      (ps : List Bytes) (q : Bytes) (cache : Chunks)
      → Holds cache q
      → Holds (store_pieces digest ps cache).1 q
  unfolding store_pieces write_chunk
  store_pieces-keeps [] q cache h = h
  store_pieces-keeps (p ∷ ps) q cache h =
      store_pieces-keeps ps q (write_chunk (digest p) p cache)
        (keep-keeps (lookup (digest p) cache) p q cache refl h)

  store_pieces-Holds :
      (ps : List Bytes) (cache : Chunks)
      → IsInjective
      → IsAddressed digest cache
      → All (Holds (store_pieces digest ps cache).1) ps
  unfolding store_pieces
  store_pieces-Holds [] cache i a = tt
  store_pieces-Holds (p ∷ ps) cache i a = (
    store_pieces-keeps ps p (write_chunk (digest p) p cache) (write_chunk-Holds p cache i a),
    store_pieces-Holds ps (write_chunk (digest p) p cache) i
        (write_chunk-IsAddressed digest (digest p) p cache refl a),
  )

  describe : Bytes → Chunk
  describe p = record { sha256 = digest p; size = length p }

  store_pieces-chunks :
      (ps : List Bytes) (cache : Chunks) → (store_pieces digest ps cache).0 ≡ map describe ps
  unfolding store_pieces describe
  store_pieces-chunks [] cache = refl
  store_pieces-chunks (p ∷ ps) cache =
      ap (◌∷◌ (describe p)) (store_pieces-chunks ps (write_chunk (digest p) p cache))

  confirmed-describe :
      (p : Bytes) (cache : Chunks) → confirmed digest (describe p) cache p ≡ (ok p, cache)
  unfolding describe
  confirmed-describe p cache = ground (arith, text_eq_refl (digest p))

  module _ (storage : Text → Option ChunkRecord) where
    retrieve-Holds :
        (p : Bytes) (cache : Chunks)
        → Holds cache p
        → retrieve_chunk digest storage (describe p) cache ≡ (ok p, cache)
    unfolding retrieve_chunk describe
    retrieve-Holds p cache h =
        ap (from_cache digest storage (describe p) cache) h ∙ confirmed-describe p cache

    retrieve_all-Holds :
        (ps : List Bytes) (cache : Chunks)
        → All (Holds cache) ps
        → retrieve_all digest storage (map describe ps) cache ≡ (ok ps, cache)
    unfolding retrieve_all
    retrieve_all-Holds [] cache h = refl
    retrieve_all-Holds (p ∷ ps) cache h =
        ap (λ r. and_rest digest r (retrieve_all digest storage (map describe ps)))
          (retrieve-Holds p cache h.0)
        ∙ ap (prepended p) (retrieve_all-Holds ps cache h.1)

    assembled_whole :
        (ps : List Bytes) (payload : Bytes) (cache : Chunks)
        → flat ps ≡ payload
        → assembled digest (length payload) (digest payload) (ok ps, cache) ≡ (ok payload, cache)
    assembled_whole ps payload cache e = rw e (ground (arith, text_eq_refl (digest payload)))

    -- What is put into the cache in chunks, of whatever positive size, is retrieved from it as it was,
    -- whatever the storage yields and without a change of the cache, given that no two data have one
    -- digest and that each chunk that was in the cache had the digest that it stood under.
    pub retrieve-cache_chunks :
        (chunk_size : ℕ) (payload : Bytes) (cache : Chunks)
        → 0 < chunk_size
        → IsInjective
        → IsAddressed digest cache
        → (let (chunks, after) = cache_chunks digest chunk_size payload cache in
            retrieve_chunks digest storage chunks (length payload) (digest payload) after
            ≡ (ok payload, after))
    unfolding cache_chunks retrieve_chunks
    retrieve-cache_chunks chunk_size payload cache pos i a =
        let ps =
          map (piece chunk_size payload) (offsets chunk_size 0 (chunk_count chunk_size payload)) in
        let after = (store_pieces digest ps cache).1 in
        ap
          (λ cs.
            assembled digest (length payload) (digest payload)
              (retrieve_all digest storage cs after))
          (store_pieces-chunks ps cache)
        ∙ ap (assembled digest (length payload) (digest payload))
            (retrieve_all-Holds ps after (store_pieces-Holds ps cache i a))
        ∙ assembled_whole ps payload after (flat-pieces chunk_size payload pos)
