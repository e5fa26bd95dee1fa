-- ===== src/Sync/Chunks/Sound.antt =====
-- src/protocol.js, `#retrieveChunks`: the data that it returns, and the cache that it leaves.
use git_pigeon.Prelude.{
  ℕ, ◌≡◌, refl, ◌==◌, Option, none, some, List, [], ◌∷◌, flat, length, arith, All, Bool-cases, inl,
  inr,
}
use git_pigeon.Prelude.Text.{Text, text_eq, text_eq→eq}
use git_pigeon.Prelude.Result.{Result, ok, err}
use git_pigeon.Sync.Chunks.{
  Bytes, Chunk, ChunkRecord, Chunks, RetrieveError, lookup, keep, write_chunk, store_pieces,
  confirmed, decode_chunk, fetched, from_cache, retrieve_chunk, and_rest, prepended, retrieve_all,
  assembled, retrieve_chunks,
}

module _ (digest : Bytes → Text) where
  -- Each chunk in the cache has the digest that it stands under.
  abbrev pub IsAddressed : Chunks → Type 0
  IsAddressed = All (λ entry. digest entry.1 ≡ entry.0)

  keep-IsAddressed :
      (held : Option Bytes) (d : Text) (payload : Bytes) (cache : Chunks)
      → digest payload ≡ d
      → IsAddressed cache
      → IsAddressed (keep held d payload cache)
  keep-IsAddressed none d payload cache e c = (e, c)
  keep-IsAddressed (some held) d payload cache e c = c

  pub write_chunk-IsAddressed :
      (d : Text) (payload : Bytes) (cache : Chunks)
      → digest payload ≡ d
      → IsAddressed cache
      → IsAddressed (write_chunk d payload cache)
  unfolding write_chunk
  write_chunk-IsAddressed d payload cache = keep-IsAddressed (lookup d cache) d payload cache

  pub store_pieces-IsAddressed :
      (ps : List Bytes) (cache : Chunks)
      → IsAddressed cache
      → IsAddressed (store_pieces digest ps cache).1
  unfolding store_pieces
  store_pieces-IsAddressed [] cache c = c
  store_pieces-IsAddressed (p ∷ ps) cache c =
      store_pieces-IsAddressed ps (write_chunk (digest p) p cache)
        (write_chunk-IsAddressed (digest p) p cache refl c)

  -- A chunk's data, where they are what the chunk says.
  abbrev pub Fits : Bytes → Chunk → Type 0
  Fits payload c = (length payload ≡ c.size) × (digest payload ≡ c.sha256)

  confirmed-Fits :
      (c : Chunk) (cache after : Chunks) (payload found : Bytes)
      → confirmed digest c cache payload ≡ (ok found, after)
      → Fits found c × (after ≡ cache)
  confirmed-Fits c cache after payload found h =
      ground (arith, text_eq→eq (digest payload) c.sha256)

  decode_chunk-Fits :
      (r : Option ChunkRecord) (c : Chunk) (payload : Bytes)
      → decode_chunk digest r c ≡ some payload
      → Fits payload c
  unfolding decode_chunk
  decode_chunk-Fits none c payload h = absurd (ground arith)
  decode_chunk-Fits (some r) c payload h = ground (arith, text_eq→eq (digest r.payload) c.sha256)

  confirmed-cache :
      (c : Chunk) (cache : Chunks) (payload : Bytes) → (confirmed digest c cache payload).1 ≡ cache
  confirmed-cache c cache payload = ground arith

  fetched-IsAddressed :
      (c : Chunk) (cache : Chunks) (o : Option Bytes)
      → ((payload : Bytes) → o ≡ some payload → Fits payload c)
      → IsAddressed cache
      → IsAddressed (fetched digest c cache o).1
  fetched-IsAddressed c cache none f a = a
  fetched-IsAddressed c cache (some payload) f a =
      let next = write_chunk c.sha256 payload cache in
      rw (confirmed-cache c next payload)
        (write_chunk-IsAddressed c.sha256 payload cache (f payload refl).1 a)

  prepended-IsAddressed :
      (payload : Bytes) (r : Result RetrieveError (List Bytes) × Chunks)
      → IsAddressed r.1
      → IsAddressed (prepended payload r).1
  prepended-IsAddressed payload (err e, cache) a = a
  prepended-IsAddressed payload (ok values, cache) a = a

  assembled-IsAddressed :
      (size : ℕ) (sha256 : Text) (r : Result RetrieveError (List Bytes) × Chunks)
      → IsAddressed r.1
      → IsAddressed (assembled digest size sha256 r).1
  assembled-IsAddressed size sha256 (err e, cache) a = a
  assembled-IsAddressed size sha256 (ok values, cache) a =
      elim (Bool-cases (length (flat values) == size)) [
        | inr short ↦ rw short a
        | inl long ↦ rw long (elim (Bool-cases (text_eq (digest (flat values)) sha256)) [
          | inl same ↦ rw same a
          | inr other ↦ rw other a
        ])
      ]

  fetched-Fits :
      (c : Chunk) (cache after : Chunks) (o : Option Bytes) (payload : Bytes)
      → fetched digest c cache o ≡ (ok payload, after)
      → Fits payload c
  fetched-Fits c cache after none payload h = absurd (ground arith)
  fetched-Fits c cache after (some held) payload h =
      (confirmed-Fits c (write_chunk c.sha256 held cache) after held payload h).0

  abbrev pub FitAll : List Bytes → List Chunk → Type 0
  FitAll [] [] = Unit
  FitAll [] (c ∷ cs) = ⊥
  FitAll (v ∷ vs) [] = ⊥
  FitAll (v ∷ vs) (c ∷ cs) = Fits v c × FitAll vs cs

  prepended-ok :
      (payload : Bytes) (r : Result RetrieveError (List Bytes) × Chunks) (values : List Bytes)
      (after : Chunks)
      → prepended payload r ≡ (ok values, after)
      → (vs : List Bytes) × (r ≡ (ok vs, after)) × (values ≡ payload ∷ vs)
  prepended-ok payload (err e, cache) values after h = absurd (ground arith)
  prepended-ok payload (ok vs, cache) values after h = (vs, ground arith, ground arith)

  and_rest-ok :
      (r : Result RetrieveError Bytes × Chunks)
      (rest : Chunks → Result RetrieveError (List Bytes) × Chunks) (values : List Bytes)
      (after : Chunks)
      → and_rest digest r rest ≡ (ok values, after)
      → (payload : Bytes) × (vs : List Bytes) × (mid : Chunks) × (r ≡ (ok payload, mid))
        × (rest mid ≡ (ok vs, after))
        × (values ≡ payload ∷ vs)
  and_rest-ok (err e, cache) rest values after h = absurd (ground arith)
  and_rest-ok (ok payload, cache) rest values after h =
      let (vs, e, f) = prepended-ok payload (rest cache) values after h in
      (payload, vs, cache, refl, e, f)

  assembled-ok :
      (size : ℕ) (sha256 : Text) (r : Result RetrieveError (List Bytes) × Chunks) (after : Chunks)
      (found : Bytes)
      → assembled digest size sha256 r ≡ (ok found, after)
      → (values : List Bytes) × (r ≡ (ok values, after))
        × (length found ≡ size)
        × (digest found ≡ sha256)
        × (found ≡ flat values)
  assembled-ok size sha256 (err e, cache) after found h = absurd (ground arith)
  assembled-ok size sha256 (ok values, cache) after found h = (
    values,
    ground arith,
    ground arith,
    ground (arith, text_eq→eq (digest (flat values)) sha256),
    ground arith,
  )

  module _ (storage : Text → Option ChunkRecord) where
    from_cache-IsAddressed :
        (c : Chunk) (cache : Chunks) (o : Option Bytes)
        → IsAddressed cache
        → IsAddressed (from_cache digest storage c cache o).1
    from_cache-IsAddressed c cache (some payload) a = rw (confirmed-cache c cache payload) a
    from_cache-IsAddressed c cache none a =
        fetched-IsAddressed c cache (decode_chunk digest (storage c.sha256) c)
          (decode_chunk-Fits (storage c.sha256) c) a

    and_rest-IsAddressed :
        (r : Result RetrieveError Bytes × Chunks)
        (rest : Chunks → Result RetrieveError (List Bytes) × Chunks)
        → ((after : Chunks) → IsAddressed after → IsAddressed (rest after).1)
        → IsAddressed r.1
        → IsAddressed (and_rest digest r rest).1
    and_rest-IsAddressed (err e, cache) rest f a = a
    and_rest-IsAddressed (ok payload, cache) rest f a =
        prepended-IsAddressed payload (rest cache) (f cache a)

    retrieve_all-IsAddressed :
        (cs : List Chunk) (cache : Chunks)
        → IsAddressed cache
        → IsAddressed (retrieve_all digest storage cs cache).1
    unfolding retrieve_all retrieve_chunk
    retrieve_all-IsAddressed [] cache a = a
    retrieve_all-IsAddressed (c ∷ cs) cache a =
        and_rest-IsAddressed (retrieve_chunk digest storage c cache)
          (retrieve_all digest storage cs) (retrieve_all-IsAddressed cs)
          (from_cache-IsAddressed c cache (lookup c.sha256 cache) a)

    -- Whatever the storage yields, and whether or not the retrieval succeeds, each chunk in the cache
    -- has the digest that it stands under, if each had it before.
    pub retrieve_chunks-IsAddressed :
        (cs : List Chunk) (size : ℕ) (sha256 : Text) (cache : Chunks)
        → IsAddressed cache
        → IsAddressed (retrieve_chunks digest storage cs size sha256 cache).1
    unfolding retrieve_chunks
    retrieve_chunks-IsAddressed cs size sha256 cache a =
        assembled-IsAddressed size sha256 (retrieve_all digest storage cs cache)
          (retrieve_all-IsAddressed cs cache a)

    retrieve_chunk-Fits :
        (c : Chunk) (cache after : Chunks) (o : Option Bytes) (payload : Bytes)
        → from_cache digest storage c cache o ≡ (ok payload, after)
        → Fits payload c
    retrieve_chunk-Fits c cache after (some held) payload h =
        (confirmed-Fits c cache after held payload h).0
    retrieve_chunk-Fits c cache after none payload h =
        fetched-Fits c cache after (decode_chunk digest (storage c.sha256) c) payload h

    retrieve_all-Fits :
        (cs : List Chunk) (cache after : Chunks) (values : List Bytes)
        → retrieve_all digest storage cs cache ≡ (ok values, after)
        → FitAll values cs
    unfolding retrieve_all retrieve_chunk
    retrieve_all-Fits [] cache after [] h = tt
    retrieve_all-Fits [] cache after (v ∷ vs) h = absurd (ground arith)
    retrieve_all-Fits (c ∷ cs) cache after values h =
        let (payload, vs, mid, first, rest, e) =
          and_rest-ok (retrieve_chunk digest storage c cache) (retrieve_all digest storage cs)
            values after h in
        rw e (
          (
            retrieve_chunk-Fits c cache mid (lookup c.sha256 cache) payload first,
            retrieve_all-Fits cs mid after vs rest,
          ))

    -- Data that are retrieved have the size and the digest that were asked for, and consist of the
    -- chunks' data one after the other, each of its chunk's size and digest.
    pub retrieve_chunks-Fits :
        (cs : List Chunk) (size : ℕ) (sha256 : Text) (cache after : Chunks) (found : Bytes)
        → retrieve_chunks digest storage cs size sha256 cache ≡ (ok found, after)
        → (length found ≡ size)
          × (digest found ≡ sha256)
          × (values : List Bytes) × (found ≡ flat values)
          × FitAll values cs
    unfolding retrieve_chunks
    retrieve_chunks-Fits cs size sha256 cache after found h =
        let (values, all, s, d, e) =
          assembled-ok size sha256 (retrieve_all digest storage cs cache) after found h in
        (s, d, values, e, retrieve_all-Fits cs cache after values all)
