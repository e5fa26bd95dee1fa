-- ===== src/Sync/Chunks.antt =====
-- src/protocol.js, `#cacheChunks`, `#retrieveChunk`, `#retrieveChunks` and `#decodeChunk`: data in
-- chunks named by their digests. The digest, and what the mesh's storage yields for a chunk, are
-- parameters. Chunks are read one after the other.
pub mod RoundTrip
pub mod Sound
use git_pigeon.Prelude.{
  ℕ, zero, suc, ◌+◌, ◌-◌, ◌*◌, ◌/◌, Bool, true, false, not, ◌&&◌, ◌||◌, ◌==◌, Option, none, some,
  List, [], ◌∷◌, ◌++◌, map, flat, take, drop, length, ltb, if◌then◌else◌,
}
use git_pigeon.Prelude.Text.{Text, text, text_eq}
use git_pigeon.Prelude.Result.{Result, ok, err}

abbrev pub Bytes : Type 0
Bytes = List ℕ

pub record Chunk : Type 0 where
  pub sha256 : Text
  pub size : ℕ

-- A chunk's record in the storage. `size` is `none` where it is no natural number; `payload` is what
-- the base 64 text decodes to.
pub record ChunkRecord : Type 0 where
  pub protocol : Text
  pub kind : Text
  pub encoding : Text
  pub sha256 : Text
  pub size : Option ℕ
  pub payload : Bytes

pub data RetrieveError : Type 0 where
  not_available corrupt_chunk size_mismatch digest_mismatch : RetrieveError

-- The cache: the chunks under their digests.
abbrev pub Chunks : Type 0
Chunks = List (Text × Bytes)

abbrev pub protocol : Text
protocol = text "gitpigeon/1"

unfoldable pub lookup : Text → Chunks → Option Bytes
lookup d [] = none
lookup d ((e, payload) ∷ cache) =
    let rest = lookup d cache in if text_eq e d then some payload else rest

abbrev pub keep : Option Bytes → Text → Bytes → Chunks → Chunks
keep none d payload cache = (d, payload) ∷ cache
keep (some held) d payload cache = cache

-- `cache.writeChunk`: a chunk that is there stays.
unfoldable pub write_chunk : Text → Bytes → Chunks → Chunks
unfolding lookup
write_chunk d payload cache = keep (lookup d cache) d payload cache

abbrev pub is_size : Option ℕ → ℕ → Bool
is_size none n = false
is_size (some m) n = m == n

-- `Math.ceil(data.length / chunkSize)`
abbrev pub chunk_count : ℕ → Bytes → ℕ
chunk_count chunk_size payload = (length payload + (chunk_size - 1)) / chunk_size

-- `data.subarray(offset, Math.min(offset + chunkSize, data.length))`
abbrev pub piece : ℕ → Bytes → ℕ → Bytes
piece chunk_size payload offset =
    take
      (if ltb (offset + chunk_size) (length payload)
        then offset + chunk_size - offset
        else length payload - offset)
      (drop offset payload)

abbrev pub prepended :
    Bytes → Result RetrieveError (List Bytes) × Chunks → Result RetrieveError (List Bytes) × Chunks
prepended payload (err e, cache) = (err e, cache)
prepended payload (ok values, cache) = (ok (payload ∷ values), cache)

-- `n` offsets, from the one of the chunk `index` on.
unfoldable pub offsets : ℕ → ℕ → ℕ → List ℕ
offsets chunk_size index zero = []
offsets chunk_size index (suc n) = (index * chunk_size) ∷ offsets chunk_size (index + 1) n

module _ (digest : Bytes → Text) where
  -- The chunks of the pieces, and the cache with them.
  unfoldable pub store_pieces : List Bytes → Chunks → List Chunk × Chunks
  unfolding write_chunk
  store_pieces [] cache = ([], cache)
  store_pieces (p ∷ ps) cache =
      let (chunks, after) = store_pieces ps (write_chunk (digest p) p cache) in
      (record { sha256 = digest p; size = length p } ∷ chunks, after)

  unfoldable pub cache_chunks : ℕ → Bytes → Chunks → List Chunk × Chunks
  unfolding store_pieces offsets
  cache_chunks chunk_size payload cache =
      store_pieces
        (map (piece chunk_size payload) (offsets chunk_size 0 (chunk_count chunk_size payload)))
        cache

  abbrev pub checked : Chunk → Bytes → Option Bytes
  checked expected payload =
      if length payload == expected.size && text_eq (digest payload) expected.sha256
      then some payload
      else none

  -- `#decodeChunk`
  unfoldable pub decode_chunk : Option ChunkRecord → Chunk → Option Bytes
  decode_chunk none expected = none
  decode_chunk (some r) expected =
      if not (text_eq r.protocol protocol) || not (text_eq r.kind (text "chunk"))
      then none
      else if not (text_eq r.encoding (text "base64"))
          || not (text_eq r.sha256 expected.sha256)
          || not (is_size r.size expected.size)
      then none
      else checked expected r.payload

  abbrev pub confirmed : Chunk → Chunks → Bytes → Result RetrieveError Bytes × Chunks
  confirmed chunk cache payload =
      if not (length payload == chunk.size) || not (text_eq (digest payload) chunk.sha256)
      then (err corrupt_chunk, cache)
      else (ok payload, cache)

  abbrev pub fetched : Chunk → Chunks → Option Bytes → Result RetrieveError Bytes × Chunks
  fetched chunk cache none = (err not_available, cache)
  fetched chunk cache (some payload) =
      confirmed chunk (write_chunk chunk.sha256 payload cache) payload

  abbrev pub from_cache :
      (Text → Option ChunkRecord)
      → Chunk
      → Chunks
      → Option Bytes
      → Result RetrieveError Bytes × Chunks
  from_cache storage chunk cache (some payload) = confirmed chunk cache payload
  from_cache storage chunk cache none =
      fetched chunk cache (decode_chunk (storage chunk.sha256) chunk)

  -- `#retrieveChunk`
  unfoldable pub retrieve_chunk :
      (Text → Option ChunkRecord) → Chunk → Chunks → Result RetrieveError Bytes × Chunks
  unfolding decode_chunk write_chunk lookup
  retrieve_chunk storage chunk cache = from_cache storage chunk cache (lookup chunk.sha256 cache)

  abbrev pub and_rest :
      Result RetrieveError Bytes × Chunks
      → (Chunks → Result RetrieveError (List Bytes) × Chunks)
      → Result RetrieveError (List Bytes) × Chunks
  and_rest (err e, cache) rest = (err e, cache)
  and_rest (ok payload, cache) rest = prepended payload (rest cache)

  -- The chunks' data, in their order.
  unfoldable pub retrieve_all :
      (Text → Option ChunkRecord) → List Chunk → Chunks → Result RetrieveError (List Bytes) × Chunks
  unfolding retrieve_chunk
  retrieve_all storage [] cache = (ok [], cache)
  retrieve_all storage (c ∷ cs) cache =
      and_rest (retrieve_chunk storage c cache) (λ after. retrieve_all storage cs after)

  abbrev pub assembled :
      ℕ → Text → Result RetrieveError (List Bytes) × Chunks → Result RetrieveError Bytes × Chunks
  assembled size sha256 (err e, cache) = (err e, cache)
  assembled size sha256 (ok values, cache) =
      if not (length (flat values) == size)
      then (err size_mismatch, cache)
      else if not (text_eq (digest (flat values)) sha256)
      then (err digest_mismatch, cache)
      else (ok (flat values), cache)

  -- `#retrieveChunks`
  unfoldable pub retrieve_chunks :
      (Text → Option ChunkRecord)
      → List Chunk
      → ℕ
      → Text
      → Chunks
      → Result RetrieveError Bytes × Chunks
  unfolding retrieve_all
  retrieve_chunks storage chunks size sha256 cache =
      assembled size sha256 (retrieve_all storage chunks cache)
