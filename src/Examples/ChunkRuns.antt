-- ===== src/Examples/ChunkRuns.antt =====
-- Data in chunks, by `#cacheChunks` and `#retrieveChunks` of src/protocol.js, with data that are their
-- own digests.
use git_pigeon.Prelude.{◌≡◌, refl, Option, some, List, [], ◌∷◌, arith, length, flat}
use git_pigeon.Prelude.Text.{Text, text, text_eq}
use git_pigeon.Prelude.Result.{ok, err}
use git_pigeon.Sync.Chunks.{
  Bytes, Chunk, ChunkRecord, cache_chunks, retrieve_chunks, protocol, not_available,
}
use git_pigeon.Sync.Chunks.Sound.{FitAll, retrieve_chunks-Fits}
use git_pigeon.Sync.Chunks.RoundTrip.{retrieve-cache_chunks}

abbrev itself : Bytes → Text
itself payload = payload

abbrev payload : Bytes
payload = 7 ∷ 8 ∷ 9 ∷ []

-- The mesh yields one chunk, and another one that is not what it says.
abbrev storage : Text → Option ChunkRecord
storage d = some (record {
  protocol = protocol;
  kind = text "chunk";
  encoding = text "base64";
  sha256 = d;
  size = some 2;
  payload = 7 ∷ 8 ∷ [];
})

abbrev payload_twice : Bytes
payload_twice = 7 ∷ 8 ∷ 7 ∷ 8 ∷ []

abbrev one : Chunk
one = record { sha256 = 7 ∷ 8 ∷ []; size = 2 }

abbrev another : Chunk
another = record { sha256 = 9 ∷ 9 ∷ []; size = 2 }

found_one :
    retrieve_chunks itself storage (one ∷ one ∷ []) 4 (7 ∷ 8 ∷ 7 ∷ 8 ∷ []) []
    ≡ (ok (7 ∷ 8 ∷ 7 ∷ 8 ∷ []), (7 ∷ 8 ∷ [], 7 ∷ 8 ∷ []) ∷ [])
unfolding retrieve_chunks text_eq
found_one = refl

forged :
    retrieve_chunks itself storage (one ∷ another ∷ []) 4 [] []
    ≡ (err not_available, (7 ∷ 8 ∷ [], 7 ∷ 8 ∷ []) ∷ [])
unfolding retrieve_chunks text_eq
forged = refl

retrieve-cache_chunks_example :
    (let (chunks, after) = cache_chunks itself 2 payload [] in
      retrieve_chunks itself storage chunks (length payload) (itself payload) after
      ≡ (ok payload, after))
retrieve-cache_chunks_example =
    retrieve-cache_chunks itself storage 2 payload [] (ground arith) (λ a b e. e) tt

retrieve_chunks-Fits_example :
    (length payload_twice ≡ 4)
    × (itself payload_twice ≡ payload_twice)
    × (values : List Bytes) × (payload_twice ≡ flat values)
    × FitAll itself values (one ∷ one ∷ [])
retrieve_chunks-Fits_example =
    retrieve_chunks-Fits itself storage (one ∷ one ∷ []) 4 payload_twice []
      ((7 ∷ 8 ∷ [], 7 ∷ 8 ∷ []) ∷ []) payload_twice found_one
