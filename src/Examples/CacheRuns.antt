-- ===== src/Examples/CacheRuns.antt =====
-- A cache of two snapshots, by src/cache.js and src/retention.js.
use git_pigeon.Prelude.{
  ◌≡◌, refl, true, Option, none, some, [], ◌∷◌, filter, any, inl, if◌then◌else◌, length,
}
use git_pigeon.Prelude.Sorting.{sort_by, insert_by}
use git_pigeon.Prelude.Text.{Text, text, text_eq, text_lt, contains}
use git_pigeon.Prelude.Patterns.{is_hex, every}
use git_pigeon.Prelude.Instant.{ℤ, pos}
use git_pigeon.Cache.{
  CachedManifest, Directory, prune, chunks_of, Bytes, Cipher, read_chunk, write_chunk, sorted,
  comes_first, created, is_recent, protected_ids, unreadable_protected, sweep, swept,
  kept_manifests, referenced_chunks,
}
use git_pigeon.Cache.Prune.{pruned, prune-keeps_chunks, prune-no_garbage}
use git_pigeon.Cache.Chunks.{read-write_chunk}

abbrev old_id : Text
old_id = text "00112233445566778899aabbccddeeff00112233445566778899aabbccddeeff"

abbrev new_id : Text
new_id = text "11112233445566778899aabbccddeeff00112233445566778899aabbccddeeff"

abbrev old_chunk : Text
old_chunk = text "22222233445566778899aabbccddeeff00112233445566778899aabbccddeeff"

abbrev new_chunk : Text
new_chunk = text "33332233445566778899aabbccddeeff00112233445566778899aabbccddeeff"

-- An instant is written as as many letters.
abbrev date_parse : Text → Option ℤ
date_parse s = some (pos (length s))

abbrev manifest_of : Text → Text → CachedManifest
manifest_of at c = record {
  created_at = some at;
  chunks = c ∷ [];
  files = [];
  live_files = [];
  trash_files = [];
}

abbrev read : Text → Option CachedManifest
read id =
    if text_eq id old_id
    then some (manifest_of (text "a") old_chunk)
    else some (manifest_of (text "aaa") new_chunk)

abbrev directory : Directory
directory = record { manifests = old_id ∷ new_id ∷ []; chunks = old_chunk ∷ new_chunk ∷ [] }

directory_run :
    (prune date_parse text_lt read [] 1 0 (pos 9) directory).0
    ≡ record { manifests = new_id ∷ []; chunks = new_chunk ∷ [] }
unfolding prune is_hex every filter any text_eq text_lt contains sorted sort_by insert_by
    comes_first created is_recent protected_ids unreadable_protected sweep swept kept_manifests
    referenced_chunks chunks_of
directory_run = refl

prune-keeps_chunks_example :
    contains new_chunk (pruned date_parse text_lt read [] 1 0 (pos 9) directory).chunks ≡ true
unfolding prune is_hex every filter any text_eq text_lt contains sorted sort_by insert_by
    comes_first created is_recent protected_ids unreadable_protected sweep swept kept_manifests
    referenced_chunks chunks_of
prune-keeps_chunks_example =
    prune-keeps_chunks date_parse text_lt read [] 1 0 (pos 9) directory new_id new_chunk refl refl
      refl refl

prune-no_garbage_example :
    (id : Text) × (contains id (pruned date_parse text_lt read [] 1 0 (pos 9) directory).manifests
      ≡ true)
    × (contains new_chunk (chunks_of (read id)) ≡ true)
unfolding prune is_hex every filter any text_eq text_lt contains sorted sort_by insert_by
    comes_first created is_recent protected_ids unreadable_protected sweep swept kept_manifests
    referenced_chunks chunks_of
prune-no_garbage_example =
    prune-no_garbage date_parse text_lt read [] 1 0 (pos 9) directory new_chunk refl refl refl

-- Hides nothing, and has an IV and a tag of zeros.
abbrev zeros : Bytes
zeros = 0 ∷ 0 ∷ 0 ∷ 0 ∷ 0 ∷ 0 ∷ 0 ∷ 0 ∷ 0 ∷ 0 ∷ 0 ∷ 0 ∷ []

abbrev tag : Bytes
tag = 0 ∷ 0 ∷ 0 ∷ 0 ∷ zeros

abbrev cipher : Cipher Text
cipher = record {
  encrypt = λ key iv digest payload. (tag, payload);
  decrypt = λ key digest iv tag body. some body;
}

read-write_chunk_example :
    read_chunk cipher
      (some (text "key"))
      zeros
      old_chunk
      (write_chunk cipher (some (text "key")) zeros old_chunk (7 ∷ []) none).1
    ≡ write_chunk cipher (some (text "key")) zeros old_chunk (7 ∷ []) none
read-write_chunk_example =
    read-write_chunk cipher (some (text "key")) zeros zeros old_chunk (7 ∷ [])
      (λ key iv digest payload. refl) (λ key iv digest payload. refl) refl (inl refl)
