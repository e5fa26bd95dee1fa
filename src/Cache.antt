-- ===== src/Cache.antt =====
-- src/cache.js and src/retention.js: the files of the cache, and which of them a pruning removes.
-- The cipher, `Date.parse` and `localeCompare` are parameters. Files are removed and written without
-- failing.
pub mod Chunks
pub mod Prune
pub mod Roles
use git_pigeon.Prelude.{
  ℕ, ◌+◌, Bool, true, false, not, ◌&&◌, ◌||◌, Option, none, some, List, [], ◌∷◌, ◌++◌, map, take,
  flat, drop, filter, any, length, ltb, is_some, if◌then◌else◌,
}
use git_pigeon.Prelude.Sorting.{sort_by}
use git_pigeon.Prelude.Text.{Text, text, text_eq, contains}
use git_pigeon.Prelude.Patterns.{is_hex}
use git_pigeon.Prelude.Instant.{ℤ, pos, ltb_ℤ, eqb_ℤ, pos_part, neg_part}

pub data Role : Type 0 where
  archive standard transient : Role

pub data Plan : Type 0 where
  skip : Plan
  retain : ℕ → ℕ → Plan

abbrev pub standard_retained_snapshots : ℕ
standard_retained_snapshots = 4

abbrev pub transient_retained_snapshots : ℕ
transient_retained_snapshots = 1

abbrev pub retain_recent_snapshots_ms : ℕ
retain_recent_snapshots_ms = 900000

-- `normalizeStorageRole`; the text is empty where the value is missing.
unfoldable pub normalize_storage_role : Text → Role
normalize_storage_role value =
    if text_eq value (text "archive")
    then archive
    else if text_eq value (text "transient")
    then transient
    else standard

unfoldable pub plan_of : Role → Bool → Plan
plan_of archive archive_online = skip
plan_of standard archive_online = retain standard_retained_snapshots retain_recent_snapshots_ms
plan_of transient archive_online =
    if archive_online
    then retain transient_retained_snapshots retain_recent_snapshots_ms
    else retain standard_retained_snapshots retain_recent_snapshots_ms

unfoldable pub retention_plan : Text → Bool → Plan
unfolding plan_of normalize_storage_role
retention_plan role = plan_of (normalize_storage_role role)

-- The chunks of a manifest, and its time. What is no array has no elements; a chunk is its `sha256`.
-- The chunks of the quarantined files are there, and pruning passes them over.
pub record CachedManifest : Type 0 where
  pub created_at : Option Text
  pub chunks : List Text
  pub files : List (List Text)
  pub live_files : List (List Text)
  pub trash_files : List (List Text)

-- The names in the two directories; a manifest's without its `.json`.
pub record Directory : Type 0 where
  pub manifests : List Text
  pub chunks : List Text

pub record Pruning : Type 0 where
  pub skipped : Bool
  pub removed_manifests : ℕ
  pub removed_chunks : ℕ
  pub retained_manifests : ℕ

abbrev pub is_safe_name : Text → Bool
is_safe_name = is_hex 64

-- What `addChunks` adds for one manifest.
unfoldable pub chunks_of : Option CachedManifest → List Text
chunks_of none = []
chunks_of (some m) = filter is_safe_name (m.chunks ++ (flat m.files ++ flat m.live_files))

-- `read` yields what a manifest file holds: `none` where it cannot be read or parsed, or is falsy.
module _ (date_parse : Text → Option ℤ) (locale_lt : Text → Text → Bool)
    (read : Text → Option CachedManifest) where
  unfoldable pub created : Option CachedManifest → ℤ
  created none = pos 0
  created (some m) = elim m.created_at [
    | none ↦ pos 0
    | some s ↦ elim (date_parse s) [ none ↦ pos 0 | some t ↦ t ]
  ]

  -- Whether the comparison of `sort` puts `left` first: the newer one, then the greater name.
  unfoldable pub comes_first : Text → Text → Bool
  unfolding created
  comes_first left right =
      ltb_ℤ (created (read right)) (created (read left))
      || (eqb_ℤ (created (read right)) (created (read left)) && locale_lt right left)

  unfoldable pub sorted : List Text → List Text
  unfolding sort_by comes_first
  sorted = sort_by comes_first

  -- `now - createdAt < retainRecentMs`
  unfoldable pub is_recent : ℤ → ℕ → Text → Bool
  unfolding created
  is_recent now ms id =
      ltb (pos_part now + neg_part (created (read id)))
        (pos_part (created (read id)) + neg_part now + ms)

  abbrev pub is_readable : Text → Bool
  is_readable id = is_some (read id)

  -- `protectedIds`, once the newest and the recent snapshots are in it.
  unfoldable pub protected_ids : List Text → ℕ → ℕ → ℤ → List Text → List Text
  unfolding sorted is_recent
  protected_ids keep retained ms now ids =
      filter is_safe_name keep
      ++ (take retained (sorted (filter is_readable ids))
          ++ filter (is_recent now ms) (sorted (filter is_readable ids)))

  unfoldable pub kept_manifests : List Text → List Text → List Text
  kept_manifests protected ids = filter (λ id. is_readable id && contains id protected) ids

  unfoldable pub referenced_chunks : List Text → List Text
  unfolding chunks_of
  referenced_chunks kept = flat (map (λ id. chunks_of (read id)) kept)

  abbrev pub is_stale : List Text → Text → Bool
  is_stale keep name = is_safe_name name && not (contains name keep)

  -- The directory without the manifests that are not protected and the chunks not referred to.
  unfoldable pub sweep : List Text → Directory → Directory
  unfolding kept_manifests referenced_chunks
  sweep protected d = record {
    manifests = filter (λ id. not (is_stale protected id)) d.manifests;
    chunks =
        let ids = filter is_safe_name d.manifests in
        filter (λ name. not (is_stale (referenced_chunks (kept_manifests protected ids)) name))
          d.chunks;
  }

  unfoldable pub swept : List Text → Directory → Pruning
  unfolding kept_manifests referenced_chunks
  swept protected d =
      let ids = filter is_safe_name d.manifests in
      let kept = kept_manifests protected ids in
      record {
        skipped = false;
        removed_manifests = length (filter (is_stale protected) d.manifests);
        removed_chunks = length (filter (is_stale (referenced_chunks kept)) d.chunks);
        retained_manifests = length kept;
      }

  unfoldable pub unreadable_protected : List Text → List Text → Bool
  unreadable_protected keep ids =
      any (λ id. contains id (filter is_safe_name keep) && not (is_readable id)) ids

  unfoldable pub prune : List Text → ℕ → ℕ → ℤ → Directory → Directory × Pruning
  unfolding protected_ids sweep swept unreadable_protected
  prune keep retained ms now d =
      let ids = filter is_safe_name d.manifests in
      let protected = protected_ids keep retained ms now ids in
      if unreadable_protected keep ids
      then (
        d,
        record {
          skipped = true;
          removed_manifests = 0;
          removed_chunks = 0;
          retained_manifests = length ids;
        },
      )
      else (sweep protected d, swept protected d)

-- A chunk's file.
abbrev pub Bytes : Type 0
Bytes = List ℕ

abbrev pub chunk_magic : Bytes
chunk_magic = text "GPCH1" ++ (0 ∷ [])

abbrev pub iv_size : ℕ
iv_size = 12

abbrev pub tag_size : ℕ
tag_size = 16

pub data ReadError : Type 0 where
  secret_required corrupt_chunk cannot_decrypt : ReadError

pub data ReadResult : Type 0 where
  read_ok : Bytes → ReadResult
  read_failed : ReadError → ReadResult

pub record Cipher (K : Type 0) : Type 0 where
  -- A key, a fresh IV, the digest as associated data, and the text: the tag and the ciphertext.
  pub encrypt : K → Bytes → Text → Bytes → Bytes × Bytes
  -- A key, the digest, the IV, the tag and the ciphertext.
  pub decrypt : K → Text → Bytes → Bytes → Bytes → Option Bytes

-- `Buffer.concat([CHUNK_MAGIC, iv, cipher.getAuthTag(), encrypted])`, after the magic
abbrev pub laid_out : Bytes → Bytes × Bytes → Bytes
laid_out iv (tag, ciphertext) = iv ++ (tag ++ ciphertext)

module _ {K : Type 0} (cipher : Cipher K) where
  -- `#encryptChunk`
  unfoldable pub encrypt_chunk : Option K → Bytes → Text → Bytes → Bytes
  encrypt_chunk none iv digest payload = payload
  encrypt_chunk (some key) iv digest payload =
      chunk_magic ++ laid_out iv (cipher.encrypt key iv digest payload)

  abbrev pub opened : Option Bytes → ReadResult
  opened none = read_failed cannot_decrypt
  opened (some payload) = read_ok payload

  abbrev pub split_chunk : K → Text → Bytes → ReadResult
  split_chunk key digest body = opened (
      cipher.decrypt key digest (take iv_size body) (take tag_size (drop iv_size body))
        (drop tag_size (drop iv_size body)))

  unfoldable pub read_encrypted : Option K → Text → Bytes → ReadResult
  read_encrypted none digest stored = read_failed secret_required
  read_encrypted (some key) digest stored =
      if ltb (length stored) (length chunk_magic + iv_size + tag_size)
      then read_failed corrupt_chunk
      else split_chunk key digest (drop (length chunk_magic) stored)

  abbrev pub is_encrypted : Bytes → Bool
  is_encrypted stored = text_eq (take (length chunk_magic) stored) chunk_magic

  -- `readChunk` of a file that is there: the result, and the file afterwards.
  unfoldable pub read_chunk : Option K → Bytes → Text → Bytes → ReadResult × Bytes
  unfolding read_encrypted encrypt_chunk
  read_chunk key iv digest stored =
      if is_encrypted stored
      then (read_encrypted key digest stored, stored)
      else (read_ok stored, encrypt_chunk key iv digest stored)

  -- `writeChunk`: whether it succeeds, and the file afterwards.
  unfoldable pub write_chunk : Option K → Bytes → Text → Bytes → Option Bytes → ReadResult × Bytes
  unfolding read_chunk encrypt_chunk
  write_chunk key iv digest payload none = (read_ok payload, encrypt_chunk key iv digest payload)
  write_chunk key iv digest payload (some stored) = read_chunk key iv digest stored
