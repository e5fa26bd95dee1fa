-- ===== src/Sync/Manifest/Valid.antt =====
-- src/protocol.js, `#validateManifest`: the manifests that it lets through.
use git_pigeon.Prelude.{
  ℕ, ◌≡◌, sym, ap, ◌∙◌, Bool, true, false, ◌==◌, ==_iff, and_left, and_right, Option, none, some,
  List, [], map, leb, length, arith, All, if◌then◌else◌,
}
use git_pigeon.Prelude.Text.{Text, text_eq→eq}
use git_pigeon.Prelude.Members.{is_unique}
use git_pigeon.Prelude.Sorting.{All-sort_by, is_unique-sort_by}
use git_pigeon.Prelude.Result.{>>=-eq-some, guard-eq-some, some_injective}
use git_pigeon.Sync.Chunks.{Bytes, Chunk}
use git_pigeon.Sync.Records.{is_digest, is_digest_or_none}
use git_pigeon.Sync.Manifest.{
  RawManifest, RawFile, RawChunk, Manifest, File, PackIndex, total_size, valid_chunks, value_of,
  listed, max_chunks,
}
use git_pigeon.Sync.Manifest.Check.{
  Bundle, matches_empty, is_extended, has_live, workspace_digest, live_workspace_digest,
  valid_pack_index, valid_bundle, sorted, valid_workspace, valid_live, is_named, validate_manifest,
  or_else, sized_chunks, is_bundle, checked_files, stated_files, bundle_digest, bundle_of,
  is_identified, manifest_of,
}
use git_pigeon.Sync.Manifest.Files.{IsChunk, IsFile, valid_chunks-IsChunk, valid_files-IsFile}

-- Files that are each right, and have different paths.
abbrev pub AreFiles : List File → Type 0
AreFiles fs = All IsFile fs × (is_unique (map (λ f. f.path) fs) ≡ true)

-- The chunks make up the bundle's size, and there is a digest exactly where there is a bundle.
pub record IsBundle (b : Bundle) : Type 0 where
  pub chunks_valid : All IsChunk b.chunks
  pub size_eq : total_size b.chunks ≡ b.size
  pub sha256_valid : is_digest_or_none b.sha256 ≡ true
  pub empty_iff : matches_empty b.size b.sha256 ≡ true

sized_chunks-valid :
    (stated : Option ℕ) (has_refs : Bool) (raw : Option (List RawChunk)) (size : ℕ)
    (chunks : List Chunk)
    → sized_chunks stated has_refs raw ≡ some (size, chunks)
    → All IsChunk chunks × (total_size chunks ≡ size)
unfolding sized_chunks
sized_chunks-valid none has_refs raw size chunks h = absurd (ground arith)
sized_chunks-valid (some n) has_refs raw size chunks h =
    let (refs, listed_chunks) = guard-eq-some has_refs _ h in
    let (raws, r, counted) = >>=-eq-some raw _ listed_chunks in
    let (few, parsed) = guard-eq-some (leb (length raws) max_chunks) _ counted in
    let (cs, valid, summed) = >>=-eq-some (valid_chunks raws) _ parsed in
    let (sum, done) = guard-eq-some (total_size cs == n) _ summed in
    let same : ◌≡◌ {A = ℕ × List Chunk} (n, cs) (size, chunks) = some_injective done in
    let m = ap (λ r. r.0) same in
    let c = ap (λ r. r.1) same in
    (rw (sym c) (valid_chunks-IsChunk raws cs valid), rw (sym c, sym m) ((==_iff _ _).0 sum))

checked_files-AreFiles :
    (live : Bool) (raw : Option (List RawFile)) (fs : List File)
    → checked_files live raw ≡ some fs
    → AreFiles fs
unfolding checked_files
checked_files-AreFiles live none fs h = absurd (ground arith)
checked_files-AreFiles live (some raws) fs h =
    let (few, parsed) = guard-eq-some _ _ h in
    let (all, unique, others) = valid_files-IsFile live [] 0 raws fs parsed in (all, unique)

stated_files-eq :
    (must : Bool) (stated : Option Text) (calculated : Text) (files : List File) (found : Text)
    (fs : List File)
    → stated_files must stated calculated files ≡ some (found, fs)
    → (found ≡ calculated) × (fs ≡ files) × (is_digest found ≡ true)
unfolding stated_files
stated_files-eq must stated calculated files found fs h =
    let digest = if must then or_else stated [] else calculated in
    let (named, done) = guard-eq-some _ _ h in
    let same : ◌≡◌ {A = Text × List File} (digest, files) (found, fs) = some_injective done in
    let d = ap (λ r. r.0) same in
    (
      sym d ∙ text_eq→eq digest calculated (and_right _ _ named),
      sym (ap (λ r. r.1) same),
      rw (sym d) (and_left (is_digest digest) _ named),
    )

module _ (digest_text : Text → Text) (digest : Bytes → Text) (base64 : Text → Bytes)
    (show : ℕ → Text) (locale_lt : Text → Text → Bool) where
  is_bundle-digests :
      (v : RawManifest) (size : ℕ) (chunks : List Chunk)
      → is_bundle digest_text digest base64 show locale_lt v size chunks ≡ true
      → (matches_empty size (bundle_digest digest_text digest base64 show locale_lt v) ≡ true)
        × (is_digest_or_none (bundle_digest digest_text digest base64 show locale_lt v) ≡ true)
  unfolding is_bundle
  is_bundle-digests v size chunks h = (ground arith, ground arith)

  bundle_of-IsBundle :
      (v : RawManifest) (size : ℕ) (chunks : List Chunk) (pack_index : Option PackIndex)
      → sized_chunks v.bundle_size v.has_refs v.chunks ≡ some (size, chunks)
      → is_bundle digest_text digest base64 show locale_lt v size chunks ≡ true
      → IsBundle (bundle_of digest_text digest base64 show locale_lt v size chunks pack_index)
  bundle_of-IsBundle v size chunks pack_index s fits =
      let (valid, sum) = sized_chunks-valid v.bundle_size v.has_refs v.chunks size chunks s in
      let (empty, digests) = is_bundle-digests v size chunks fits in
      record { chunks_valid = valid; size_eq = sum; sha256_valid = digests; empty_iff = empty }

  pub valid_bundle-IsBundle :
      (v : RawManifest) (b : Bundle)
      → valid_bundle digest_text digest base64 show locale_lt v ≡ some b
      → IsBundle b
  unfolding valid_bundle
  valid_bundle-IsBundle v b h =
      let (sized, s, tested) = >>=-eq-some (sized_chunks v.bundle_size v.has_refs v.chunks) _ h in
      let (fits, packed) =
        guard-eq-some (is_bundle digest_text digest base64 show locale_lt v sized.0 sized.1) _
          tested in
      let (pack_index, p, done) =
        >>=-eq-some (valid_pack_index digest_text digest base64 show locale_lt v.pack_index) _
          packed in
      let same : bundle_of digest_text digest base64 show locale_lt v sized.0 sized.1 pack_index
          ≡ b =
        some_injective done in
      rw (sym same) (bundle_of-IsBundle v sized.0 sized.1 pack_index s fits)

  sorted-AreFiles :
      (fs : List File) → AreFiles fs → AreFiles (sorted digest_text digest base64 show locale_lt fs)
  sorted-AreFiles fs h = (All-sort_by _ IsFile fs h.0, is_unique-sort_by _ (λ f. f.path) fs ∙ h.1)

  pub valid_workspace-AreFiles :
      (v : RawManifest) (stated : Text) (fs : List File)
      → valid_workspace digest_text digest base64 show locale_lt v ≡ some (stated, fs)
      → AreFiles fs
        × (stated ≡ workspace_digest digest_text digest base64 show locale_lt fs)
        × (is_digest stated ≡ true)
  unfolding valid_workspace
  valid_workspace-AreFiles v stated fs h =
      let (files, c, done) = >>=-eq-some (checked_files false (listed v.files)) _ h in
      let (s, f, n) =
        stated_files-eq (is_extended v) (value_of v.workspace_digest) _ _ stated fs done in
      rw f (sorted-AreFiles files (checked_files-AreFiles false (listed v.files) files c), s, n)

  pub valid_live-AreFiles :
      (v : RawManifest) (stated : Text) (fs : List File)
      → valid_live digest_text digest base64 show locale_lt v ≡ some (stated, fs)
      → AreFiles fs
        × (stated ≡ live_workspace_digest digest_text digest base64 show locale_lt fs)
        × (is_digest stated ≡ true)
  unfolding valid_live
  valid_live-AreFiles v stated fs h =
      let (sized, rest) = guard-eq-some _ _ h in
      let (files, c, done) = >>=-eq-some (checked_files true (listed v.live_files)) _ rest in
      let (s, f, n) =
        stated_files-eq (has_live v) (value_of v.live_workspace_digest) _ _ stated fs done in
      rw f (sorted-AreFiles files (checked_files-AreFiles true (listed v.live_files) files c), s, n)

  -- A manifest that is consistent in itself.
  pub record IsManifest (m : Manifest) : Type 0 where
    pub chunks_valid : All IsChunk m.chunks
    pub size_eq : total_size m.chunks ≡ m.bundle_size
    pub empty_iff : matches_empty m.bundle_size m.bundle_sha256 ≡ true
    pub files_valid : AreFiles m.files
    pub files_digest :
        m.workspace_digest ≡ workspace_digest digest_text digest base64 show locale_lt m.files
    pub live_files_valid : AreFiles m.live_files
    pub live_digest :
        m.live_workspace_digest
        ≡ live_workspace_digest digest_text digest base64 show locale_lt m.live_files

  manifest_of-IsManifest :
      (v : RawManifest) (bundle : Bundle) (workspace live : Text × List File)
      → valid_bundle digest_text digest base64 show locale_lt v ≡ some bundle
      → valid_workspace digest_text digest base64 show locale_lt v ≡ some workspace
      → valid_live digest_text digest base64 show locale_lt v ≡ some live
      → IsManifest (manifest_of digest_text digest base64 show locale_lt v bundle workspace live)
  manifest_of-IsManifest v bundle workspace live b w l =
      let b_valid = valid_bundle-IsBundle v bundle b in
      let (files, d, _) = valid_workspace-AreFiles v workspace.0 workspace.1 w in
      let (lives, e, _) = valid_live-AreFiles v live.0 live.1 l in
      record {
        chunks_valid = b_valid.chunks_valid;
        size_eq = b_valid.size_eq;
        empty_iff = b_valid.empty_iff;
        files_valid = files;
        files_digest = d;
        live_files_valid = lives;
        live_digest = e;
      }

  -- The parts of a manifest that is let through, and its snapshot ID.
  pub validate_manifest-parts :
      (repository_id : Text) (expected : Option Text) (v : RawManifest) (m : Manifest)
      → validate_manifest digest_text digest base64 show locale_lt repository_id expected (some v)
        ≡ some m
      → (bundle : Bundle) × (workspace : Text × List File) × (live : Text × List File)
        × (valid_bundle digest_text digest base64 show locale_lt v ≡ some bundle)
        × (valid_workspace digest_text digest base64 show locale_lt v ≡ some workspace)
        × (valid_live digest_text digest base64 show locale_lt v ≡ some live)
        × (is_identified digest_text digest base64 show locale_lt v bundle.sha256 workspace.0 live.0
            ≡ true)
        × (manifest_of digest_text digest base64 show locale_lt v bundle workspace live ≡ m)
  unfolding validate_manifest
  validate_manifest-parts repository_id expected v m h =
      let (named, h1) =
        guard-eq-some (is_named digest_text digest base64 show locale_lt repository_id expected v) _
          h in
      let (bundle, b, h2) =
        >>=-eq-some (valid_bundle digest_text digest base64 show locale_lt v) _ h1 in
      let (workspace, w, h3) =
        >>=-eq-some (valid_workspace digest_text digest base64 show locale_lt v) _ h2 in
      let (live, l, h4) =
        >>=-eq-some (valid_live digest_text digest base64 show locale_lt v) _ h3 in
      let (i, done) =
        guard-eq-some
          (is_identified digest_text digest base64 show locale_lt v bundle.sha256 workspace.0
            live.0)
          _ h4 in
      (bundle, workspace, live, b, w, l, i, some_injective done)

  -- In a manifest that is let through every chunk of the bundle, of a private and of a live file has a
  -- digest and a size, the chunks of the bundle and of each of those files make up its size, there is a
  -- bundle's digest exactly where there is a bundle, no two private and no two live files have one path,
  -- and these files have the digests that stand for them.
  pub validate_manifest-IsManifest :
      (repository_id : Text) (expected : Option Text) (v : RawManifest) (m : Manifest)
      → validate_manifest digest_text digest base64 show locale_lt repository_id expected (some v)
        ≡ some m
      → IsManifest m
  validate_manifest-IsManifest repository_id expected v m h =
      let (bundle, workspace, live, b, w, l, i, same) =
        validate_manifest-parts repository_id expected v m h in
      rw (sym same) (manifest_of-IsManifest v bundle workspace live b w l)
