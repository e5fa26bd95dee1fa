-- ===== src/Sync/Manifest/Files.antt =====
-- src/protocol.js, `#validateManifest`: the files that it lets through.
use git_pigeon.Prelude.{
  ℕ, ◌≤◌, ◌≡◌, refl, sym, ap, Bool, true, false, Option, none, some, List, [], ◌∷◌, map, arith, All,
  ==_iff, not-true, if◌then◌else◌,
}
use git_pigeon.Prelude.Text.{Text, text_eq_comm, contains}
use git_pigeon.Prelude.Members.{is_unique}
use git_pigeon.Prelude.Result.{>>=-eq-some, guard-eq-some, some_injective}
use git_pigeon.Sync.Chunks.{Chunk}
use git_pigeon.Sync.Records.{is_digest}
use git_pigeon.Sync.Manifest.{
  RawChunk, RawFile, File, file_of, total_size, valid_chunk, valid_chunks, is_consistent,
  valid_content, valid_file, valid_files,
}

-- A chunk's name is a digest, and there is something in it.
abbrev pub IsChunk : Chunk → Type 0
IsChunk c = (is_digest c.sha256 ≡ true) × (1 ≤ c.size)

-- A file's chunks make up its size; a deleted file is empty, and another one has a digest.
abbrev pub IsFile : File → Type 0
IsFile f = All IsChunk f.chunks × (total_size f.chunks ≡ f.size) × (is_consistent f ≡ true)

valid_chunk-IsChunk : (raw : RawChunk) (c : Chunk) → valid_chunk raw ≡ some c → IsChunk c
unfolding valid_chunk
valid_chunk-IsChunk raw c h = ground arith

pub valid_chunks-IsChunk :
    (raws : List RawChunk) (cs : List Chunk) → valid_chunks raws ≡ some cs → All IsChunk cs
unfolding valid_chunks
valid_chunks-IsChunk [] [] h = tt
valid_chunks-IsChunk [] (c ∷ cs) h = absurd (ground arith)
valid_chunks-IsChunk (raw ∷ raws) cs h =
    let (c, first, then_rest) = >>=-eq-some (valid_chunk raw) _ h in
    let (ds, rest, e) = >>=-eq-some (valid_chunks raws) _ then_rest in
    rw (sym (some_injective e))
      ((valid_chunk-IsChunk raw c first, valid_chunks-IsChunk raws ds rest))

valid_content-IsFile :
    (live : Bool) (path : Text) (deleted : Bool) (base : Option Text) (executable : Bool)
    (raw : RawFile) (total after : ℕ) (f : File)
    → valid_content live path deleted base executable raw total ≡ some (f, after)
    → IsFile f × (f.path ≡ path)
unfolding valid_content
valid_content-IsFile live path deleted base executable raw total after f h =
    let (raw_chunks, e, counted) = >>=-eq-some raw.chunks _ h in
    let (short, small) = guard-eq-some _ _ counted in
    let (few, parsed) = guard-eq-some _ _ small in
    let (chunks, valid, sized) = >>=-eq-some (valid_chunks raw_chunks) _ parsed in
    let (size, s, summed) = >>=-eq-some raw.size _ sized in
    let (sum, based) = guard-eq-some _ _ summed in
    let (has_base, whole) = guard-eq-some _ _ based in
    let (consistent, done) = guard-eq-some _ _ whole in
    let same : file_of path deleted size base executable raw chunks ≡ f =
      ap (λ (r : File × ℕ). r.0) (some_injective done) in
    rw (sym same)
      ((valid_chunks-IsChunk raw_chunks chunks valid, (==_iff _ _).0 sum, consistent), refl)

valid_file-IsFile :
    (live : Bool) (seen : List Text) (total after : ℕ) (raw : RawFile) (f : File)
    → valid_file live seen total raw ≡ some (f, after)
    → IsFile f × (contains f.path seen ≡ false)
unfolding valid_file
valid_file-IsFile live seen total after raw f h =
    let (path, e, fresh) = >>=-eq-some raw.path _ h in
    let (new, marked) = guard-eq-some _ _ fresh in
    let (deleted, d, moded) = >>=-eq-some raw.deleted _ marked in
    let (executable, x, content) =
      >>=-eq-some (if live then raw.executable else some false) _ moded in
    let (valid, same) =
      valid_content-IsFile live path deleted (if live then raw.base_sha256 else none) executable raw
        total after f content in
    (valid, rw same (not-true (contains path seen) new))

new_path :
    (seen : List Text) (p : Text) (fs : List File)
    → All (λ f. contains f.path (p ∷ seen) ≡ false) fs
    → (contains p (map (λ f. f.path) fs) ≡ false) × All (λ f. contains f.path seen ≡ false) fs
unfolding contains
new_path seen p [] h = (refl, tt)
new_path seen p (f ∷ fs) h =
    let (rest, old) = new_path seen p fs h.1 in
    let swap = text_eq_comm f.path p in (ground arith, (ground arith, old))

-- Files that pass have different paths, none of which was there before.
pub valid_files-IsFile :
    (live : Bool) (seen : List Text) (total : ℕ) (raws : List RawFile) (fs : List File)
    → valid_files live seen total raws ≡ some fs
    → All IsFile fs
      × (is_unique (map (λ f. f.path) fs) ≡ true)
      × All (λ f. contains f.path seen ≡ false) fs
unfolding valid_files is_unique
valid_files-IsFile live seen total [] [] h = (tt, refl, tt)
valid_files-IsFile live seen total [] (f ∷ fs) h = absurd (ground arith)
valid_files-IsFile live seen total (raw ∷ raws) fs h =
    let (checked, first, then_rest) = >>=-eq-some (valid_file live seen total raw) _ h in
    let (gs, rest, done) =
      >>=-eq-some (valid_files live (checked.0.path ∷ seen) checked.1 raws) _ then_rest in
    let (valid, new) = valid_file-IsFile live seen total checked.1 raw checked.0 first in
    let (all, unique, others) =
      valid_files-IsFile live (checked.0.path ∷ seen) checked.1 raws gs rest in
    let (fresh, old) = new_path seen checked.0.path gs others in
    rw (sym (some_injective done)) (((valid, all), rw (fresh, unique) refl, (new, old)))
