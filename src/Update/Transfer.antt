-- ===== src/Update/Transfer.antt =====
-- src/peer-update.js, a fetch from a peer: `beginFetch`, the `chunk` and `fetch` branches of `receive`,
-- `finishFetch` and `abandonFetch`. A write is done before the next message is read.
pub mod Safety
pub mod Progress
use git_pigeon.Prelude.{
  ℕ, zero, suc, ◌+◌, ◌-◌, Bool, true, false, not, ◌&&◌, ◌||◌, ◌==◌, Option, none, some, List, [],
  ◌∷◌, ◌++◌, ltb, leb, length, take, drop, if◌then◌else◌,
}
use git_pigeon.Prelude.Text.{Text, text_eq}

abbrev pub chunk_bytes : ℕ
chunk_bytes = 16384

abbrev pub Bytes : Type 0
Bytes = List ℕ

pub record Job : Type 0 where
  pub peer_id : Text
  pub version : Text
  pub sha256 : Text
  pub size : ℕ
  pub offset : ℕ
  -- The temporary file.
  pub file : Bytes

pub record Offer : Type 0 where
  pub version : Text
  pub sha256 : Text
  pub size : ℕ

-- A message of the kind `chunk`. `none` is an offset that is no natural number.
pub record Chunk : Type 0 where
  pub encrypted : Bool
  pub from_peer_id : Text
  pub version : Text
  pub offset : Option ℕ
  pub payload : Bytes

pub data Outcome : Type 0 where
  ignored abandoned mismatch run_failed : Outcome
  requested : ℕ → Outcome
  installed : Bytes → Outcome

-- `handle.write(data, 0, data.length, offset)`
unfoldable pub write_at : Bytes → ℕ → Bytes → Bytes
write_at file zero payload = payload ++ drop (length payload) file
write_at [] (suc n) payload = 0 ∷ write_at [] n payload
write_at (b ∷ file) (suc n) payload = b ∷ write_at file n payload

unfoldable pub begin_fetch : Option Job → Text → Offer → Option Job
begin_fetch (some job) peer_id offer = some job
begin_fetch none peer_id offer = some (record {
  peer_id = peer_id;
  version = offer.version;
  sha256 = offer.sha256;
  size = offer.size;
  offset = 0;
  file = [];
})

abbrev pub is_at : Option ℕ → ℕ → Bool
is_at none n = false
is_at (some m) n = m == n

-- Whether a chunk is the one that the fetch waits for.
unfoldable pub is_awaited : Job → Chunk → Bool
is_awaited job c =
    c.encrypted
    && text_eq c.from_peer_id job.peer_id
    && text_eq c.version job.version
    && is_at c.offset job.offset

-- The answer to a `fetch` message: a slice of the executable.
unfoldable pub serve_slice : Bytes → ℕ → Option Bytes
serve_slice executable offset =
    if ltb (length executable) offset
    then none
    else some (
        take
          (if ltb chunk_bytes (length executable - offset)
            then chunk_bytes
            else length executable - offset)
          (drop offset executable))

-- The digest of a file, whether it runs, and whether a message to the peer can be sent.
module _ (digest : Bytes → Text) (runs : Bytes → Bool) where
  unfoldable pub finish_fetch : Job → Outcome
  finish_fetch job =
      if not (text_eq (digest job.file) job.sha256)
      then mismatch
      else if not (runs job.file)
      then run_failed
      else installed job.file

  -- The chunk at the job's offset, once it is written.
  unfoldable pub after_write : Bool → Job → Bytes → Option Job × Outcome
  after_write sends job payload =
      if leb job.size job.offset || length payload == 0
      then (none, finish_fetch job)
      else if sends
      then (some job, requested job.offset)
      else (none, abandoned)

  unfoldable pub receive_chunk : Bool → Option Job → Chunk → Option Job × Outcome
  receive_chunk sends none c = (none, ignored)
  receive_chunk sends (some job) c =
      if not (is_awaited job c)
      then (some job, ignored)
      else if ltb job.size (job.offset + length c.payload)
      then (none, abandoned)
      else after_write sends
          (record job {
            offset = job.offset + length c.payload;
            file = write_at job.file job.offset c.payload;
          })
          c.payload
