-- ===== src/Update/Transfer/Safety.antt =====
-- src/peer-update.js: what is installed, and what a fetch ignores.
use git_pigeon.Prelude.{
  ℕ, ◌+◌, ◌≡◌, ◌==◌, Bool, true, false, ◌||◌, Option, none, some, arith, ltb, leb, length,
  Bool-cases, inl, inr,
}
use git_pigeon.Prelude.Text.{Text, text_eq→eq}
use git_pigeon.Update.Transfer.{
  Bytes, Job, Chunk, Outcome, ignored, requested, installed, is_awaited, finish_fetch, after_write,
  receive_chunk, write_at,
}

module _ (digest : Bytes → Text) (runs : Bytes → Bool) where
  finish_fetch-installed :
      (job : Job) (file : Bytes)
      → finish_fetch digest runs job ≡ installed file
      → (digest file ≡ job.sha256) × (runs file ≡ true)
  unfolding finish_fetch
  finish_fetch-installed job file h = ground (arith, text_eq→eq (digest job.file) job.sha256)

  after_write-installed :
      (sends : Bool) (job : Job) (payload : Bytes) (after : Option Job) (file : Bytes)
      → after_write digest runs sends job payload ≡ (after, installed file)
      → (after ≡ none) × (digest file ≡ job.sha256) × (runs file ≡ true)
  unfolding after_write
  after_write-installed sends job payload after file h =
      elim (Bool-cases (leb job.size job.offset || length payload == 0)) [
        | inl done ↦ installed_parts (rw done at h)
        | inr more ↦ absurd (ground arith)
      ]
    where
      installed_parts :
          ◌≡◌ {A = Option Job × Outcome}
            (none, finish_fetch digest runs job)
            (after, installed file)
          → (after ≡ none) × (digest file ≡ job.sha256) × (runs file ≡ true)
      installed_parts e = let f = finish_fetch-installed job file (cc e) in (cc e, f.0, f.1)

  -- The job after a chunk is written.
  abbrev advance : Job → Chunk → Job
  advance job c = record job {
    offset = job.offset + length c.payload;
    file = write_at job.file job.offset c.payload;
  }

  -- Only a file that has the announced digest, and runs, is installed, whatever the peer sends; and
  -- the fetch is over then.
  pub receive-installed :
      (sends : Bool) (job : Job) (c : Chunk) (after : Option Job) (file : Bytes)
      → receive_chunk digest runs sends (some job) c ≡ (after, installed file)
      → (after ≡ none) × (digest file ≡ job.sha256) × (runs file ≡ true)
  unfolding receive_chunk
  receive-installed sends job c after file h = elim (Bool-cases (is_awaited job c)) [
    | inl awaited ↦ elim (Bool-cases (ltb job.size (job.offset + length c.payload))) [
      | inl over ↦ absurd (ground arith)
      | inr fits ↦ after_write-installed sends (advance job c) c.payload after file (ground arith)
    ]
    | inr other ↦ absurd (ground arith)
  ]

  not_awaited :
      (job : Job) (c : Chunk)
      → is_awaited job c ≡ true
      → length c.payload == 0 ≡ false
      → is_awaited (advance job c) c ≡ false
  unfolding is_awaited
  not_awaited job c h k = ground arith

  -- A chunk that has bytes is taken once: delivered again while the fetch goes on it is ignored, and
  -- the fetch stays as it is.
  pub receive_twice :
      (sends sends' : Bool) (job after : Job) (c : Chunk) (n : ℕ)
      → receive_chunk digest runs sends (some job) c ≡ (some after, requested n)
      → receive_chunk digest runs sends' (some after) c ≡ (some after, ignored)
  unfolding receive_chunk after_write
  receive_twice sends sends' job after c n h = ground (arith, not_awaited job c)
