-- ===== src/Update/Transfer/Progress.antt =====
-- src/peer-update.js: a fetch from a peer that serves its executable ends with that executable.
use mathlib.Core.List.{append-nil}
use git_pigeon.Prelude.{
  ℕ, zero, suc, ◌+◌, ◌-◌, ◌*◌, ◌≤◌, ◌≡◌, refl, sym, ap, ◌∙◌, Bool, true, false, Option, none, some,
  [], ◌∷◌, ◌++◌, arith, ltb, leb, length, take, drop, take_all, drop-nil, take-take-drop,
  length-take, length-drop, Bool-cases, inl, inr, if◌then◌else◌,
}
use git_pigeon.Prelude.Text.{Text, text_eq_refl}
use git_pigeon.Update.Transfer.{
  Bytes, Job, Offer, Chunk, Outcome, requested, installed, is_awaited, finish_fetch, after_write,
  receive_chunk, write_at, serve_slice, chunk_bytes, begin_fetch,
}

-- The chunk that answers the job's request.
abbrev pub reply_to : Job → Bytes → Chunk
reply_to job payload = record {
  encrypted = true;
  from_peer_id = job.peer_id;
  version = job.version;
  offset = some job.offset;
  payload = payload;
}

write_at-end : (file payload : Bytes) → write_at file (length file) payload ≡ file ++ payload
unfolding write_at
write_at-end [] payload = ap (◌++◌ payload) (drop-nil (length payload)) ∙ append-nil payload
write_at-end (b ∷ file) payload = ap (◌∷◌ b) (write_at-end file payload)

-- How many bytes the peer sends of an executable at an offset.
abbrev slice_size : Bytes → ℕ → ℕ
slice_size exe offset =
    if ltb chunk_bytes (length exe - offset) then chunk_bytes else length exe - offset

-- A job that has the first part of the executable.
record HasPrefix (exe : Bytes) (job : Job) : Type 0 where
  size_eq : job.size ≡ length exe
  offset_le : job.offset ≤ length exe
  file_eq : job.file ≡ take job.offset exe

advance : Job → Bytes → Job
advance job payload = record job {
  offset = job.offset + length payload;
  file = write_at job.file job.offset payload;
}

slice : Bytes → ℕ → Bytes
slice exe offset = take (slice_size exe offset) (drop offset exe)

length-slice : (exe : Bytes) (offset : ℕ) → length (slice exe offset) ≡ slice_size exe offset
unfolding slice
length-slice exe offset =
    length-take (slice_size exe offset) (drop offset exe) (ground (arith, length-drop offset exe))

advance_le :
    (exe : Bytes) (job : Job)
    → job.offset ≤ length exe
    → job.offset + length (slice exe job.offset) ≤ length exe
advance_le exe job h = rw (length-slice exe job.offset) (ground arith)

advance-HasPrefix :
    (exe : Bytes) (job : Job)
    → HasPrefix exe job
    → HasPrefix exe (advance job (slice exe job.offset))
unfolding advance slice
advance-HasPrefix exe job h = record {
  size_eq = h.size_eq;
  offset_le = advance_le exe job h.offset_le;
  file_eq =
      let n = job.offset in
      let len : n ≡ length job.file = sym (ap length h.file_eq ∙ length-take n exe h.offset_le) in
      ap (λ k. write_at job.file k (slice exe n)) len
      ∙ write_at-end job.file (slice exe n)
      ∙ ap (λ f. f ++ slice exe n) h.file_eq
      ∙ take-take-drop n (slice_size exe n) exe
      ∙ ap (λ k. take (n + k) exe) (sym (length-slice exe n));
}

rest_le :
    (exe : Bytes) (job : Job)
    → HasPrefix exe job
    → length exe ≤ job.offset + chunk_bytes
    → ltb chunk_bytes (length exe - job.offset) ≡ false
rest_le exe job h e = ground arith

advanced_le :
    (exe : Bytes) (job : Job) (rounds : ℕ)
    → ltb chunk_bytes (length exe - job.offset) ≡ true
    → length exe ≤ job.offset + suc (suc rounds) * chunk_bytes
    → length exe ≤ (advance job (slice exe job.offset)).offset + suc rounds * chunk_bytes
unfolding advance
advanced_le exe job rounds more e = let l = length-slice exe job.offset in ground arith

advanced_end :
    (exe : Bytes) (job : Job)
    → HasPrefix exe job
    → ltb chunk_bytes (length exe - job.offset) ≡ false
    → (advance job (slice exe job.offset)).offset ≡ length exe
unfolding advance
advanced_end exe job h last =
    let l = length-slice exe job.offset in let o = h.offset_le in ground arith

done_at_end :
    (exe : Bytes) (job : Job)
    → HasPrefix exe job
    → ltb chunk_bytes (length exe - job.offset) ≡ false
    → leb (advance job (slice exe job.offset)).size (advance job (slice exe job.offset)).offset
      ≡ true
unfolding advance
done_at_end exe job h last =
    let l = length-slice exe job.offset in
    let o = h.offset_le in let size = h.size_eq in ground arith

module _ (digest : Bytes → Text) (runs : Bytes → Bool) where
  abbrev go_on : (Job → Option Outcome) → Option Job × Outcome → Option Outcome
  go_on more (none, outcome) = some outcome
  go_on more (some next, outcome) = more next

  abbrev on_slice : (Job → Option Outcome) → Job → Option Bytes → Option Outcome
  on_slice more job none = none
  on_slice more job (some payload) =
      go_on more (receive_chunk digest runs true (some job) (reply_to job payload))

  -- The fetch, each request answered; `none` where the rounds run out or the peer does not answer.
  pub exchange : ℕ → Bytes → Job → Option Outcome
  exchange zero exe job = none
  exchange (suc rounds) exe job = on_slice (exchange rounds exe) job (serve_slice exe job.offset)

  reply-IsAwaited : (job : Job) (payload : Bytes) → is_awaited job (reply_to job payload) ≡ true
  unfolding is_awaited
  reply-IsAwaited job payload = ground (arith, text_eq_refl job.peer_id, text_eq_refl job.version)

  receive_reply :
      (exe : Bytes) (job : Job)
      → HasPrefix exe job
      → receive_chunk digest runs true (some job) (reply_to job (slice exe job.offset))
        ≡ after_write digest runs true (advance job (slice exe job.offset)) (slice exe job.offset)
  unfolding receive_chunk advance
  receive_reply exe job h =
      let le = advance_le exe job h.offset_le in
      let size = h.size_eq in rw (reply-IsAwaited job (slice exe job.offset)) (ground arith)

  serve_slice-eq :
      (exe : Bytes) (job : Job)
      → HasPrefix exe job
      → serve_slice exe job.offset ≡ some (slice exe job.offset)
  unfolding serve_slice slice
  serve_slice-eq exe job h = let le = h.offset_le in ground arith

  exchange-suc :
      (rounds : ℕ) (exe : Bytes) (job : Job)
      → HasPrefix exe job
      → exchange (suc rounds) exe job
        ≡ go_on (exchange rounds exe) (
            after_write digest runs true
              (advance job (slice exe job.offset))
              (slice exe job.offset))
  unfolding exchange
  exchange-suc rounds exe job h =
      ap (on_slice (exchange rounds exe) job) (serve_slice-eq exe job h)
      ∙ ap (go_on (exchange rounds exe)) (receive_reply exe job h)

  finish_prefix :
      (exe : Bytes) (job : Job)
      → HasPrefix exe job
      → job.offset ≡ length exe
      → job.sha256 ≡ digest exe
      → runs exe ≡ true
      → finish_fetch digest runs job ≡ installed exe
  unfolding finish_fetch
  finish_prefix exe job h e d r =
      let f : job.file ≡ exe =
        h.file_eq ∙ ap (λ n. take n exe) e ∙ take_all (length exe) exe (omega arith) in
      rw (f, d, text_eq_refl (digest exe), r)

  after_write_end :
      (job : Job) (payload : Bytes)
      → leb job.size job.offset ≡ true
      → after_write digest runs true job payload ≡ (none, finish_fetch digest runs job)
  unfolding after_write
  after_write_end job payload e = rw e refl

  -- The last slice ends the fetch.
  after_last :
      (exe : Bytes) (job : Job)
      → HasPrefix exe job
      → job.sha256 ≡ digest exe
      → runs exe ≡ true
      → ltb chunk_bytes (length exe - job.offset) ≡ false
      → after_write digest runs true (advance job (slice exe job.offset)) (slice exe job.offset)
        ≡ (none, installed exe)
  after_last exe job h d r last =
      let end = advanced_end exe job h last in
      after_write_end (advance job (slice exe job.offset)) (slice exe job.offset)
        (done_at_end exe job h last)
      ∙ ap (λ o. (none, o))
          (finish_prefix exe (advance job (slice exe job.offset)) (advance-HasPrefix exe job h) end
            (unfold advance in d) r)

  -- Any other slice is followed by a request for the next.
  after_more :
      (exe : Bytes) (job : Job)
      → HasPrefix exe job
      → ltb chunk_bytes (length exe - job.offset) ≡ true
      → after_write digest runs true (advance job (slice exe job.offset)) (slice exe job.offset) ≡ (
        some (advance job (slice exe job.offset)),
        requested (advance job (slice exe job.offset)).offset,
      )
  unfolding after_write advance
  after_more exe job h more =
      let l = length-slice exe job.offset in let size = h.size_eq in ground arith

  -- From a job that has the first part of the executable on.
  exchange-installed :
      (rounds : ℕ) (exe : Bytes) (job : Job)
      → HasPrefix exe job
      → job.sha256 ≡ digest exe
      → runs exe ≡ true
      → length exe ≤ job.offset + suc rounds * chunk_bytes
      → exchange (suc rounds) exe job ≡ some (installed exe)
  exchange-installed zero exe job h d r e =
      exchange-suc zero exe job h
      ∙ ap (go_on (exchange zero exe)) (after_last exe job h d r (rest_le exe job h (omega arith)))
  exchange-installed (suc rounds) exe job h d r e =
      elim (Bool-cases (ltb chunk_bytes (length exe - job.offset))) [
        | inl more ↦
            exchange-suc (suc rounds) exe job h
            ∙ ap (go_on (exchange (suc rounds) exe)) (after_more exe job h more)
            ∙ exchange-installed rounds exe (advance job (slice exe job.offset))
                (advance-HasPrefix exe job h) (unfold advance in d) r
                (advanced_le exe job rounds more e)
        | inr last ↦
            exchange-suc (suc rounds) exe job h
            ∙ ap (go_on (exchange (suc rounds) exe)) (after_last exe job h d r last)
      ]

  -- A fetch from a peer that serves the executable that it announced ends with that executable
  -- installed, after one round for each 16 KiB of it and one at least, given that it runs and that
  -- every message arrives.
  pub fetch-installed :
      (exe : Bytes) (peer_id : Text) (offer : Offer) (rounds : ℕ)
      → offer.size ≡ length exe
      → offer.sha256 ≡ digest exe
      → runs exe ≡ true
      → length exe ≤ suc rounds * chunk_bytes
      → (job : Job) × (begin_fetch none peer_id offer ≡ some job)
        × (exchange (suc rounds) exe job ≡ some (installed exe))
  unfolding begin_fetch
  fetch-installed exe peer_id offer rounds s d r e =
      let job : Job = record {
        peer_id = peer_id;
        version = offer.version;
        sha256 = offer.sha256;
        size = offer.size;
        offset = 0;
        file = [];
      } in
      (
        job,
        refl,
        exchange-installed rounds exe job
            (record { size_eq = s; offset_le = omega arith; file_eq = refl }) d r (omega arith),
      )
