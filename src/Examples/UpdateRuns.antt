-- ===== src/Examples/UpdateRuns.antt =====
-- Versions, by src/auto-update.js, and a fetch from a peer, by src/peer-update.js.
use git_pigeon.Prelude.{◌≡◌, refl, Bool, true, Option, none, some, [], ◌∷◌, arith}
use git_pigeon.Prelude.Text.{Text, text, text_eq}
use git_pigeon.Update.Transfer.{
  Bytes, Job, Offer, installed, begin_fetch, receive_chunk, after_write, finish_fetch, is_awaited,
  write_at,
}
use git_pigeon.Update.Transfer.Safety.{receive-installed}
use git_pigeon.Update.Transfer.Progress.{exchange, fetch-installed, reply_to}

abbrev digest : Bytes → Text
digest file = file

abbrev runs : Bytes → Bool
runs file = true

abbrev executable : Bytes
executable = 7 ∷ 8 ∷ 9 ∷ []

abbrev offer : Offer
offer = record { version = text "0.14.0"; sha256 = executable; size = 3 }

fetch-installed_example :
    (job : Job) × (begin_fetch none (text "peer") offer ≡ some job)
    × (exchange digest runs 1 executable job ≡ some (installed executable))
fetch-installed_example =
    fetch-installed digest runs executable (text "peer") offer 0 refl refl refl (omega arith)

abbrev job : Job
job = record {
  peer_id = text "peer";
  version = text "0.14.0";
  sha256 = executable;
  size = 3;
  offset = 1;
  file = 7 ∷ [];
}

receive-installed_example :
    (◌≡◌ {A = Option Job} none none) × (digest executable ≡ executable) × (runs executable ≡ true)
unfolding receive_chunk after_write finish_fetch is_awaited write_at text_eq
receive-installed_example =
    receive-installed digest runs true job (reply_to job (8 ∷ 9 ∷ [])) none executable refl

abbrev next_job : Job
next_job = record job { offset = 2; file = 7 ∷ 8 ∷ [] }
