-- ===== src/Snapshot/Serving.antt =====
-- src/snapshot-stream.js, `this.serving`, which tells the cache's pruning what to leave alone.
use git_pigeon.Prelude.{◌≡◌, refl, false, List, [], ◌∷◌, arith, filter}
use git_pigeon.Prelude.Text.{Text, text_eq_refl, contains}
use git_pigeon.Snapshot.{begin_serving, finish_serving, active_snapshot_ids}

finish-absent :
    (id : Text) (serving : List Text)
    → contains id serving ≡ false
    → finish_serving id serving ≡ serving
unfolding finish_serving contains filter
finish-absent id [] h = refl
finish-absent id (s ∷ ss) h = ground (arith, finish-absent id ss)

-- Serving one request leaves the set as it was.
pub finish-begin :
    (id : Text) (serving : List Text)
    → contains id serving ≡ false
    → finish_serving id (begin_serving id serving) ≡ serving
unfolding begin_serving finish_serving filter
finish-begin id serving h = rw (h, text_eq_refl id) (finish-absent id serving h)

not-contains-finish :
    (id : Text) (serving : List Text) → contains id (finish_serving id serving) ≡ false
unfolding finish_serving contains filter
not-contains-finish id [] = refl
not-contains-finish id (s ∷ ss) = ground (arith, not-contains-finish id ss)

-- Where two requests for one snapshot overlap, the snapshot is no longer among the active ones as
-- soon as the first of them is done, while the second is still being served.
pub overlap_drops :
    (id : Text) (serving : List Text)
    → contains id
        (active_snapshot_ids (finish_serving id (begin_serving id (begin_serving id serving))))
      ≡ false
unfolding active_snapshot_ids
overlap_drops id serving = not-contains-finish id (begin_serving id (begin_serving id serving))
