-- ===== src/Handler/Sync/Tests.antt =====
-- Event synchronisation on a concrete stream.
use xlchat_project.Common.{
  ℕ, pos, ◌≡◌, ◌⊎◌, inr, refl, Bool, true, false, List, [], ◌∷◌, codes, arith, has_row, select,
}
use xlchat_project.Database.{Event}
use xlchat_project.Database.Events.{
  PruneRun, prune_sync_events, max_sync_event_seq, pruned_below_seq, append_all, stale_cutoff,
  is_stale, is_due,
}
use xlchat_project.Handler.{ok, full_sync, sync_page}
use xlchat_project.Handler.Sync.{max, sync_answer}
use xlchat_project.Handler.Sync.Pruning.{sync_answer-prune, sync_answer-prune_silent, unpruned}
use xlchat_project.Handler.Examples.{db}

-- Both clocks show the same second, and another connection appends an event in between.
abbrev at_once : PruneRun
at_once = record {
  selects = true;
  selected_at = 900000;
  before_delete = [];
  deletes = true;
  deleted_at = 900000;
  before_update = record { user = 1; event_type = codes "message"; payload = []; at = 900000 } ∷ [];
  updates = true;
}

sync_answer-prune_example :
    (sync_answer (prune_sync_events db 1 at_once).0 1 (pos 5) (pos 1) ≡ (
      ok,
      full_sync 5 (
          max
            (max_sync_event_seq (prune_sync_events db 1 at_once).0)
            (pruned_below_seq (prune_sync_events db 1 at_once).0)),
    ))
    ⊎ (sync_answer (prune_sync_events db 1 at_once).0 1 (pos 5) (pos 1)
        ≡ sync_answer (unpruned db at_once) 1 (pos 5) (pos 1))
unfolding append_all
sync_answer-prune_example = sync_answer-prune db 1 at_once 1 5 (pos 1) (omega arith) refl refl

-- The event of second 6 is not stale for the SELECT, and stale for the DELETE a second later.
abbrev second_later : PruneRun
second_later = record at_once { selected_at = 86406; deleted_at = 86407; before_update = [] }

sync_answer-prune_silent_example :
    (page : List Event) × (last : ℕ) × (more : Bool) × (sync_answer
        (prune_sync_events db 1 second_later).0
        1
        (pos 5)
        (pos 1)
      ≡ (ok, sync_page page last more))
    × (has_row (is_stale 1 86407) page ≡ false)
    × (has_row (is_stale 1 86407) (select (is_due 1 5) db.events) ≡ true)
unfolding stale_cutoff select has_row
sync_answer-prune_silent_example =
    sync_answer-prune_silent db 1 second_later 1 5 (pos 1) refl (omega arith) refl refl refl refl
      (omega arith) (omega arith) (inr (omega arith)) refl
