-- ===== src/Database/Events.antt =====
-- DatabaseManager.cpp: the stream of sync events and its pruning.
pub mod Pruning
pub mod Paging
use xlchat_project.Common.{
  ℕ, suc, ◌+◌, ◌*◌, Bool, not, ◌&&◌, List, [], ◌∷◌, ◌++◌, Option, none, some, ◌==◌, ltb, take,
  if◌then◌else◌, Text, is_empty, codes, has_row, delete_rows, select, count_rows,
}
use xlchat_project.Database.{Db, Event}

-- user_id REFERENCES users(id)
unfoldable pub append_sync_event : Db → ℕ → Text → Text → ℕ → Db × Option ℕ
append_sync_event db user event_type payload now =
    if db.available && has_row (λ u. u.id == user) db.users
    then (
      record db {
        events =
            db.events
            ++ record {
              seq = db.next_seq;
              user = user;
              event_type = event_type;
              payload = if is_empty payload then codes "{}" else payload;
              at = now;
            }
              ∷ [];
        next_seq = suc db.next_seq;
      },
      some db.next_seq,
    )
    else (db, none)

-- WHERE user_id = ? AND seq > ?
abbrev pub is_due : ℕ → ℕ → Event → Bool
is_due user after e = e.user == user && ltb after e.seq

-- ORDER BY seq ASC is the order of the rows, since each insertion takes the next seq.
unfoldable pub get_sync_events : Db → ℕ → ℕ → ℕ → List Event
get_sync_events db user after limit =
    if db.available then take limit (select (is_due user after) db.events) else []

-- SELECT COALESCE(MAX(seq), 0)
unfoldable pub max_seq : List Event → ℕ
max_seq [] = 0
max_seq (e ∷ es) = let m = max_seq es in if ltb m e.seq then e.seq else m

abbrev pub retention_seconds : ℕ → ℕ
retention_seconds days = days * 86400

-- created_at < datetime('now', '-N days')
abbrev pub is_stale : ℕ → ℕ → Event → Bool
is_stale days now e = ltb (e.at + retention_seconds days) now

-- SELECT COALESCE(MAX(seq), 0) FROM sync_events WHERE created_at < datetime('now', …)
unfoldable pub stale_cutoff : Db → ℕ → ℕ → ℕ
unfolding max_seq
stale_cutoff db days now =
    if db.available then max_seq (select (is_stale days now) db.events) else 0

-- DELETE FROM sync_events WHERE created_at < datetime('now', …)
unfoldable pub delete_stale : Db → ℕ → ℕ → Db × Option ℕ
delete_stale db days now =
    if db.available
    then (
      record db { events = delete_rows (is_stale days now) db.events },
      some (count_rows (is_stale days now) db.events),
    )
    else (db, none)

-- UPDATE sync_meta SET pruned_below_seq = ? WHERE id = 1 AND pruned_below_seq < ?
unfoldable pub raise_watermark : Db → ℕ → Db
raise_watermark db cutoff =
    if db.available && ltb db.pruned_below cutoff then record db { pruned_below = cutoff } else db

-- An event that another connection appends.
pub record Appended : Type 0 where
  pub user : ℕ
  pub event_type : Text
  pub payload : Text
  pub at : ℕ

unfoldable pub append_all : List Appended → Db → Db
unfolding append_sync_event
append_all [] db = db
append_all (a ∷ rest) db =
    append_all rest (append_sync_event db a.user a.event_type a.payload a.at).0

-- The three statements of a pruning stand in no transaction: each reads the clock for itself, may
-- fail for itself, and other connections append events between them.
pub record PruneRun : Type 0 where
  pub selects : Bool
  pub selected_at : ℕ
  pub before_delete : List Appended
  pub deletes : Bool
  pub deleted_at : ℕ
  pub before_update : List Appended
  pub updates : Bool

-- The tables after the call with all that others appended meanwhile, also where it returned early.
-- Whether the UPDATE succeeds is not looked at.
unfoldable pub prune_sync_events : Db → ℕ → PruneRun → Db × ℕ
unfolding stale_cutoff delete_stale raise_watermark append_all
prune_sync_events db days t =
    let cutoff = if t.selects then stale_cutoff db days t.selected_at else 0 in
    let met = append_all t.before_delete db in
    let kept = append_all t.before_update met in
    let deleted = delete_stale met days t.deleted_at in
    let left = append_all t.before_update deleted.0 in
    if days == 0
    then (kept, 0)
    else if cutoff == 0
    then (kept, 0)
    else if not t.deletes
    then (kept, 0)
    else elim deleted.1 [
      | none ↦ (kept, 0)
      | some removed ↦ (if t.updates then raise_watermark left cutoff else left, removed)
    ]

unfoldable pub pruned_below_seq : Db → ℕ
pruned_below_seq db = if db.available then db.pruned_below else 0

unfoldable pub max_sync_event_seq : Db → ℕ
unfolding max_seq
max_sync_event_seq db = if db.available then max_seq db.events else 0
