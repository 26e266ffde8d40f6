-- ===== src/Handler/Sync.antt =====
-- RequestHandler.cpp: processSyncEventsRequest.
pub mod Laws
pub mod Pruning
mod Tests
use xlchat_project.Common.{
  ℕ, ℤ, pos, negsuc, Bool, ◌||◌, ◌&&◌, List, [], length, ltb, leb, ◌==◌, if◌then◌else◌,
}
use xlchat_project.Database.{Db, Event}
use xlchat_project.Database.Events.{get_sync_events, pruned_below_seq, max_sync_event_seq}
use xlchat_project.Database.Events.Paging.{last_seq}
use xlchat_project.Handler.{
  ErrorCode, ok, invalid_request, sync_events, response_to, no_data, sync_page, full_sync, Reply,
  respond, World, emit,
}

-- An absent afterSeq is 0, an absent limit 200.
pub record SyncRequest : Type 0 where
  pub after_seq : ℤ
  pub limit : ℤ

-- if (limit <= 0 || limit > 1000) limit = 200;
unfoldable pub page_limit : ℤ → ℕ
page_limit (pos n) = if n == 0 || ltb 1000 n then 200 else n
page_limit (negsuc n) = 200

unfoldable pub max : ℕ → ℕ → ℕ
max a b = if ltb a b then b else a

-- The answer for a cursor that is not negative.
unfoldable pub sync_from : Db → ℕ → ℕ → ℕ → Reply
unfolding max
sync_from db user after limit =
    let pruned_below = pruned_below_seq db in
    let events = get_sync_events db user after limit in
    if ltb 0 after && ltb after pruned_below
    then full_sync after (max (max_sync_event_seq db) pruned_below)
    else sync_page events (last_seq after events) (leb limit (length events))

unfoldable pub sync_answer : Db → ℕ → ℤ → ℤ → ErrorCode × Reply
unfolding page_limit sync_from
sync_answer db user (negsuc n) limit = (invalid_request, no_data)
sync_answer db user (pos after) limit = (ok, sync_from db user after (page_limit limit))

unfoldable pub process_sync_events : World → ℕ → SyncRequest → World
unfolding sync_answer
process_sync_events w id r =
    let answer = sync_answer w.db w.conn.user r.after_seq r.limit in
    emit (respond id (response_to sync_events) answer.0 answer.1) w
