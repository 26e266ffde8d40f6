-- ===== src/Handler/Sync/Laws.antt =====
-- What a client learns that reads the event stream page by page.
use xlchat_project.Common.{
  ℕ, zero, suc, ◌≤◌, ◌<◌, ◌≡◌, ◌⊎◌, ℤ, pos, Bool, true, List, [], ◌∷◌, ◌++◌, length, take, leb,
  arith, select,
}
use xlchat_project.Database.{Db, Event}
use xlchat_project.Database.Events.{is_due, get_sync_events}
use xlchat_project.Database.Events.Pruning.{IsOrdered}
use xlchat_project.Database.Events.Paging.{last_seq, page-rest, short_page}
use xlchat_project.Handler.{ok, sync_page, full_sync}
use xlchat_project.Handler.Sync.{page_limit, max, sync_from, sync_answer}

length-take_le : (n : ℕ) (es : List Event) → length (take n es) ≤ n
length-take_le zero es = omega arith
length-take_le (suc n) [] = omega arith
length-take_le (suc n) (e ∷ es) = omega (arith, length-take_le n es)

-- Over a database that answers, whose events ascend by their numbers: a page, and what is due behind
-- its last event, are together what was due behind the cursor; the page is at most as long as the
-- limit; and a page without hasMore leaves nothing behind it.
pub sync_answer_page :
    (db : Db) (user after : ℕ) (limit : ℤ) (events : List Event) (last : ℕ) (has_more : Bool)
    → IsOrdered db
    → db.available ≡ true
    → sync_answer db user (pos after) limit ≡ (ok, sync_page events last has_more)
    → (events ++ select (is_due user last) db.events ≡ select (is_due user after) db.events)
      × (length events ≤ page_limit limit)
      × ((has_more ≡ true) ⊎ (select (is_due user last) db.events ≡ []))
unfolding sync_answer sync_from get_sync_events
sync_answer_page db user after limit events last more o on e = ground (
  arith,
  page-rest user after 0 db.next_seq (page_limit limit) db.events o.ascending,
  short_page user after 0 db.next_seq (page_limit limit) db.events o.ascending,
  length-take_le (page_limit limit) (select (is_due user after) db.events),
)

-- A client that made the full sync it was told to make, and took fullSyncSeq for its cursor, is
-- answered with a page.
pub sync_answer_heals :
    (db : Db) (user after : ℕ) (limit later : ℤ) (seen full : ℕ)
    → sync_answer db user (pos after) limit ≡ (ok, full_sync seen full)
    → let events = get_sync_events db user full (page_limit later) in
      (after < full)
      × (sync_answer db user (pos full) later
          ≡ (ok, sync_page events (last_seq full events) (leb (page_limit later) (length events))))
unfolding sync_answer sync_from max
sync_answer_heals db user after limit later seen full e = ground arith
