-- ===== src/Client/Sync/Exchange.antt =====
-- One exchange of a client with the server over the event stream.
use xlchat_project.Common.{
  ℕ, pos, zero, suc, ◌≤◌, ◌≡◌, refl, sym, ◌∙◌, ap, subst, inl, inr, Option-cases, codes, Bool, true,
  false, Option, none, some, List, [], ◌∷◌, ◌++◌, map, length, take, ◌==◌, leb, arith,
  if◌then◌else◌, Text, select,
}
use xlchat_project.Database.{Db, Event}
use xlchat_project.Database.Events.{is_due, get_sync_events, pruned_below_seq}
use xlchat_project.Database.Events.Pruning.{IsOrdered}
use xlchat_project.Database.Events.Paging.{last_seq, last_seq-ge}
use xlchat_project.Handler.{Reply, sync_page, full_sync}
use xlchat_project.Handler.Sync.{page_limit, sync_from, sync_answer}
use xlchat_project.Ratchet.{Crypto}
use xlchat_project.Client.{Root}
use xlchat_project.Client.Store.{
  update_message_content, store_message_status, mark_message_edited, mark_message_deleted,
  mark_messages_read,
}
use xlchat_project.Client.Store.Queue.{sync_cursor, set_sync_cursor, remove_outbox_item}
use xlchat_project.Client.Store.Content.{upsert_message_available}
use xlchat_project.Client.Sync.{
  ClientEvent, message, receipt, read_cursor, message_edited, message_deleted, other, SyncResponse,
  LocalData, Client, sync_events_request, ingest_message, ingest_edit, ingest_event, ingest_events,
  advance_cursor, ingest_sync_events, handle_sync_events_response,
}

-- The response packet, whose events the client reads one by one.
unfoldable pub response_of : (Event → ClientEvent) → Reply → SyncResponse
response_of read (sync_page events last more) = record {
  is_ok = true;
  needs_full_sync = false;
  full_sync_seq = 0;
  events = map read events;
  last_seq = last;
  has_more = more;
}
response_of read (full_sync seen full) = record {
  is_ok = true;
  needs_full_sync = true;
  full_sync_seq = full;
  events = [];
  last_seq = 0;
  has_more = false;
}
response_of read _ = record {
  is_ok = false;
  needs_full_sync = false;
  full_sync_seq = 0;
  events = [];
  last_seq = 0;
  has_more = false;
}

module _ (c : Crypto) (parse : Text → Option Root) (read : Event → ClientEvent) where
  -- The server answers the request that is under way, and the client handles the answer.
  unfoldable pub exchange : Db → Client → Client
  unfolding response_of
  exchange db k = elim k.wire [
    | none ↦ k
    | some q ↦
        handle_sync_events_response c parse (record k { wire = none }) q.id
          (response_of read (sync_answer db k.user (pos q.after_seq) (pos q.limit)).1)
  ]

  unfoldable pub exchanges : ℕ → Db → Client → Client
  unfolding exchange
  exchanges zero db k = k
  exchanges (suc n) db k = exchanges n db (exchange db k)

  pub exchanges_done : (n : ℕ) (db : Db) (k : Client) → k.wire ≡ none → exchanges n db k ≡ k
  unfolding exchanges exchange
  exchanges_done zero db k h = refl
  exchanges_done (suc n) db k h =
      let e : exchange db k ≡ k = ground (arith, h) in
      subst (λ (x : Client). exchanges n db x ≡ k) (sym e) (exchanges_done n db k h)

  pub ingest-append :
      (user : ℕ) (device : Text) (k : LocalData) (xs ys : List ClientEvent)
      → ingest_events c parse user device k (xs ++ ys)
        ≡ ingest_events c parse user device (ingest_events c parse user device k xs) ys
  unfolding ingest_events
  ingest-append user device k [] ys = refl
  ingest-append user device k (x ∷ xs) ys =
      ingest-append user device (ingest_event c parse user device k x) xs ys

  pub map-append : (xs ys : List Event) → map read (xs ++ ys) ≡ map read xs ++ map read ys
  map-append [] ys = refl
  map-append (x ∷ xs) ys = ap (◌∷◌ (read x)) (map-append xs ys)

  event_available :
      (user : ℕ) (device : Text) (k : LocalData) (e : ClientEvent)
      → (ingest_event c parse user device k e).store.available ≡ k.store.available
  unfolding ingest_event ingest_message ingest_edit remove_outbox_item update_message_content
      store_message_status mark_message_edited mark_message_deleted mark_messages_read
  event_available user device k (message m d r r') =
      let status = if m.sender == user then codes "sent" else codes "delivered" in
      let named = record m { status = some status } in
      let removed = (remove_outbox_item k.store m.client_id).0 in
      ground (
        arith,
        upsert_message_available c parse k.store named r r',
        upsert_message_available c parse removed named r r',
      )
  event_available user device k (receipt id status) = ground arith
  event_available user device k (read_cursor v upto) = ground arith
  event_available user device k (message_edited e) = elim (Option-cases e.text) [
    | inl h ↦ ground (arith, h)
    | inr (t, h) ↦ ground (arith, h)
  ]
  event_available user device k (message_deleted e) = ground arith
  event_available user device k other = refl

  pub ingest_available :
      (user : ℕ) (device : Text) (k : LocalData) (es : List ClientEvent)
      → (ingest_events c parse user device k es).store.available ≡ k.store.available
  unfolding ingest_events
  ingest_available user device k [] = refl
  ingest_available user device k (e ∷ es) =
      ingest_available user device (ingest_event c parse user device k e) es
      ∙ event_available user device k e

  -- The state once a page is ingested.
  abbrev pub paged : Client → List Event → ℕ → Client
  paged k page last = record k {
    next_id = suc k.next_id;
    pending_sync = 0;
    wire = none;
    kept = ingest_events c parse k.user k.device k.kept (map read page);
    cursor = last;
  }

  sync_answer_due :
      (db : Db) (user after : ℕ)
      → db.available ≡ true
      → pruned_below_seq db ≤ after
      → let page = take 200 (select (is_due user after) db.events) in
        (sync_answer db user (pos after) (pos 200)).1
        ≡ sync_page page (last_seq after page) (leb 200 (length page))
  unfolding sync_answer sync_from get_sync_events page_limit
  sync_answer_due db user after a p = ground (arith, a)

  advance_cursor_to :
      (k : Client) (seq : ℕ)
      → k.kept.store.available ≡ true
      → k.cursor ≤ seq
      → advance_cursor k seq ≡ record k { cursor = seq }
  unfolding advance_cursor sync_cursor set_sync_cursor
  advance_cursor_to k seq a l = ground (arith, a)

  ingest_page :
      (k : Client) (page : List Event) (last : ℕ) (more : Bool)
      → k.kept.store.available ≡ true
      → k.cursor ≤ last
      → let ingested = ingest_events c parse k.user k.device k.kept (map read page) in
        let next = record k { kept = ingested; cursor = last } in
        ingest_sync_events c parse k (map read page) last more
        ≡ (if more then sync_events_request next last else next)
  unfolding ingest_sync_events
  ingest_page k page last more a l =
      let ingested = record k {
        kept = ingest_events c parse k.user k.device k.kept (map read page);
      } in
      let moved =
        advance_cursor_to ingested last
          (ingest_available k.user k.device k.kept (map read page) ∙ a) l in
      ground (arith, a, moved)

  handle_page :
      (k : Client) (page : List Event) (last : ℕ) (more : Bool)
      → handle_sync_events_response c parse k k.pending_sync
          (response_of read (sync_page page last more))
        ≡ ingest_sync_events c parse (record k { pending_sync = 0 }) (map read page) last more
  unfolding handle_sync_events_response response_of
  handle_page k page last more = ground arith

  pub exchange_page :
      (db : Db) (k : Client)
      → IsOrdered db
      → db.available ≡ true
      → k.authenticated ≡ true
      → k.kept.store.available ≡ true
      → pruned_below_seq db ≤ k.cursor
      → let page = take 200 (select (is_due k.user k.cursor) db.events) in
        let next = paged k page (last_seq k.cursor page) in
        exchange db (sync_events_request k k.cursor) ≡ (
          if leb 200 (length page) then sync_events_request next (last_seq k.cursor page) else next)
  unfolding exchange sync_events_request
  exchange_page db k o a u v p =
      let page = take 200 (select (is_due k.user k.cursor) db.events) in
      let last = last_seq k.cursor page in
      let more = leb 200 (length page) in
      let asked = record k { next_id = suc k.next_id; pending_sync = k.next_id; wire = none } in
      let answer = sync_answer_due db k.user k.cursor a p in
      let handled = handle_page asked page last more in
      let ingested =
        ingest_page (record asked { pending_sync = 0 }) page last more v
          (last_seq-ge k.user k.cursor 0 db.next_seq 200 db.events o.ascending) in
      let answered : exchange db (sync_events_request k k.cursor)
          ≡ handle_sync_events_response c parse asked k.next_id
              (response_of read (sync_answer db k.user (pos k.cursor) (pos 200)).1) =
        ground (arith, u) in
      answered
      ∙ ap (λ r. handle_sync_events_response c parse asked k.next_id (response_of read r)) answer
      ∙ handled
      ∙ ingested
