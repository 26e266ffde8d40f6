-- ===== src/Client/Sync.antt =====
-- NetworkManager.cpp: syncEvents, handleSyncEventsResponse and ingestSyncEvents. An event comes as the
-- code reads its payload, after decryptMessageObject or decryptEditContent, with the random vectors
-- of its encryptions; an event of another type, of a group or of preferences, is `other`. Signals to
-- the interface, the conversations table, and the installing and healing of sender keys are not
-- modelled here.
pub mod Exchange
pub mod CatchUp
mod Tests
use xlchat_project.Common.{
  ℕ, ℤ, pos, zero, suc, Bool, true, false, not, ◌&&◌, ◌||◌, Option, none, some, List, [], ◌∷◌, ◌==◌,
  ltb, if◌then◌else◌, Text, codes, text_eq, is_empty,
}
use xlchat_project.Ratchet.{Bytes, Crypto}
use xlchat_project.Client.{Root}
use xlchat_project.Client.Store.{
  Store, MessageJson, OutboxItem, load_message_content, upsert_message, update_message_content,
  store_message_status, mark_message_edited, mark_message_deleted, mark_messages_read,
}
use xlchat_project.Client.Store.Queue.{Local, sync_cursor, set_sync_cursor, remove_outbox_item}

-- An edit or a deletion; `text` is what the new content decrypts to.
pub record ChangeJson : Type 0 where
  pub sender : ℕ
  pub origin_device : Text
  pub id : ℕ
  pub edited_at : Text
  pub text : Option Text
  pub random : Option Bytes

pub data ClientEvent : Type 0 where
  message : (m : MessageJson) (is_distribution : Bool) (random random2 : Option Bytes) → ClientEvent
  receipt : (id : ℕ) (status : Text) → ClientEvent
  read_cursor : (conversation upto : ℕ) → ClientEvent
  message_edited message_deleted : ChangeJson → ClientEvent
  other : ClientEvent

pub record SyncResponse : Type 0 where
  pub is_ok : Bool
  pub needs_full_sync : Bool
  pub full_sync_seq : ℕ
  pub events : List ClientEvent
  pub last_seq : ℕ
  pub has_more : Bool

-- A request that the server has not answered.
pub record SyncSent : Type 0 where
  pub id : ℕ
  pub after_seq : ℕ
  pub limit : ℕ

-- What events change: the local database and the outbox in memory.
pub record LocalData : Type 0 where
  pub store : Store
  pub outbox : List OutboxItem

-- `asked` counts the requests for the list of conversations.
pub record Client : Type 0 where
  pub authenticated : Bool
  pub user : ℕ
  pub device : Text
  pub kept : LocalData
  pub cursor : ℕ
  pub next_id : ℕ
  pub pending_sync : ℕ
  pub wire : Option SyncSent
  pub asked : ℕ

abbrev pub local_of : Client → Local
local_of k = record { store = k.kept.store; cursor = k.cursor }

-- The default of the limit is 200.
unfoldable pub sync_events_request : Client → ℕ → Client
sync_events_request k after =
    if k.authenticated
    then record k {
      next_id = suc k.next_id;
      pending_sync = k.next_id;
      wire = some (record { id = k.next_id; after_seq = after; limit = 200 });
    }
    else k

abbrev pub holds_item : Text → List OutboxItem → Bool
holds_item id [] = false
holds_item id (i ∷ items) = text_eq i.client_id id || holds_item id items

-- The last item with the key goes.
unfoldable pub remove_last : Text → List OutboxItem → List OutboxItem
remove_last id [] = []
remove_last id (i ∷ items) =
    let rest = remove_last id items in
    if holds_item id items then i ∷ rest else if text_eq i.client_id id then items else i ∷ rest

-- The change was made on this very device.
abbrev pub is_own : ℕ → Text → ChangeJson → Bool
is_own user device e =
    e.sender == user && (not (is_empty e.origin_device) && text_eq e.origin_device device)

module _ (c : Crypto) (parse : Text → Option Root) (user : ℕ) (device : Text) where
  unfoldable pub ingest_message : LocalData → MessageJson → Option Bytes → Option Bytes → LocalData
  unfolding remove_last
  ingest_message k m random random2 =
      let from_self = m.sender == user in
      let status = if from_self then codes "sent" else codes "delivered" in
      let delivered = from_self && not (is_empty m.client_id) in
      let store = if delivered then (remove_outbox_item k.store m.client_id).0 else k.store in
      record {
        store = (upsert_message c parse store (record m { status = some status }) random random2).0;
        outbox = if delivered then remove_last m.client_id k.outbox else k.outbox;
      }

  unfoldable pub ingest_edit : Store → ChangeJson → Store
  ingest_edit s e = if is_own user device e then s else elim e.text [
    | some text ↦ (update_message_content c s e.id text e.edited_at e.random).0
    | none ↦
        if is_empty (load_message_content c s e.id)
        then s
        else (mark_message_edited s e.id e.edited_at).0
  ]

  unfoldable pub ingest_event : LocalData → ClientEvent → LocalData
  unfolding ingest_message ingest_edit
  ingest_event k (message m is_distribution random random2) =
      if is_distribution then k else ingest_message k m random random2
  ingest_event k (receipt id status) = record k {
    store = (store_message_status k.store id status).0;
  }
  ingest_event k (read_cursor conversation upto) = record k {
    store = (mark_messages_read k.store conversation upto user).0;
  }
  ingest_event k (message_edited e) = record k { store = ingest_edit k.store e }
  ingest_event k (message_deleted e) =
      if is_own user device e then k else record k { store = (mark_message_deleted k.store e.id).0 }
  ingest_event k other = k

  unfoldable pub ingest_events : LocalData → List ClientEvent → LocalData
  unfolding ingest_event
  ingest_events k [] = k
  ingest_events k (e ∷ es) = ingest_events (ingest_event k e) es

-- `if (seq > syncCursor()) setSyncCursor(seq)`
unfoldable pub advance_cursor : Client → ℕ → Client
advance_cursor k seq =
    if ltb (sync_cursor (local_of k)) seq
    then record k { cursor = (set_sync_cursor (local_of k) seq).0.cursor }
    else k

module _ (c : Crypto) (parse : Text → Option Root) where
  unfoldable pub ingest_sync_events : Client → List ClientEvent → ℕ → Bool → Client
  unfolding ingest_events advance_cursor sync_events_request
  ingest_sync_events k events last has_more =
      let ingested = record k { kept = ingest_events c parse k.user k.device k.kept events } in
      let moved = advance_cursor ingested last in
      if not k.kept.store.available
      then k
      else if has_more
      then sync_events_request moved last
      else moved

  unfoldable pub handle_sync_events_response : Client → ℕ → SyncResponse → Client
  unfolding ingest_sync_events
  handle_sync_events_response k id r =
      let taken = record k { pending_sync = 0 } in
      if not (id == k.pending_sync)
      then k
      else if not r.is_ok
      then taken
      else if r.needs_full_sync
      then record (advance_cursor taken r.full_sync_seq) { asked = suc k.asked }
      else ingest_sync_events taken r.events r.last_seq r.has_more
