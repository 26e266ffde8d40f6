-- ===== src/Client/Outbox.antt =====
-- NetworkManager.cpp: the outbox in memory, the group messages that flushOutbox sends, the answers to
-- them, and the end of a session. A request that is sent is recorded with its client id. Whether a
-- conversation has a sender key, and whether encryptGroupMessage gives a text for an item, are
-- arguments of flushOutbox's loop. Messages to one user, whose keys are fetched first, are in the
-- child Private.
pub mod Private
pub mod Laws
pub mod Waiting
pub mod Blocked
mod Tests
use xlchat_project.Common.{
  ℕ, zero, suc, Bool, true, false, not, ◌&&◌, ◌||◌, Option, none, some, List, [], ◌∷◌, ◌++◌, ◌==◌,
  if◌then◌else◌, Text, text_eq, is_empty,
}
use xlchat_project.Common.Dict.{Dict, nat_eq, lookup, insert, remove}
use xlchat_project.Handler.{
  ErrorCode, ok, permission_denied, conversation_not_found, invalid_request, session_invalid,
  session_expired,
}
use xlchat_project.Ratchet.{Crypto}
use xlchat_project.Client.{Root}
use xlchat_project.Client.Store.{
  Store, MessageJson, OutboxItem, upsert_message, clear_user_data, clear_user_data,
}
use xlchat_project.Client.Store.Queue.{add_outbox_item, remove_outbox_item}
use xlchat_project.Client.Sync.{holds_item, remove_last}

pub record SendQueue : Type 0 where
  pub authenticated : Bool
  pub e2ee_ready : Bool
  pub user : ℕ
  pub store : Store
  pub items : List OutboxItem
  pub pending : Dict ℕ Text
  pub next_id : ℕ
  pub pending_fetch_group : ℕ
  pub fetch_group_target : ℕ
  pub heal_queue : List ℕ
  pub pending_fetch : ℕ
  pub fetch_target : ℕ
  pub pending_register : ℕ
  pub bootstrap_pending : Bool
  pub expired : Bool
  -- the client ids of key distributions
  pub distributions : List Text
  pub flush_scheduled : Bool
  -- the client ids of the requests sent
  pub sent : List Text

unfoldable pub in_flight : Text → Dict ℕ Text → Bool
in_flight id [] = false
in_flight id ((request, other) ∷ pending) = text_eq other id || in_flight id pending

unfoldable pub send_item : SendQueue → OutboxItem → SendQueue
send_item o i = record o {
  pending = insert o.next_id i.client_id o.pending;
  next_id = suc o.next_id;
  sent = o.sent ++ i.client_id ∷ [];
}

unfoldable pub fetch_group_keys : SendQueue → ℕ → SendQueue
fetch_group_keys o conversation = if not o.authenticated || conversation == 0 then o else record o {
  next_id = suc o.next_id;
  pending_fetch_group = o.next_id;
  fetch_group_target = conversation;
}

module _ (has_key : ℕ → Bool) (encrypted : OutboxItem → Bool) where
  -- The loop of flushOutbox over the group messages; `flying` is what was pending before it.
  unfoldable pub flush_groups : Dict ℕ Text → List OutboxItem → SendQueue → SendQueue
  unfolding in_flight send_item fetch_group_keys
  flush_groups flying [] o = o
  flush_groups flying (i ∷ items) o =
      let next = if encrypted i then send_item o i else o in
      let skipped = flush_groups flying items o in
      let sent = flush_groups flying items next in
      if i.conversation == 0 || in_flight i.client_id flying
      then skipped
      else if has_key i.conversation
      then sent
      else if o.pending_fetch_group == 0
      then fetch_group_keys o i.conversation
      else skipped

  unfoldable pub flush_group_messages : SendQueue → SendQueue
  unfolding flush_groups
  flush_group_messages o =
      if o.authenticated && o.e2ee_ready then flush_groups o.pending o.items o else o

-- The first item with the key.
unfoldable pub find_item : Text → List OutboxItem → Option OutboxItem
find_item id [] = none
find_item id (i ∷ items) =
    let rest = find_item id items in if text_eq i.client_id id then some i else rest

abbrev pub content_of_item : Option OutboxItem → Text
content_of_item none = []
content_of_item (some i) = i.content

unfoldable pub remove_first : Text → List OutboxItem → List OutboxItem
remove_first id [] = []
remove_first id (i ∷ items) =
    let rest = remove_first id items in if text_eq i.client_id id then items else i ∷ rest

unfoldable pub find_last : Text → List OutboxItem → Option OutboxItem
find_last id [] = none
find_last id (i ∷ items) =
    let rest = find_last id items in
    if holds_item id items then rest else if text_eq i.client_id id then some i else none

-- PermissionDenied, ConversationNotFound and InvalidRequest
abbrev pub is_deterministic : ErrorCode → Bool
is_deterministic permission_denied = true
is_deterministic conversation_not_found = true
is_deterministic invalid_request = true
is_deterministic _ = false

abbrev pub is_ok_code : ErrorCode → Bool
is_ok_code ok = true
is_ok_code _ = false

-- The answer to send_message; the acknowledged id is the request's where the server names none.
pub record SendResponse : Type 0 where
  pub code : ErrorCode
  pub acked : Option Text
  pub message : MessageJson
  pub random : Option (List ℕ)
  pub random2 : Option (List ℕ)

abbrev pub acked_id : SendResponse → Text → Text
acked_id r id = elim r.acked [ none ↦ id | some a ↦ a ]

unfoldable pub has_text : Text → List Text → Bool
has_text id [] = false
has_text id (x ∷ xs) = text_eq x id || has_text id xs

unfoldable pub without : Text → List Text → List Text
without id [] = []
without id (x ∷ xs) = let rest = without id xs in if text_eq x id then rest else x ∷ rest

module _ (c : Crypto) (parse : Text → Option Root) where
  -- The branch of an ok answer, for a message that is no distribution.
  unfoldable pub take_ack : SendQueue → Text → SendResponse → SendQueue
  unfolding find_item remove_first
  take_ack o id r =
      let content = content_of_item (find_item id o.items) in
      let removed = (remove_outbox_item o.store id).0 in
      let m = record r.message {
        sender = o.user;
        content = content;
        client_id = id;
        undecryptable = false;
      } in
      record o {
        items = remove_first id o.items;
        store =
            if r.message.id == 0 || (r.message.conversation == 0 || is_empty content)
            then removed
            else (upsert_message c parse removed m r.random r.random2).0;
      }

  -- The branch of an error.
  unfoldable pub take_error : SendQueue → Text → ErrorCode → SendQueue
  unfolding find_last
  take_error o id code =
      let removed = record o {
        items = remove_last id o.items;
        store = (remove_outbox_item o.store id).0;
      } in
      if is_deterministic code
      then elim (find_last id o.items) [
        | none ↦ o
        | some i ↦ if i.conversation == 0 then o else removed
      ]
      else record o { flush_scheduled = true }

  -- The branch of a key distribution, up to the call of flushOutbox.
  unfoldable pub take_distribution_ack : SendQueue → Text → SendQueue
  take_distribution_ack o id =
      let left = record o { distributions = without id o.distributions } in
      if holds_item id o.items
      then record left { items = remove_last id o.items; store = (remove_outbox_item o.store id).0 }
      else left

  -- `flush` is flushOutbox.
  unfoldable pub handle_send_message_response :
      (SendQueue → SendQueue) → SendQueue → ℕ → SendResponse → SendQueue
  unfolding take_ack take_error take_distribution_ack
  handle_send_message_response flush o request r = elim (lookup request o.pending) [
    | none ↦ o
    | some id ↦
        let erased = record o { pending = remove request o.pending } in
        let acked = acked_id r id in
        if is_ok_code r.code
        then (if has_text acked o.distributions
            then flush (take_distribution_ack erased acked)
            else take_ack erased acked r)
        else take_error erased id r.code
  ]

abbrev pub ends_session : ErrorCode → Bool
ends_session session_invalid = true
ends_session session_expired = true
ends_session _ = false

-- notifySessionExpired, with the loss of the connection that it asks for.
unfoldable pub expire : SendQueue → SendQueue
unfolding clear_user_data
expire o = if o.expired then o else record o {
  authenticated = false;
  e2ee_ready = false;
  user = 0;
  pending = [];
  pending_fetch_group = 0;
  fetch_group_target = 0;
  heal_queue = [];
  pending_fetch = 0;
  fetch_target = 0;
  pending_register = 0;
  bootstrap_pending = false;
  expired = true;
  distributions = [];
  store = clear_user_data o.store;
}

-- drainHealQueue, with the set's elements in the order of its iteration.
unfoldable pub drain_heal_queue : SendQueue → List ℕ → SendQueue
unfolding fetch_group_keys
drain_heal_queue o [] = o
drain_heal_queue o (g ∷ queue) =
    if o.authenticated && (o.e2ee_ready && o.pending_fetch_group == 0)
    then fetch_group_keys (record o { heal_queue = queue }) g
    else o

abbrev pub is_pending : ℕ → ℕ → Bool
is_pending request slot = not (request == 0) && request == slot

-- The three slots of key requests that handleErrorResponse frees, one after the other.
unfoldable pub free_group_slot : SendQueue → ℕ → SendQueue
unfolding drain_heal_queue
free_group_slot o request =
    let freed = record o { pending_fetch_group = 0; fetch_group_target = 0 } in
    if is_pending request o.pending_fetch_group then drain_heal_queue freed o.heal_queue else o

unfoldable pub free_fetch_slot : SendQueue → ℕ → SendQueue
free_fetch_slot o request =
    if is_pending request o.pending_fetch
    then record o { pending_fetch = 0; fetch_target = 0 }
    else o

unfoldable pub free_register_slot : SendQueue → ℕ → SendQueue
free_register_slot o request =
    if is_pending request o.pending_register
    then record o { pending_register = 0; bootstrap_pending = false }
    else o

-- An answer of the type Error.
unfoldable pub handle_error_response : SendQueue → ℕ → ErrorCode → SendQueue
unfolding expire free_group_slot free_fetch_slot free_register_slot
handle_error_response o request code =
    if ends_session code
    then expire o
    else free_register_slot (free_fetch_slot (free_group_slot o request) request) request

-- `trimmed` is QString::trimmed.
module _ (c : Crypto) (trimmed : Text → Text) where
  -- sendGroupMessage up to its call of flushOutbox; `id` is the new UUID.
  unfoldable pub queue_group_message : SendQueue → Text → ℕ → Text → Option (List ℕ) → SendQueue
  queue_group_message o id conversation content random =
      if conversation == 0 || is_empty (trimmed content) then o else record o {
        store = (add_outbox_item c o.store id 0 content conversation random).0;
        items =
            o.items
            ++ record {
              client_id = id;
              to_user = 0;
              conversation = conversation;
              content = content;
            }
              ∷ [];
      }
