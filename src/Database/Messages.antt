-- ===== src/Database/Messages.antt =====
-- DatabaseManager.cpp: private conversations, messages with their idempotency keys, and receipts.
-- Messages are in the order of their ids. `UPDATE conversations SET updated_at` sets a column that
-- none of these operations reads.
pub mod Keys
mod Tests
use xlchat_project.Common.{
  ℕ, zero, suc, ℤ, pos, negsuc, ◌+◌, Bool, true, false, not, ◌&&◌, ◌||◌, Option, none, some, List,
  [], ◌∷◌, ◌++◌, ◌==◌, ltb, if◌then◌else◌, Text, text_eq, is_empty, take, find_row, has_row, select,
  count_rows, update_rows, set_insert, length,
}
use xlchat_project.Database.{
  Db, Conversation, ConversationType, direct, plain_member, Member, Message, MessageStatus, sent,
  Receipt,
}
use xlchat_project.Database.Groups.{is_in, is_member_row, insert_member}

unfoldable pub is_direct : ConversationType → Bool
is_direct direct = true
is_direct ConversationType.group = false

-- The row of a private conversation that both users are members of.
abbrev pub is_between : Db → ℕ → ℕ → Conversation → Bool
is_between db user other c =
    is_direct c.type
    && (has_row (is_member_row c.id user) db.members
        && has_row (is_member_row c.id other) db.members)

-- INSERT INTO conversations (type) VALUES ('private'), and the two members, whose insertions may fail.
unfoldable pub create_private : Db → ℕ → ℕ → ℕ → Db
create_private db user other now =
    let made : Db = record db {
      conversations =
          db.conversations ++ record { id = db.next_conversation; type = direct; name = [] } ∷ [];
      next_conversation = suc db.next_conversation;
    } in
    let first = insert_member made db.next_conversation user plain_member now in
    (insert_member first.0 db.next_conversation other plain_member now).0

unfoldable pub get_or_create_private_conversation : Db → ℕ → ℕ → ℕ → Db × Option ℕ
unfolding create_private is_direct
get_or_create_private_conversation db user other now =
    if user == other
    then (db, none)
    else if not db.available
    then (db, none)
    else elim (find_row (is_between db user other) db.conversations) [
      | some c ↦ (db, some c.id)
      | none ↦ (create_private db user other now, some db.next_conversation)
    ]

unfoldable pub get_conversation : Db → ℕ → Option Conversation
get_conversation db id = if db.available then find_row (λ c. c.id == id) db.conversations else none

-- WHERE sender_id = ? AND sender_device_id = ? AND client_message_id = ?; NULL equals nothing.
abbrev pub has_key : ℕ → Text → Text → Message → Bool
has_key sender device key m =
    m.sender == sender
    && ((not (is_empty m.device) && text_eq m.device device)
        && (not (is_empty m.client_id) && text_eq m.client_id key))

unfoldable pub get_message_by_client_key : Db → ℕ → Text → Text → Option Message
get_message_by_client_key db sender device key =
    if is_empty key
    then none
    else if db.available
    then find_row (has_key sender device key) db.messages
    else none

-- What a call of `send_message` passes.
pub record Draft : Type 0 where
  pub conversation : ℕ
  pub sender : ℕ
  pub content : Text
  pub content_type : Text
  pub client_id : Text
  pub device : Text

abbrev pub new_message : ℕ → Draft → ℕ → Message
new_message id d now = record {
  id = id;
  conversation = d.conversation;
  sender = d.sender;
  content = d.content;
  content_type = d.content_type;
  status = sent;
  at = now;
  client_id = d.client_id;
  device = d.device;
  edited_at = none;
  deleted = false;
}

-- The INSERT, with the foreign keys and the unique index idx_messages_client_key.
unfoldable pub insert_message : Db → Draft → ℕ → Db × Option ℕ
insert_message db d now =
    if not db.available
    then (db, none)
    else if not (has_row (λ c. c.id == d.conversation) db.conversations)
    then (db, none)
    else if not (has_row (λ u. u.id == d.sender) db.users)
    then (db, none)
    else if not (is_empty d.client_id)
        && has_row (has_key d.sender d.device d.client_id) db.messages
    then (db, none)
    else (
      record db {
        messages = db.messages ++ new_message db.next_message d now ∷ [];
        next_message = suc db.next_message;
      },
      some db.next_message,
    )

-- After a failed INSERT the key is looked up again.
unfoldable pub send_message : Db → Draft → ℕ → Db × Option ℕ
unfolding get_message_by_client_key
send_message db d now =
    let inserted = insert_message db d now in
    elim (get_message_by_client_key db d.sender d.device d.client_id) [
      | some m ↦ (db, some m.id)
      | none ↦ inserted
    ]

-- JOIN users ON sender_id
unfoldable pub get_message : Db → ℕ → Option Message
get_message db id =
    if db.available
    then find_row (λ m. m.id == id && has_row (λ u. u.id == m.sender) db.users) db.messages
    else none

-- LIMIT: a negative one is none.
unfoldable pub limited : ℤ → List Message → List Message
limited (pos n) ms = take n ms
limited (negsuc n) ms = ms

-- Ids are positive, so an `after` that is negative selects like 0.
unfoldable pub sync_messages : Db → ℕ → ℕ → ℤ → List Message
unfolding limited
sync_messages db conversation after limit =
    if db.available
    then limited limit (
        select
          (λ m.
            (m.conversation == conversation && ltb after m.id)
            && has_row (λ u. u.id == m.sender) db.users)
          db.messages)
    else []

unfoldable pub update_message_status : Db → ℕ → MessageStatus → Db
update_message_status db id status =
    if db.available
    then record db {
      messages = update_rows (λ m. m.id == id) (λ m. record m { status = status }) db.messages;
    }
    else db

abbrev pub is_editable : ℕ → Message → Bool
is_editable id m = m.id == id && not m.deleted

unfoldable pub edit_message : Db → ℕ → Text → Text → ℕ → Db × Bool
edit_message db id content content_type now =
    if id == 0 || is_empty content || is_empty content_type
    then (db, false)
    else if not db.available
    then (db, false)
    else (
      record db {
        messages =
            update_rows (is_editable id)
              (λ m. record m {
                content = content;
                content_type = content_type;
                edited_at = some now;
              })
              db.messages;
      },
      has_row (is_editable id) db.messages,
    )

-- A tombstone stays: the row is marked and its content emptied.
unfoldable pub delete_message : Db → ℕ → Db × Bool
delete_message db id = if id == 0 then (db, false) else if not db.available then (db, false) else (
  record db {
    messages =
        update_rows (λ m. m.id == id) (λ m. record m { deleted = true; content = [] }) db.messages;
  },
  true,
)

unfoldable pub is_unread : MessageStatus → Bool
is_unread MessageStatus.read = false
is_unread sent = true
is_unread MessageStatus.delivered = true

unfoldable pub get_unread_count : Db → ℕ → ℕ → ℕ
unfolding is_unread
get_unread_count db conversation user =
    if db.available
    then count_rows
        (λ m. m.conversation == conversation && not (m.sender == user) && is_unread m.status)
        db.messages
    else 0
