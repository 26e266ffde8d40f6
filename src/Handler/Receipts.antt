-- ===== src/Handler/Receipts.antt =====
-- RequestHandler.cpp: acknowledging messages and reading a conversation's messages.
pub mod Status
pub mod Own
mod Tests
use xlchat_project.Common.{
  ℕ, ℤ, pos, negsuc, Bool, true, false, not, ◌&&◌, ◌||◌, Option, none, some, List, [], ◌∷◌, ◌==◌,
  ltb, leb, length, if◌then◌else◌, Text, codes, text_eq,
}
use xlchat_project.Database.{Db, Message, MessageStatus, sent, delivered, read}
use xlchat_project.Database.Groups.{is_conversation_member}
use xlchat_project.Database.Messages.{get_message, update_message_status}
use xlchat_project.Database.Receipts.{
  record_message_receipt, receipt_user_count, member_count_excluding, update_member_read_cursor,
}
use xlchat_project.Handler.{
  ok, invalid_request, message_not_found, permission_denied, ack_message, sync_messages,
  response_to, message_acked, message_page, message_for_user, respond, World, emit, reply,
}
use xlchat_project.Handler.Login.{Call}
use xlchat_project.Handler.Notes.{
  Note, read_event, status_notice, receipt_event, append_event, notification,
}

-- MessageType::MessageStatusUpdate and ReadCursorNotification
abbrev pub message_status_type : ℕ
message_status_type = 39

abbrev pub read_cursor_type : ℕ
read_cursor_type = 80

-- An absent status is "delivered".
pub record AckRequest : Type 0 where
  pub message : ℕ
  pub status : Text

unfoldable pub same_status : MessageStatus → MessageStatus → Bool
same_status sent sent = true
same_status sent delivered = false
same_status sent read = false
same_status delivered sent = false
same_status delivered delivered = true
same_status delivered read = false
same_status read sent = false
same_status read delivered = false
same_status read read = true

-- What the counts of users amount to; `none` leaves the status as it is.
unfoldable pub aggregate : ℕ → ℕ → ℕ → Option MessageStatus
aggregate expected reads deliveries =
    if ltb 0 expected && leb expected reads
    then some read
    else if ltb 0 expected && leb expected deliveries
    then some delivered
    else none

module _ (json : Note → Text) where
  -- The reader's own event stream and devices.
  unfoldable pub move_cursor : Message → Call → World → World
  move_cursor m c w =
      let user = w.conn.user in
      let payload = json (read_event m.conversation m.id) in
      emit (message_for_user user (notification read_cursor_type payload)) (
        append_event user (codes "read_cursor") payload c.now
          (record w { db = update_member_read_cursor w.db m.conversation user m.id }))

  unfoldable pub publish_status : Message → MessageStatus → ℕ → ℕ → Call → World → World
  publish_status m status reads deliveries c w =
      append_event m.sender (codes "receipt")
        (json (receipt_event m.id m.conversation status w.conn.user deliveries reads)) c.now
        (emit
          (message_for_user m.sender (
            notification message_status_type
              (json (status_notice m.id m.conversation status deliveries reads))))
          (record w { db = update_message_status w.db m.id status }))

  -- From the count of the recipients on.
  unfoldable pub settle : Message → Call → World → World
  unfolding aggregate publish_status same_status
  settle m c w =
      let expected = member_count_excluding w.db m.conversation m.sender in
      let reads = receipt_user_count w.db m.id true in
      let deliveries = receipt_user_count w.db m.id false in
      elim (aggregate expected reads deliveries) [
        | none ↦ w
        | some s ↦ if same_status s m.status then w else publish_status m s reads deliveries c w
      ]

  unfoldable pub acknowledge : Message → Bool → Call → World → World
  unfolding move_cursor settle
  acknowledge m is_read c w =
      let noted : World = record w {
        db = (record_message_receipt w.db m.id w.conn.user w.conn.device is_read c.now).0;
      } in
      emit (respond c.request_id (response_to ack_message) ok (message_acked m.id is_read))
        (settle m c (if is_read then move_cursor m c noted else noted))

  unfoldable pub process_ack_message : World → Call → AckRequest → World
  unfolding acknowledge
  process_ack_message w c r =
      let is_read = text_eq r.status (codes "read") in
      if r.message == 0
      then reply c.request_id ack_message invalid_request w
      else if not (text_eq r.status (codes "delivered")) && not is_read
      then reply c.request_id ack_message invalid_request w
      else elim (get_message w.db r.message) [
        | none ↦ reply c.request_id ack_message message_not_found w
        | some m ↦
            if is_conversation_member w.db m.conversation w.conn.user
            then acknowledge m is_read c w
            else reply c.request_id ack_message permission_denied w
      ]

-- An absent afterId is 0, as is a negative one; an absent limit is 100.
pub record PageRequest : Type 0 where
  pub conversation : ℕ
  pub after : ℕ
  pub limit : ℤ

-- messages.size() >= limit
unfoldable pub is_full : ℤ → ℕ → Bool
is_full (pos n) count = leb n count
is_full (negsuc n) count = true

-- The last message's id; `none` for no message.
unfoldable pub last_id : List Message → Option ℕ
last_id [] = none
last_id (m ∷ []) = some m.id
last_id (m ∷ n ∷ ms) = last_id (n ∷ ms)

unfoldable pub read_up_to : Option ℕ → ℕ → World → World
read_up_to none conversation w = w
read_up_to (some id) conversation w = record w {
  db = update_member_read_cursor w.db conversation w.conn.user id;
}

unfoldable pub process_sync_messages : World → Call → PageRequest → World
unfolding is_full last_id read_up_to
process_sync_messages w c r =
    let page = xlchat_project.Database.Messages.sync_messages w.db r.conversation r.after r.limit in
    if r.conversation == 0
    then reply c.request_id sync_messages invalid_request w
    else if not (is_conversation_member w.db r.conversation w.conn.user)
    then reply c.request_id sync_messages permission_denied w
    else emit
        (respond c.request_id (response_to sync_messages) ok
          (message_page r.conversation page (is_full r.limit (length page))))
        (read_up_to (last_id page) r.conversation w)
