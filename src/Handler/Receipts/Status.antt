-- ===== src/Handler/Receipts/Status.antt =====
-- What the status of a message says of its receipts.
use xlchat_project.Common.{
  ℕ, ◌≤◌, ◌<◌, ◌≡◌, ◌⊎◌, inl, inr, refl, sym, ap, ◌∙◌, subst, Bool, true, false, ◌&&◌, Option, none,
  some, List, [], ◌∷◌, ◌==◌, if◌then◌else◌, Text, codes, text_eq, Option-cases, find_row,
  find_row_meets, has_row, update_rows, arith,
}
use xlchat_project.Database.{Db, Message, MessageStatus, delivered, read}
use xlchat_project.Database.Events.{append_sync_event}
use xlchat_project.Database.Messages.{get_message, update_message_status}
use xlchat_project.Database.Receipts.{
  record_message_receipt, receipt_user_count, member_count_excluding, update_member_read_cursor,
}
use xlchat_project.Handler.{World}
use xlchat_project.Handler.Login.{Call}
use xlchat_project.Handler.Notes.{Note}
use xlchat_project.Handler.Receipts.{
  AckRequest, aggregate, move_cursor, publish_status, settle, acknowledge, process_ack_message,
}

abbrev pub with_status : MessageStatus → Option Message → Option Message
with_status s none = none
with_status s (some m) = some (record m { status = s })

find_updated :
    (k : ℕ) (s : MessageStatus) (p : ℕ → Bool) (ms : List Message)
    → find_row
        (λ m. m.id == k && p m.sender)
        (update_rows (λ m. m.id == k) (λ m. record m { status = s }) ms)
      ≡ with_status s (find_row (λ m. m.id == k && p m.sender) ms)
unfolding find_row update_rows
find_updated k s p [] = refl
find_updated k s p (m ∷ ms) = ground (arith, find_updated k s p ms)

pub get_message-update :
    (db : Db) (id : ℕ) (s : MessageStatus)
    → get_message (update_message_status db id s) id ≡ with_status s (get_message db id)
unfolding get_message update_message_status
get_message-update db id s =
    ground (arith, find_updated id s (λ user. has_row (λ u. u.id == user) db.users) db.messages)

-- The counts stand for what the status says.
abbrev pub Justified : Db → Message → MessageStatus → Type 0
Justified db m s =
    let expected = member_count_excluding db m.conversation m.sender in
    ((s ≡ read) × (0 < expected) × (expected ≤ receipt_user_count db m.id true))
    ⊎ ((s ≡ delivered) × (0 < expected) × (expected ≤ receipt_user_count db m.id false))

aggregate_cases :
    (expected reads deliveries : ℕ) (s : MessageStatus)
    → aggregate expected reads deliveries ≡ some s
    → ((s ≡ read) × (0 < expected) × (expected ≤ reads))
      ⊎ ((s ≡ delivered) × (0 < expected) × (expected ≤ deliveries))
unfolding aggregate
aggregate_cases expected reads deliveries s e = ground (arith, e)

module _ (json : Note → Text) (c : Call) where
  pub publish_status_same :
      (m : Message) (s : MessageStatus) (reads deliveries : ℕ) (w : World)
      → let done = publish_status json m s reads deliveries c w in
        (get_message done.db m.id ≡ with_status s (get_message w.db m.id))
        × (member_count_excluding done.db m.conversation m.sender
            ≡ member_count_excluding w.db m.conversation m.sender)
        × (receipt_user_count done.db m.id true ≡ receipt_user_count w.db m.id true)
        × (receipt_user_count done.db m.id false ≡ receipt_user_count w.db m.id false)
  unfolding publish_status append_sync_event update_message_status get_message
      member_count_excluding receipt_user_count
  publish_status_same m s reads deliveries w = ground (arith, get_message-update w.db m.id s)

  settle_status :
      (m after : Message) (w : World)
      → get_message w.db m.id ≡ some m
      → let done = settle json m c w in
        get_message done.db m.id ≡ some after
        → (after.status ≡ m.status) ⊎ Justified done.db m after.status
  unfolding settle
  settle_status m after w e found =
      let expected = member_count_excluding w.db m.conversation m.sender in
      let reads = receipt_user_count w.db m.id true in
      let deliveries = receipt_user_count w.db m.id false in
      elim (Option-cases (aggregate expected reads deliveries)) [
        | inl a ↦ ground (arith, a, e, found)
        | inr (s, a) ↦ ground (
          arith,
          a,
          e,
          found,
          aggregate_cases expected reads deliveries s a,
          publish_status_same m s reads deliveries w,
        )
      ]

  move_cursor_same :
      (m : Message) (k : ℕ) (w : World)
      → get_message (move_cursor json m c w).db k ≡ get_message w.db k
  unfolding move_cursor append_sync_event update_member_read_cursor get_message
  move_cursor_same m k w = ground arith

  receipt_same :
      (db : Db) (message user : ℕ) (device : Text) (is_read : Bool) (now k : ℕ)
      → get_message (record_message_receipt db message user device is_read now).0 k
        ≡ get_message db k
  unfolding record_message_receipt get_message
  receipt_same db message user device is_read now k = ground arith

pub found_id : (db : Db) (k : ℕ) (m : Message) → get_message db k ≡ some m → m.id ≡ k
unfolding get_message
found_id db k m e = ground (
  arith,
  e,
  find_row_meets (λ n. n.id == k && has_row (λ u. u.id == n.sender) db.users) db.messages m,
)

-- The world in which the counts are taken.
abbrev pub counted : (Note → Text) → Message → Bool → Call → World → World
counted json m is_read c w =
    let stamped : World = record w {
      db = (record_message_receipt w.db m.id w.conn.user w.conn.device is_read c.now).0;
    } in
    if is_read then move_cursor json m c stamped else stamped

pub counted_same :
    (json : Note → Text) (m : Message) (is_read : Bool) (c : Call) (w : World) (k : ℕ)
    → get_message (counted json m is_read c w).db k ≡ get_message w.db k
counted_same json m is_read c w k =
    let stamped = (record_message_receipt w.db m.id w.conn.user w.conn.device is_read c.now).0 in
    ground (
      arith,
      receipt_same json c w.db m.id w.conn.user w.conn.device is_read c.now k,
      move_cursor_same json c m k (record w { db = stamped }),
    )

-- The status that senders see is backed by receipts. After a request to acknowledge a message, its
-- status is the one it had, or "read" with as many users' read receipts on record as the conversation
-- has members besides the sender (and it has some), or "delivered" with as many users' receipts.
pub process_ack_message-Justified :
    (json : Note → Text) (w : World) (c : Call) (r : AckRequest) (m after : Message)
    → get_message w.db r.message ≡ some m
    → let done = process_ack_message json w c r in
      get_message done.db r.message ≡ some after
      → (after.status ≡ m.status) ⊎ Justified done.db m after.status
unfolding process_ack_message acknowledge
process_ack_message-Justified json w c r m after e found =
    let done = process_ack_message json w c r in
    let is_read = text_eq r.status (codes "read") in
    let v = counted json m is_read c w in
    let step : (done.db ≡ w.db) ⊎ (done.db ≡ (settle json m c v).db) = ground (arith, e) in
    let same = found_id w.db r.message m e in
    elim step [
      | inl d ↦
          let kept = sym e ∙ sym (ap (λ x. get_message x r.message) d) ∙ found in
          inl (ground (arith, kept))
      | inr d ↦
          let there = counted_same json m is_read c w m.id ∙ ap (get_message w.db) same ∙ e in
          let later =
            ap (λ x. get_message x m.id) (sym d) ∙ ap (get_message done.db) same ∙ found in
          subst (λ x. (after.status ≡ m.status) ⊎ Justified x m after.status) (sym d)
            (settle_status json c m after v there later)
    ]
