-- ===== src/Handler/Receipts/Own.antt =====
-- A sender's own acknowledgement.
use xlchat_project.Common.{
  ℕ, ◌≤◌, ◌<◌, ◌≡◌, ◌⊎◌, inl, inr, refl, ap, ◌∙◌, Bool, true, false, ◌&&◌, not, some, List, [], ◌∷◌,
  ◌++◌, ◌==◌, ltb, Text, text_eq, codes, has_row, find_row_has, find_row_meets, count_rows,
  update_rows, member, length, arith,
}
use xlchat_project.Database.{Db, Message, MessageStatus, read, Member, Receipt}
use xlchat_project.Database.Events.{append_sync_event}
use xlchat_project.Database.Groups.{is_conversation_member, is_in, is_member_row}
use xlchat_project.Database.Messages.{get_message}
use xlchat_project.Database.Receipts.{
  is_receipt, stamp_receipt, coalesce, is_set, is_counted, users_of, record_message_receipt,
  receipt_user_count, member_count_excluding, update_member_read_cursor,
}
use xlchat_project.Database.Receipts.Counts.{member-users_of}
use xlchat_project.Handler.{World}
use xlchat_project.Handler.Login.{Call}
use xlchat_project.Handler.Notes.{Note}
use xlchat_project.Handler.Receipts.{
  aggregate, move_cursor, settle, acknowledge, process_ack_message, same_status,
}
use xlchat_project.Handler.Receipts.Status.{counted, counted_same, publish_status_same}

stamped :
    (message user now : ℕ) (device : Text) (rs : List Receipt)
    → has_row (is_receipt message user device) rs ≡ true
    → has_row
        (λ r. is_counted message true r && r.user == user)
        (update_rows (is_receipt message user device) (stamp_receipt true now) rs)
      ≡ true
unfolding has_row update_rows is_counted stamp_receipt coalesce is_set
stamped message user now device [] h = h
stamped message user now device (r ∷ rs) h = ground (arith, h, stamped message user now device rs)

added :
    (p : Receipt → Bool) (rs : List Receipt) (r : Receipt)
    → p r ≡ true
    → has_row p (rs ++ r ∷ []) ≡ true
unfolding has_row
added p [] r h = ground arith
added p (x ∷ rs) r h = ground (arith, added p rs r h)

not_empty : (u : ℕ) (xs : List ℕ) → member u xs ≡ true → 1 ≤ length xs
unfolding member
not_empty u [] h = ground (arith, h)
not_empty u (x ∷ xs) h = ground arith

-- One's read receipt is counted.
recorded :
    (db : Db) (message user now : ℕ) (device : Text)
    → (record_message_receipt db message user device true now).1 ≡ true
    → 1 ≤ receipt_user_count (record_message_receipt db message user device true now).0 message true
unfolding record_message_receipt receipt_user_count is_counted is_set
recorded db message user now device h =
    let rs = (record_message_receipt db message user device true now).0.receipts in
    ground (
      arith,
      h,
      not_empty user (users_of message true rs),
      member-users_of message true rs user,
      stamped message user now device db.receipts,
      added (λ r. is_counted message true r && r.user == user) db.receipts
          (record {
            message = message;
            user = user;
            device = device;
            delivered_at = some now;
            read_at = some now;
          }),
    )

cursor_count :
    (conversation user other c u id : ℕ) (ms : List Member)
    → count_rows
        (λ m. is_in conversation m && not (m.user == other))
        (update_rows
          (λ m. is_member_row c u m && ltb m.last_read id)
          (λ m. record m { last_read = id })
          ms)
      ≡ count_rows (λ m. is_in conversation m && not (m.user == other)) ms
unfolding count_rows update_rows
cursor_count conversation user other c u id [] = refl
cursor_count conversation user other c u id (m ∷ ms) =
    ground (arith, cursor_count conversation user other c u id ms)

counted_facts :
    (json : Note → Text) (m : Message) (c : Call) (w : World)
    → let v = counted json m true c w in
      (member_count_excluding v.db m.conversation m.sender
        ≡ member_count_excluding w.db m.conversation m.sender)
      × (receipt_user_count v.db m.id true
          ≡ receipt_user_count
              (record_message_receipt w.db m.id w.conn.user w.conn.device true c.now).0
              m.id
              true)
unfolding move_cursor append_sync_event update_member_read_cursor record_message_receipt
    member_count_excluding receipt_user_count
counted_facts json m c w = ground (
  arith,
  cursor_count m.conversation w.conn.user m.sender m.conversation w.conn.user m.id w.db.members,
)

user_of :
    (db : Db) (k : ℕ) (m : Message)
    → get_message db k ≡ some m
    → (db.available ≡ true)
      × (has_row (λ n. n.id == k) db.messages ≡ true)
      × (has_row (λ u. u.id == m.sender) db.users ≡ true)
unfolding get_message
user_of db k m e =
    let is_found = λ (n : Message). n.id == k && has_row (λ u. u.id == n.sender) db.users in
    ground (
      arith,
      e,
      find_row_meets is_found db.messages m,
      find_row_has is_found (λ n. n.id == k) db.messages m,
    )

record_works :
    (db : Db) (m : Message) (device : Text) (now : ℕ)
    → get_message db m.id ≡ some m
    → (record_message_receipt db m.id m.sender device true now).1 ≡ true
unfolding record_message_receipt
record_works db m device now e = ground (arith, user_of db m.id m e)

read_or_not : (s : MessageStatus) → (s ≡ read) ⊎ (same_status read s ≡ false)
unfolding same_status
read_or_not MessageStatus.sent = inr refl
read_or_not MessageStatus.delivered = inr refl
read_or_not read = inl refl

is_read_already : (s : MessageStatus) → s ≡ read → same_status read s ≡ true
unfolding same_status
is_read_already s e = ap (same_status read) e

settle_read :
    (json : Note → Text) (m : Message) (c : Call) (v : World)
    → get_message v.db m.id ≡ some m
    → member_count_excluding v.db m.conversation m.sender ≡ 1
    → 1 ≤ receipt_user_count v.db m.id true
    → get_message (settle json m c v).db m.id ≡ some (record m { status = read })
unfolding settle aggregate
settle_read json m c v e one some_read =
    let reads = receipt_user_count v.db m.id true in
    let deliveries = receipt_user_count v.db m.id false in
    let k : aggregate (member_count_excluding v.db m.conversation m.sender) reads deliveries
        ≡ some read =
      ground (arith, one, some_read) in
    elim (read_or_not m.status) [
      | inl s ↦
          let kept : settle json m c v ≡ v = ground (arith, k, is_read_already m.status s) in
          ap (λ x. get_message x.db m.id) kept ∙ e ∙ ap (λ x. some (record m { status = x })) s
      | inr s ↦ ground (arith, k, s, e, publish_status_same json c m read reads deliveries v)
    ]

-- The sender alone makes a message "read". In a conversation that has one member besides the sender,
-- the sender's own request to acknowledge the message as read turns its status to "read", whatever
-- receipts the other member has or has not sent.
pub process_ack_message_own :
    (json : Note → Text) (w : World) (c : Call) (m : Message)
    → get_message w.db m.id ≡ some m
    → 0 < m.id
    → w.conn.user ≡ m.sender
    → is_conversation_member w.db m.conversation w.conn.user ≡ true
    → member_count_excluding w.db m.conversation m.sender ≡ 1
    → get_message
        (process_ack_message json w c (record { message = m.id; status = codes "read" })).db
        m.id
      ≡ some (record m { status = read })
unfolding process_ack_message acknowledge text_eq
process_ack_message_own json w c m e p own h one =
    let v = counted json m true c w in
    let done = process_ack_message json w c (record { message = m.id; status = codes "read" }) in
    let step : done.db ≡ (settle json m c v).db = ground (arith, e, p, h) in
    let facts = counted_facts json m c w in
    let stored : (record_message_receipt w.db m.id w.conn.user w.conn.device true c.now).1 ≡ true =
      rw own (record_works w.db m w.conn.device c.now e) in
    ap (λ x. get_message x m.id) step
    ∙ settle_read json m c v (counted_same json m true c w m.id ∙ e) (facts.0 ∙ one)
        (omega (arith, facts.1, recorded w.db m.id w.conn.user c.now w.conn.device stored))
