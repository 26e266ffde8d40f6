-- ===== src/Handler/Receipts/Tests.antt =====
-- User 1 has read user 2's message.
use xlchat_project.Common.{
  ◌≡◌, ◌⊎◌, refl, codes, text_eq, find_row, has_row, update_rows, count_rows, member, some, arith,
}
use xlchat_project.Database.{Message, MessageStatus}
use xlchat_project.Database.Messages.{get_message, update_message_status}
use xlchat_project.Database.Receipts.{
  record_message_receipt, member_count_excluding, update_member_read_cursor, receipt_user_count,
}
use xlchat_project.Database.Groups.{is_conversation_member}
use xlchat_project.Database.Events.{append_sync_event}
use xlchat_project.Handler.Receipts.{AckRequest, process_ack_message}
use xlchat_project.Handler.Receipts.Status.{Justified, process_ack_message-Justified}
use xlchat_project.Handler.Receipts.Own.{process_ack_message_own}
use xlchat_project.Handler.Rooms.{at, call, format, hello}

abbrev acked : AckRequest
acked = record { message = 1; status = codes "read" }

abbrev hello_read : Message
hello_read = record hello { status = MessageStatus.read }

process_ack_message-Justified_example :
    (MessageStatus.read ≡ MessageStatus.sent)
    ⊎ Justified (process_ack_message format.json (at 1) call acked).db hello MessageStatus.read
unfolding get_message process_ack_message find_row has_row text_eq is_conversation_member
    member_count_excluding append_sync_event update_member_read_cursor record_message_receipt
    count_rows update_rows receipt_user_count member update_message_status
process_ack_message-Justified_example =
    process_ack_message-Justified format.json (at 1) call acked hello hello_read refl refl

-- User 2 acknowledges the message that user 2 sent.
process_ack_message_own_example :
    get_message (process_ack_message format.json (at 2) call acked).db 1 ≡ some hello_read
unfolding get_message is_conversation_member member_count_excluding find_row has_row count_rows
process_ack_message_own_example =
    process_ack_message_own format.json (at 2) call hello refl (omega arith) refl refl refl
