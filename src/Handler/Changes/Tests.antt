-- ===== src/Handler/Changes/Tests.antt =====
-- User 1 asks for the deletion of user 2's message.
use xlchat_project.Common.{◌≡◌, arith}
use xlchat_project.Handler.Changes.Authors.{
  of_others, delete, process_change, process_change-of_others,
}
use xlchat_project.Handler.Rooms.{at, call, format}

process_change-of_others_example :
    of_others 1 (process_change format (at 1) call (delete 1)).db.messages
    ≡ of_others 1 (at 1).db.messages
process_change-of_others_example =
    process_change-of_others format (at 1) call (delete 1) (omega arith, omega arith)
