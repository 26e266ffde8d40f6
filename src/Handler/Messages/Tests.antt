-- ===== src/Handler/Messages/Tests.antt =====
-- A private message to user 2, sent once and tried again.
use xlchat_project.Common.{codes}
use xlchat_project.Handler.{World}
use xlchat_project.Handler.Messages.{SendRequest, send_private, process_send_message}
use xlchat_project.Handler.Messages.Private.{Atomic, send_private-Atomic}
use xlchat_project.Database.Prekeys.Claims.{KeyCall, call as call_keys}
use xlchat_project.Handler.Rooms.{at, call, format, greeting}

send_private-Atomic_example :
    Atomic format
      (at 1)
      call
      greeting
      (codes "n")
      (send_private format (at 1) call greeting (codes "n"))
send_private-Atomic_example = send_private-Atomic format (at 1) call greeting (codes "n")

abbrev done : World
done = process_send_message format (at 1) call greeting

-- The same content under another key.
abbrev again : SendRequest
again = record greeting { client_id = codes "m" }

-- The second try fails; then user 2's prekeys are claimed once more, and the third is made.
abbrev second : World
second = process_send_message format done call again

abbrev third : World
third = record second { db = call_keys (KeyCall.claim 2) 200 second.db }
