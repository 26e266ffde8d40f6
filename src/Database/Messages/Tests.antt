-- ===== src/Database/Messages/Tests.antt =====
-- The messages table on concrete rows.
use xlchat_project.Common.{◌≡◌, refl, Bool, List, [], ◌∷◌, Text, codes, has_row, ◌==◌, ◌&&◌}
use xlchat_project.Database.{Db, empty_db, direct}
use xlchat_project.Database.Messages.{Draft, send_message}
use xlchat_project.Database.Messages.Keys.{
  key_of, MessageCall, send, edit, delete, run, answers, Outbox, replay, promised, Refines,
}
use xlchat_project.Database.Messages.Keys.Runs.{run-Refines}

abbrev db : Db
db = record empty_db {
  users =
      record { id = 1; username = codes "alice"; password_hash = [] }
      ∷ record { id = 2; username = codes "bob"; password_hash = [] }
      ∷ [];
  conversations = record { id = 4; type = direct; name = [] } ∷ [];
}

-- What user 1's phone sends under the key "k".
abbrev draft : Text → Draft
draft content = record {
  conversation = 4;
  sender = 1;
  content = content;
  content_type = codes "text";
  client_id = codes "k";
  device = codes "phone";
}

abbrev accepts : Draft → Bool
accepts d =
    db.available
    && (has_row (λ c. c.id == d.conversation) db.conversations
        && has_row (λ u. u.id == d.sender) db.users)

abbrev outbox : Outbox
outbox = record { next = 1; ids = key_of db }

db-Refines : Refines accepts db outbox
db-Refines = record { counter = refl; bindings = λ s e k. refl; checks = λ d. refl }

abbrev calls : List MessageCall
calls =
    send (draft (codes "a")) 100
    ∷ edit 1 (codes "b") (codes "text") 110
    ∷ delete 1
    ∷ send (draft (codes "c")) 120
    ∷ []

run-Refines_example :
    (answers calls db ≡ promised accepts calls outbox)
    × Refines accepts (run calls db) (replay accepts calls outbox)
run-Refines_example = run-Refines accepts calls db outbox db-Refines

abbrev rest : List MessageCall
rest = edit 1 (codes "b") (codes "text") 110 ∷ delete 1 ∷ []

abbrev sent_db : Db
sent_db = (send_message db (draft (codes "a")) 100).0
