-- ===== src/Database/History.antt =====
-- DatabaseManager.cpp: operations on messages, groups and devices that no request handler calls yet.
use xlchat_project.Common.{
  ℕ, ℤ, Bool, true, false, not, ◌&&◌, ◌||◌, List, [], ◌∷◌, ◌==◌, ltb, if◌then◌else◌, Text, text_eq,
  is_empty, has_row, select, update_rows, delete_rows,
}
use xlchat_project.Database.{Db, Message, read}
use xlchat_project.Database.Groups.{is_member_row}
use xlchat_project.Database.Messages.{is_unread, is_direct, limited}
use xlchat_project.Database.Prekeys.{remove_device_keys}

-- JOIN conversation_members
unfoldable pub can_access_message : Db → ℕ → ℕ → Bool
can_access_message db message user =
    db.available
    && has_row (λ m. m.id == message && has_row (is_member_row m.conversation user) db.members)
        db.messages

unfoldable pub newest : List Message → List Message → List Message
newest [] out = out
newest (m ∷ ms) out = newest ms (m ∷ out)

-- The last ones before `before`, or of all where it is 0, in the order of their ids: ORDER BY id DESC
-- LIMIT ?, and each row is prepended.
unfoldable pub get_messages : Db → ℕ → ℕ → ℤ → List Message
unfolding newest limited
get_messages db conversation before limit =
    if db.available
    then newest
        (limited limit (
          newest
            (select
              (λ m.
                (m.conversation == conversation && (before == 0 || ltb m.id before))
                && has_row (λ u. u.id == m.sender) db.users)
              db.messages)
            []))
        []
    else []

-- MAX(id); NULL reads as 0.
unfoldable pub max_id : ℕ → List Message → ℕ
max_id conversation [] = 0
max_id conversation (m ∷ ms) =
    let rest = max_id conversation ms in
    if m.conversation == conversation && ltb rest m.id then m.id else rest

-- All messages of others become "read", and the reader's cursor is set, forward or back.
unfoldable pub update_messages_read_status : Db → ℕ → ℕ → Db × Bool
unfolding max_id is_unread
update_messages_read_status db conversation reader =
    if db.available
    then (
      record db {
        messages =
            update_rows
              (λ m.
                m.conversation == conversation && (not (m.sender == reader) && is_unread m.status))
              (λ m. record m { status = read }) db.messages;
        members =
            update_rows (is_member_row conversation reader)
              (λ m. record m { last_read = max_id conversation db.messages }) db.members;
      },
      true,
    )
    else (db, false)

-- `trim` is QString::trimmed.
unfoldable pub set_group_name : (Text → Text) → Db → ℕ → Text → Db × Bool
unfolding is_direct
set_group_name trim db conversation name =
    if is_empty (trim name) then (db, false) else if not db.available then (db, false) else (
      record db {
        conversations =
            update_rows (λ c. c.id == conversation && not (is_direct c.type))
              (λ c. record c { name = trim name }) db.conversations;
      },
      has_row (λ c. c.id == conversation && not (is_direct c.type)) db.conversations,
    )

-- The device's keys go with it.
unfoldable pub remove_device : Db → ℕ → Text → Db × Bool
remove_device db user device =
    if db.available
    then remove_device_keys
        (record db {
          devices = delete_rows (λ d. d.user == user && text_eq d.device device) db.devices;
        })
        user device
    else (db, false)
