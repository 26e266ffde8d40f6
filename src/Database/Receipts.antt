-- ===== src/Database/Receipts.antt =====
-- DatabaseManager.cpp: receipts, the counts of recipients, read cursors and conversation preferences.
pub mod Counts
use xlchat_project.Common.{
  ℕ, zero, suc, ℤ, pos, negsuc, ◌+◌, Bool, true, false, not, ◌&&◌, ◌||◌, Option, none, some, List,
  [], ◌∷◌, ◌++◌, ◌==◌, ltb, if◌then◌else◌, Text, text_eq, is_empty, take, find_row, has_row, select,
  count_rows, update_rows, set_insert, length,
}
use xlchat_project.Database.{Db, Member, Message, Receipt}
use xlchat_project.Database.Groups.{is_in, is_member_row}

-- COALESCE(column, datetime('now'))
unfoldable pub coalesce : Option ℕ → ℕ → Option ℕ
coalesce none now = some now
coalesce (some t) now = some t

abbrev pub is_receipt : ℕ → ℕ → Text → Receipt → Bool
is_receipt message user device r =
    r.message == message && (r.user == user && text_eq r.device device)

unfoldable pub stamp_receipt : Bool → ℕ → Receipt → Receipt
unfolding coalesce
stamp_receipt is_read now r = record r {
  delivered_at = coalesce r.delivered_at now;
  read_at = if is_read then coalesce r.read_at now else r.read_at;
}

-- The status is 'delivered' or, with `is_read`, 'read'; the method's own check of it always passes.
-- A device that is NULL conflicts with none; here it is the empty text, which changes no count of users.
unfoldable pub record_message_receipt : Db → ℕ → ℕ → Text → Bool → ℕ → Db × Bool
unfolding stamp_receipt
record_message_receipt db message user device is_read now =
    if not (
      db.available
      && (has_row (λ m. m.id == message) db.messages && has_row (λ u. u.id == user) db.users))
    then (db, false)
    else if has_row (is_receipt message user device) db.receipts
    then (
      record db {
        receipts =
            update_rows (is_receipt message user device) (stamp_receipt is_read now) db.receipts;
      },
      true,
    )
    else (
      record db {
        receipts =
            db.receipts
            ++ record {
              message = message;
              user = user;
              device = device;
              delivered_at = some now;
              read_at = if is_read then some now else none;
            }
              ∷ [];
      },
      true,
    )

unfoldable pub is_set : Option ℕ → Bool
is_set none = false
is_set (some t) = true

unfoldable pub is_counted : ℕ → Bool → Receipt → Bool
unfolding is_set
is_counted message is_read r =
    r.message == message
    && (if is_read then is_set r.read_at else is_set r.delivered_at || is_set r.read_at)

-- SELECT DISTINCT user_id
unfoldable pub users_of : ℕ → Bool → List Receipt → List ℕ
unfolding is_counted set_insert
users_of message is_read [] = []
users_of message is_read (r ∷ rs) =
    let rest = users_of message is_read rs in
    if is_counted message is_read r then set_insert r.user rest else rest

unfoldable pub receipt_user_count : Db → ℕ → Bool → ℕ
unfolding users_of
receipt_user_count db message is_read =
    if db.available then length (users_of message is_read db.receipts) else 0

unfoldable pub receipt_count : Db → ℕ → Bool → ℕ
unfolding is_counted
receipt_count db message is_read =
    if db.available then count_rows (is_counted message is_read) db.receipts else 0

unfoldable pub member_count_excluding : Db → ℕ → ℕ → ℕ
member_count_excluding db conversation user =
    if db.available
    then count_rows (λ m. is_in conversation m && not (m.user == user)) db.members
    else 0

-- The read cursor only moves forward.
unfoldable pub update_member_read_cursor : Db → ℕ → ℕ → ℕ → Db
update_member_read_cursor db conversation user message =
    if db.available
    then record db {
      members =
          update_rows (λ m. is_member_row conversation user m && ltb m.last_read message)
            (λ m. record m { last_read = message }) db.members;
    }
    else db

unfoldable pub set_conversation_prefs : Db → ℕ → ℕ → Bool → Bool → Db × Bool
set_conversation_prefs db conversation user pinned muted =
    if conversation == 0 || user == 0
    then (db, false)
    else if not db.available
    then (db, false)
    else (
      record db {
        members =
            update_rows (is_member_row conversation user)
              (λ m. record m { pinned = pinned; muted = muted }) db.members;
      },
      has_row (is_member_row conversation user) db.members,
    )

-- Without a row the preferences are off.
unfoldable pub get_conversation_prefs : Db → ℕ → ℕ → Bool × Bool
get_conversation_prefs db conversation user =
    if db.available
    then elim (find_row (is_member_row conversation user) db.members) [
      | none ↦ (false, false)
      | some m ↦ (m.pinned, m.muted)
    ]
    else (false, false)
