-- ===== src/Database/Contacts.antt =====
-- DatabaseManager.cpp: contacts, which are added and removed in both directions.
use mathlib.Core.List.{reverse}
use xlchat_project.Common.{
  ℕ, Bool, true, false, not, ◌&&◌, ◌||◌, List, [], ◌∷◌, ◌++◌, ◌==◌, if◌then◌else◌, has_row, select,
  delete_rows,
}
use xlchat_project.Database.{Db, Contact}

abbrev pub is_pair : ℕ → ℕ → Contact → Bool
is_pair user other c = c.user == user && c.contact_user == other

-- INSERT OR IGNORE: a second row is ignored, a violated foreign key is an error.
unfoldable pub insert_contact : Db → ℕ → ℕ → ℕ → Db × Bool
insert_contact db user other now =
    if not (
      db.available
      && (has_row (λ u. u.id == user) db.users && has_row (λ u. u.id == other) db.users))
    then (db, false)
    else if has_row (is_pair user other) db.contacts
    then (db, true)
    else (
      record db {
        contacts = db.contacts ++ record { user = user; contact_user = other; at = now } ∷ [];
      },
      true,
    )

unfoldable pub add_contact : Db → ℕ → ℕ → ℕ → Db × Bool
unfolding insert_contact
add_contact db user other now =
    let first = insert_contact db user other now in
    if user == other
    then (db, false)
    else if not first.1
    then first
    else insert_contact first.0 other user now

unfoldable pub remove_contact : Db → ℕ → ℕ → Db × Bool
remove_contact db user other =
    if db.available
    then (
      record db {
        contacts = delete_rows (λ c. is_pair user other c || is_pair other user c) db.contacts;
      },
      true,
    )
    else (db, false)

-- JOIN users ON contact_user_id; ORDER BY created_at DESC: the newest row first.
unfoldable pub get_contacts : Db → ℕ → List Contact
get_contacts db user =
    if db.available
    then reverse
        (select (λ c. c.user == user && has_row (λ u. u.id == c.contact_user) db.users) db.contacts)
    else []

unfoldable pub is_contact : Db → ℕ → ℕ → Bool
is_contact db user other = db.available && has_row (is_pair user other) db.contacts
