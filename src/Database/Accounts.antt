-- ===== src/Database/Accounts.antt =====
-- DatabaseManager.cpp: users, sessions and the login audit.
pub mod Ids
use xlchat_project.Common.{
  ℕ, suc, ◌+◌, ◌*◌, Bool, true, false, not, ◌&&◌, ◌||◌, List, [], ◌∷◌, ◌++◌, Option, none, some,
  ◌==◌, leb, ltb, if◌then◌else◌, Text, text_eq, find_row, has_row, count_rows, delete_rows,
  update_rows, select, take, codes,
}
use xlchat_project.Database.{Db, User, Device, Session, LoginAttempt}

unfoldable pub user_exists : Db → Text → Bool
user_exists db name = db.available && has_row (λ u. text_eq u.username name) db.users

unfoldable pub get_user_by_username : Db → Text → Option User
get_user_by_username db name =
    if db.available then find_row (λ u. text_eq u.username name) db.users else none

-- username TEXT UNIQUE NOT NULL
unfoldable pub register_user : Db → Text → Text → Db × Option ℕ
register_user db name password_hash =
    if db.available && not (has_row (λ u. text_eq u.username name) db.users)
    then (
      record db {
        users =
            db.users
            ++ record { id = db.next_user; username = name; password_hash = password_hash } ∷ [];
        next_user = suc db.next_user;
      },
      some db.next_user,
    )
    else (db, none)

-- The default of `ttlSeconds`: seven days.
abbrev pub session_ttl : ℕ
session_ttl = 86400 * 7

-- token_hash TEXT NOT NULL UNIQUE, and user_id REFERENCES users(id).
unfoldable pub create_session : Db → ℕ → Text → Text → ℕ → Db × Option ℕ
create_session db user device token_hash now =
    if db.available
      && (has_row (λ u. u.id == user) db.users
          && not (has_row (λ s. text_eq s.token_hash token_hash) db.sessions))
    then (
      record db {
        sessions =
            db.sessions
            ++ record {
              id = db.next_session;
              user = user;
              device = device;
              token_hash = token_hash;
              expires_at = some (now + session_ttl);
            }
              ∷ [];
        next_session = suc db.next_session;
      },
      some db.next_session,
    )
    else (db, none)

unfoldable pub get_session_by_id : Db → ℕ → Option Session
get_session_by_id db id = if db.available then find_row (λ s. s.id == id) db.sessions else none

unfoldable pub delete_session : Db → ℕ → Db × Bool
delete_session db id =
    if db.available
    then (record db { sessions = delete_rows (λ s. s.id == id) db.sessions }, true)
    else (db, false)

-- INSERT … ON CONFLICT(user_id, device_id) DO UPDATE; user_id REFERENCES users(id).
unfoldable pub register_device : Db → ℕ → Text → Text → Text → Db × Bool
register_device db user device name platform =
    let same : Device → Bool = λ d. d.user == user && text_eq d.device device in
    if not (db.available && has_row (λ u. u.id == user) db.users)
    then (db, false)
    else if has_row same db.devices
    then (
      record db {
        devices =
            update_rows same (λ d. record d { device_name = name; platform = platform }) db.devices;
      },
      true,
    )
    else (
      record db {
        devices =
            db.devices
            ++ record { user = user; device = device; device_name = name; platform = platform }
              ∷ [];
      },
      true,
    )

-- ORDER BY created_at DESC: rows are in the order of their creation, so the newest come first. (Rows
-- of one second have no order in SQL.)
unfoldable pub newest_first : List Session → List Session → List Session
newest_first [] out = out
newest_first (s ∷ ss) out = newest_first ss (s ∷ out)

unfoldable pub get_sessions_by_user_id : Db → ℕ → List Session
unfolding newest_first
get_sessions_by_user_id db user =
    if db.available then newest_first (select (λ s. s.user == user) db.sessions) [] else []

unfoldable pub record_login_attempt : Db → ℕ → Text → Bool → ℕ → Db
record_login_attempt db user ip success now =
    if db.available
    then record db {
      login_audit =
          db.login_audit ++ record { user = user; ip = ip; success = success; at = now } ∷ [];
    }
    else db

-- created_at >= datetime('now', '-N seconds')
abbrev pub is_recent_failure : ℕ → ℕ → LoginAttempt → Bool
is_recent_failure window now a = not a.success && leb now (a.at + window)

unfoldable pub recent_failed_login_count : Db → Text → ℕ → ℕ → ℕ
recent_failed_login_count db ip window now =
    if db.available
    then count_rows (λ a. text_eq a.ip ip && is_recent_failure window now a) db.login_audit
    else 0

unfoldable pub recent_failed_login_count_for_user : Db → ℕ → ℕ → ℕ → ℕ
recent_failed_login_count_for_user db user window now =
    if db.available
    then count_rows (λ a. a.user == user && is_recent_failure window now a) db.login_audit
    else 0

-- The empty text for an unknown user.
unfoldable pub username_by_id : Db → ℕ → Text
username_by_id db user =
    if db.available
    then elim (find_row (λ u. u.id == user) db.users) [ none ↦ [] | some u ↦ u.username ]
    else []

unfoldable pub get_session_by_token_hash : Db → Text → Option Session
get_session_by_token_hash db token_hash =
    if db.available then find_row (λ s. text_eq s.token_hash token_hash) db.sessions else none

unfoldable pub delete_sessions_by_user_id : Db → ℕ → Db × Bool
delete_sessions_by_user_id db user =
    if db.available
    then (record db { sessions = delete_rows (λ s. s.user == user) db.sessions }, true)
    else (db, false)

-- `like` is SQLite's LIKE of a name and a pattern; rows are taken in the order of their ids; SQL
-- leaves the order open, as there is no ORDER BY.
unfoldable pub search_users : (Text → Text → Bool) → Db → Text → ℕ → List User
search_users like db query limit =
    if db.available
    then take limit (select (λ u. like u.username (query ++ codes "%")) db.users)
    else []
