-- ===== src/Database/Accounts/Ids.antt =====
-- The sessions table: ids rise and are never used twice.
use xlchat_project.Common.{
  ℕ, ◌+◌, ◌≡◌, refl, true, false, none, some, [], ◌∷◌, ◌==◌, Text, text_eq, arith, find_row,
  find_row-append, find_row-delete_rows, has_row, Rising, Rising-snoc, Rising-delete_rows,
  Rising-next,
}
use xlchat_project.Database.{Db, Session}
use xlchat_project.Database.Accounts.{
  create_session, get_session_by_id, delete_session, session_ttl,
}

abbrev pub SessionsRise : Db → Type 0
SessionsRise db = Rising (λ (s : Session). s.id) 0 db.sessions db.next_session

pub create_session-SessionsRise :
    (db : Db) (user : ℕ) (device hash : Text) (now : ℕ)
    → SessionsRise db
    → SessionsRise (create_session db user device hash now).0
unfolding create_session
create_session-SessionsRise db user device hash now h = ground (
  arith,
  Rising-snoc (λ (s : Session). s.id) 0 db.next_session db.sessions
      (record {
        id = db.next_session;
        user = user;
        device = device;
        token_hash = hash;
        expires_at = some (now + session_ttl);
      })
      refl h,
)

pub delete_session-SessionsRise :
    (db : Db) (id : ℕ) → SessionsRise db → SessionsRise (delete_session db id).0
unfolding delete_session
delete_session-SessionsRise db id h = ground (
  arith,
  Rising-delete_rows (λ (s : Session). s.id) (λ s. s.id == id) 0 db.next_session db.sessions h,
)

-- A session that was created is found under its id, with what it was created with.
pub create_session_found :
    (db : Db) (user : ℕ) (device hash : Text) (now id : ℕ)
    → SessionsRise db
    → (create_session db user device hash now).1 ≡ some id
    → get_session_by_id (create_session db user device hash now).0 id
      ≡ some (record {
        id = id;
        user = user;
        device = device;
        token_hash = hash;
        expires_at = some (now + session_ttl);
      })
unfolding create_session get_session_by_id find_row
create_session_found db user device hash now id h e = ground (
  arith,
  Rising-next (λ (s : Session). s.id) 0 db.next_session db.sessions h,
  find_row-append (λ (s : Session). s.id == id) db.sessions
      (record {
        id = id;
        user = user;
        device = device;
        token_hash = hash;
        expires_at = some (now + session_ttl);
      }
        ∷ []),
)

-- A deleted session is found no more.
pub delete_session_gone :
    (db : Db) (id : ℕ) → db.available ≡ true → get_session_by_id (delete_session db id).0 id ≡ none
unfolding delete_session get_session_by_id
delete_session_gone db id on =
    ground (arith, find_row-delete_rows (λ (s : Session). s.id == id) db.sessions)

-- Creation fails only if the engine is down, the user is unknown, or the token's hash is taken.
pub create_session_succeeds :
    (db : Db) (user : ℕ) (device hash : Text) (now : ℕ)
    → db.available ≡ true
    → has_row (λ u. u.id == user) db.users ≡ true
    → has_row (λ s. text_eq s.token_hash hash) db.sessions ≡ false
    → (create_session db user device hash now).1 ≡ some db.next_session
unfolding create_session
create_session_succeeds db user device hash now on known new = ground arith
