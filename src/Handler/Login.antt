-- ===== src/Handler/Login.antt =====
-- RequestHandler.cpp: login and registration.
pub mod Lockout
pub mod Concurrent
pub mod Access
use xlchat_project.Common.{
  ℕ, ◌+◌, Bool, true, false, not, ◌&&◌, ◌||◌, Option, none, some, List, ◌++◌, ◌==◌, leb, ltb,
  if◌then◌else◌, Text, is_empty, codes, length, take,
}
use xlchat_project.Database.{Db, User}
use xlchat_project.Database.Accounts.{
  user_exists, get_user_by_username, register_user, register_device, create_session,
  record_login_attempt, session_ttl,
}
use xlchat_project.Handler.{
  ErrorCode, ok, invalid_request, authentication_failed, login_rate_limited, internal_error,
  account_already_exists, login, register, response_to, session_token, new_user, respond,
  user_logged_in, Conn, World, emit, reply,
}
use xlchat_project.Handler.Session.{check_rate_limit}

-- The fields as Qt reads them: absent text is empty, and the username is trimmed.
pub record LoginRequest : Type 0 where
  pub username : Text
  pub password : Text
  pub device_id : Text
  pub platform : Text

pub record RegisterRequest : Type 0 where
  pub username : Text
  pub password : Text

-- EncryptionManager: `hash_token`, `verify_password` against a stored hash, and `hash_password`
-- with the salt drawn for this call.
pub record Passwords : Type 0 where
  pub hash_token : Text → Text
  pub verify_password : Text → Text → Bool
  pub hash_password : Text → Text

-- What is fixed for one request: its id, the peer's address, the clock and the random token.
pub record Call : Type 0 where
  pub request_id : ℕ
  pub ip : Text
  pub now : ℕ
  pub token : Text

abbrev pub device_name : Text → Text
device_name device = codes "Device-" ++ take 8 device

-- How far a login comes: no name or password, no such user, too many failures, or to the password.
pub data Admission : Type 0 where
  blank : Admission
  unknown : Admission
  limited : Admission
  admitted : User → Admission

-- The first part of a login: its reads up to the check of the rate limit. The password is verified
-- after it, and the failure recorded after that, with no lock and in no transaction.
unfoldable pub admit : Db → Call → LoginRequest → Admission
admit db c r =
    if is_empty r.username || is_empty r.password
    then blank
    else elim (get_user_by_username db r.username) [
      | none ↦ unknown
      | some user ↦ if check_rate_limit db c.ip user.id c.now then limited else admitted user
    ]

module _ (p : Passwords) where
  -- From `createSession` on, over the database in which the device is registered.
  unfoldable pub open_session : World → Call → LoginRequest → User → World
  open_session w c r user =
      let created = create_session w.db user.id r.device_id (p.hash_token c.token) c.now in
      elim created.1 [
        | none ↦ reply c.request_id login internal_error (record w { db = created.0 })
        | some session ↦
            emit
              (respond c.request_id (response_to login) ok
                (session_token c.token (c.now + session_ttl)))
              (emit (user_logged_in user.id session) (record w {
                db = record_login_attempt created.0 user.id c.ip true c.now;
                conn = record w.conn { user = user.id; session = session; device = r.device_id };
              }))
      ]

  -- From the check of the password on.
  unfoldable pub try_password : World → Call → LoginRequest → User → World
  unfolding open_session
  try_password w c r user =
      let registered =
        register_device w.db user.id r.device_id (device_name r.device_id) r.platform in
      if not (p.verify_password r.password user.password_hash)
      then reply c.request_id login authentication_failed
          (record w { db = record_login_attempt w.db user.id c.ip false c.now })
      else open_session (record w { db = registered.0 }) c r user

  -- The second part of a login: what follows the first, which nothing locks against other
  -- connections.
  unfoldable pub finish_login : World → Call → LoginRequest → Admission → World
  finish_login w c r blank = reply c.request_id login invalid_request w
  finish_login w c r unknown =
      reply c.request_id login authentication_failed
        (record w { db = record_login_attempt w.db 0 c.ip false c.now })
  finish_login w c r limited = reply c.request_id login login_rate_limited w
  finish_login w c r (admitted user) = try_password w c r user

  -- A login that no other connection comes between.
  unfoldable pub process_login : World → Call → LoginRequest → World
  unfolding admit finish_login
  process_login w c r = finish_login w c r (admit w.db c r)

  unfoldable pub process_register : World → Call → RegisterRequest → World
  process_register w c r =
      let created = register_user w.db r.username (p.hash_password r.password) in
      if is_empty r.username || is_empty r.password
      then reply c.request_id register invalid_request w
      else if ltb (length r.username) 3 || ltb 32 (length r.username)
      then reply c.request_id register invalid_request w
      else if ltb (length r.password) 6
      then reply c.request_id register invalid_request w
      else if user_exists w.db r.username
      then reply c.request_id register account_already_exists w
      else elim created.1 [
        | none ↦ reply c.request_id register internal_error (record w { db = created.0 })
        | some user ↦
            emit (respond c.request_id (response_to register) ok (new_user user))
              (record w { db = created.0 })
      ]
