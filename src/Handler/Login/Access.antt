-- ===== src/Handler/Login/Access.antt =====
-- Login: who gets in.
use xlchat_project.Common.{
  ℕ, ◌+◌, ◌≤◌, ◌≡◌, ◌≢◌, refl, ◌∙◌, Bool, true, false, none, some, ◌==◌, Text, text_eq, text_eq_iff,
  is_empty, arith, has_row, Rising-lt, find_row_has,
}
use xlchat_project.Database.{Db, User, Session}
use xlchat_project.Database.Accounts.{
  get_user_by_username, register_device, create_session, record_login_attempt, get_session_by_id,
  session_ttl,
}
use xlchat_project.Database.Accounts.Ids.{
  SessionsRise, create_session_found, create_session_succeeds,
}
use xlchat_project.Handler.{Conn, World}
use xlchat_project.Handler.Session.{session_accepts, validate_session, check_rate_limit}
use xlchat_project.Handler.Login.{
  LoginRequest, Passwords, Call, admit, open_session, try_password, finish_login, process_login,
  device_name,
}

-- The name is known and its password verifies.
abbrev pub verifies : Passwords → World → LoginRequest → Bool
verifies p w r = elim (get_user_by_username w.db r.username) [
  | none ↦ false
  | some u ↦ p.verify_password r.password u.password_hash
]

-- A login with a password that does not verify, or for an unknown name, changes neither the
-- connection nor any session.
pub process_login_refused :
    (p : Passwords) (w : World) (c : Call) (r : LoginRequest)
    → verifies p w r ≡ false
    → ((process_login p w c r).conn ≡ w.conn)
      × ((process_login p w c r).db.sessions ≡ w.db.sessions)
unfolding process_login admit finish_login try_password record_login_attempt
process_login_refused p w c r h = ground arith

register_device_keeps :
    (db : Db) (user : ℕ) (d n q : Text)
    → ((register_device db user d n q).0.sessions ≡ db.sessions)
      × ((register_device db user d n q).0.next_session ≡ db.next_session)
      × ((register_device db user d n q).0.users ≡ db.users)
      × ((register_device db user d n q).0.available ≡ db.available)
unfolding register_device
register_device_keeps db user d n q = ground arith

create_session_keeps :
    (db : Db) (user : ℕ) (d t : Text) (now : ℕ)
    → (create_session db user d t now).0.available ≡ db.available
unfolding create_session
create_session_keeps db user d t now = ground arith

audit_keeps_session :
    (db : Db) (user : ℕ) (ip : Text) (success : Bool) (now id : ℕ)
    → get_session_by_id (record_login_attempt db user ip success now) id ≡ get_session_by_id db id
unfolding record_login_attempt get_session_by_id
audit_keeps_session db user ip success now id = ground arith

module _ (hash : Text → Text) where
  -- The row of a session is accepted with its token until it expires.
  pub accepts_own :
      (id user : ℕ) (device token : Text) (expires later : ℕ)
      → is_empty token ≡ false
      → later ≤ expires
      → session_accepts hash
          (record {
            id = id;
            user = user;
            device = device;
            token_hash = hash token;
            expires_at = some expires;
          })
          user
          false
          token
          later
        ≡ true
  unfolding session_accepts
  accepts_own id user device token expires later ne h =
      ground (arith, text_eq_iff (hash token) (hash token))

  pub validate_found :
      (db : Db) (c : Conn) (s : Session) (is_renew : Bool) (token : Text) (later : ℕ)
      → c.session ≢ 0
      → c.user ≢ 0
      → get_session_by_id db c.session ≡ some s
      → session_accepts hash s c.user is_renew token later ≡ true
      → validate_session hash db c is_renew token later ≡ true
  unfolding validate_session
  validate_found db c s is_renew token later n m e a = ground arith

module _ (p : Passwords) where
  -- The world after a session was opened.
  opened :
      (w : World) (c : Call) (r : LoginRequest) (user : User) (id : ℕ)
      → (create_session w.db user.id r.device_id (p.hash_token c.token) c.now).1 ≡ some id
      → ((open_session p w c r user).conn.user ≡ user.id)
        × ((open_session p w c r user).conn.session ≡ id)
        × ((open_session p w c r user).db
            ≡ record_login_attempt
                (create_session w.db user.id r.device_id (p.hash_token c.token) c.now).0
                user.id
                c.ip
                true
                c.now)
  unfolding open_session
  opened w c r user id e = rw (e, open_session) (refl, refl, refl)

  open_session_valid :
      (w : World) (c : Call) (r : LoginRequest) (user : User) (later : ℕ)
      → SessionsRise w.db
      → w.db.available ≡ true
      → has_row (λ u. u.id == user.id) w.db.users ≡ true
      → has_row (λ s. text_eq s.token_hash (p.hash_token c.token)) w.db.sessions ≡ false
      → user.id ≢ 0
      → is_empty c.token ≡ false
      → later ≤ c.now + session_ttl
      → let w' = open_session p w c r user in
        (w'.conn.user ≡ user.id)
        × (w'.conn.session ≡ w.db.next_session)
        × (validate_session p.hash_token w'.db w'.conn false c.token later ≡ true)
  open_session_valid w c r user later rise on known new ne some_token soon =
      let e =
        create_session_succeeds w.db user.id r.device_id (p.hash_token c.token) c.now on known
          new in
      let o = opened w c r user w.db.next_session e in
      let found =
        create_session_found w.db user.id r.device_id (p.hash_token c.token) c.now w.db.next_session
          rise e in
      (
        o.0,
        o.1,
        validate_found p.hash_token (open_session p w c r user).db (open_session p w c r user).conn
            (record {
              id = w.db.next_session;
              user = user.id;
              device = r.device_id;
              token_hash = p.hash_token c.token;
              expires_at = some (c.now + session_ttl);
            })
            false c.token later
            (omega (
              arith,
              o.1,
              Rising-lt (λ (s : Session). s.id) 0 w.db.next_session w.db.sessions rise,
            ))
            (omega (arith, o.0, ne))
            (rw (o.1, o.2)
              (audit_keeps_session
                  (create_session w.db user.id r.device_id (p.hash_token c.token) c.now).0 user.id
                  c.ip true c.now w.db.next_session
                ∙ found))
            (rw o.0 (
              accepts_own p.hash_token w.db.next_session user.id r.device_id c.token
                (c.now + session_ttl) later some_token soon)),
      )

  registered : World → LoginRequest → User → Db
  registered w r user =
      (register_device w.db user.id r.device_id (device_name r.device_id) r.platform).0

  logs_in :
      (w : World) (c : Call) (r : LoginRequest) (user : User)
      → is_empty r.username ≡ false
      → is_empty r.password ≡ false
      → get_user_by_username w.db r.username ≡ some user
      → check_rate_limit w.db c.ip user.id c.now ≡ false
      → p.verify_password r.password user.password_hash ≡ true
      → process_login p w c r ≡ open_session p (record w { db = registered w r user }) c r user
  unfolding process_login admit finish_login try_password registered
  logs_in w c r user name pass e limit v = rw (name, pass, e, limit, v)

  known_user :
      (db : Db) (name : Text) (user : User)
      → get_user_by_username db name ≡ some user
      → (db.available ≡ true) × (has_row (λ (u : User). u.id == user.id) db.users ≡ true)
  unfolding get_user_by_username
  known_user db name user e = ground (
    arith,
    find_row_has (λ (u : User). text_eq u.username name) (λ u. u.id == user.id) db.users user,
  )

  -- A login with the right password, below the limits, opens a session that is accepted with the
  -- returned token for the seven days to come, provided that the session ids of the table rise, the
  -- user's id is not 0, and the random token is not empty and its hash is not taken.
  pub process_login_opens :
      (w : World) (c : Call) (r : LoginRequest) (user : User) (later : ℕ)
      → SessionsRise w.db
      → is_empty r.username ≡ false
      → is_empty r.password ≡ false
      → get_user_by_username w.db r.username ≡ some user
      → check_rate_limit w.db c.ip user.id c.now ≡ false
      → p.verify_password r.password user.password_hash ≡ true
      → has_row (λ s. text_eq s.token_hash (p.hash_token c.token)) w.db.sessions ≡ false
      → user.id ≢ 0
      → is_empty c.token ≡ false
      → later ≤ c.now + session_ttl
      → let w' = process_login p w c r in
        (w'.conn.user ≡ user.id)
        × (w'.conn.session ≡ w.db.next_session)
        × (validate_session p.hash_token w'.db w'.conn false c.token later ≡ true)
  unfolding registered
  process_login_opens w c r user later rise name pass e limit v new ne some_token soon =
      let k = register_device_keeps w.db user.id r.device_id (device_name r.device_id) r.platform in
      let u = known_user w.db r.username user e in
      let q : World = record w { db = registered w r user } in
      let o =
        open_session_valid q c r user later (rw (k.0, k.1) rise) (k.3 ∙ u.0) (rw k.2 u.1)
          (rw k.0 new) ne some_token soon in
      rw (logs_in w c r user name pass e limit v) ((o.0, o.1 ∙ k.1, o.2))
