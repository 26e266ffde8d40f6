-- ===== src/Handler/Login/Lockout.antt =====
-- Login: what each of its two parts does to the count of failed attempts.
use xlchat_project.Common.{
  ℕ, ◌+◌, ◌≤◌, ◌≡◌, ◌≢◌, Bool, true, false, not, ◌&&◌, List, [], ◌∷◌, ◌==◌, if◌then◌else◌, Text,
  arith, count_rows, count_rows-append, ◌<◌, ◌⊎◌,
}
use xlchat_project.Database.{Db, User, LoginAttempt}
use xlchat_project.Database.Accounts.{
  register_device, create_session, record_login_attempt, is_recent_failure,
  recent_failed_login_count_for_user,
}
use xlchat_project.Handler.{World}
use xlchat_project.Handler.Session.{check_rate_limit, max_failed_logins_per_user, rate_limit_window}
use xlchat_project.Handler.Login.{
  LoginRequest, Passwords, Call, Admission, blank, unknown, limited, admitted, admit, open_session,
  try_password, finish_login, device_name,
}

-- The failures on record within the last five minutes.
abbrev pub failures : Db → ℕ → ℕ → ℕ
failures db user now = recent_failed_login_count_for_user db user rate_limit_window now

-- A recorded attempt counts if it is a failure of the user.
failures-record :
    (db : Db) (user other : ℕ) (ip : Text) (success : Bool) (now later : ℕ)
    → recent_failed_login_count_for_user
        (record_login_attempt db other ip success now)
        user
        rate_limit_window
        later
      ≤ recent_failed_login_count_for_user db user rate_limit_window later
        + (if other == user && not success then 1 else 0)
unfolding recent_failed_login_count_for_user record_login_attempt count_rows
failures-record db user other ip success now later = ground (
  arith,
  count_rows-append
      (λ (a : LoginAttempt). a.user == user && is_recent_failure rate_limit_window later a)
      db.login_audit (record { user = other; ip = ip; success = success; at = now } ∷ []),
)

fewer_recent :
    (user now later : ℕ) (rows : List LoginAttempt)
    → now ≤ later
    → count_rows
        (λ (a : LoginAttempt). a.user == user && is_recent_failure rate_limit_window later a)
        rows
      ≤ count_rows
          (λ (a : LoginAttempt). a.user == user && is_recent_failure rate_limit_window now a)
          rows
unfolding count_rows
fewer_recent user now later [] h = omega arith
fewer_recent user now later (a ∷ rows) h = ground (arith, fewer_recent user now later rows h)

pub fewer_failures :
    (db : Db) (user now later : ℕ) → now ≤ later → failures db user later ≤ failures db user now
unfolding recent_failed_login_count_for_user
fewer_failures db user now later h = ground (arith, fewer_recent user now later db.login_audit h)

-- Registering a device and creating a session leave the audit as it is.
audit-register_device :
    (db : Db) (user : ℕ) (d n q : Text)
    → ((register_device db user d n q).0.login_audit ≡ db.login_audit)
      × ((register_device db user d n q).0.available ≡ db.available)
unfolding register_device
audit-register_device db user d n q = ground arith

audit-create_session :
    (db : Db) (user : ℕ) (d t : Text) (now : ℕ)
    → ((create_session db user d t now).0.login_audit ≡ db.login_audit)
      × ((create_session db user d t now).0.available ≡ db.available)
unfolding create_session
audit-create_session db user d t now = ground arith

pub failures-same :
    (db db' : Db) (user now : ℕ)
    → db'.login_audit ≡ db.login_audit
    → db'.available ≡ db.available
    → recent_failed_login_count_for_user db' user rate_limit_window now
      ≡ recent_failed_login_count_for_user db user rate_limit_window now
unfolding recent_failed_login_count_for_user
failures-same db db' user now e f = rw (e, f)

open_session-failures :
    (p : Passwords) (w : World) (c : Call) (r : LoginRequest) (user : User) (id : ℕ)
    → failures (open_session p w c r user).db id c.now ≤ failures w.db id c.now
unfolding open_session
open_session-failures p w c r user id =
    let t = p.hash_token c.token in
    let k = audit-create_session w.db user.id r.device_id t c.now in
    let db' = (create_session w.db user.id r.device_id t c.now).0 in
    ground (
      arith,
      failures-same w.db db' id c.now k.0 k.1,
      failures-record db' id user.id c.ip true c.now c.now,
    )

-- A login that came to the password is the only one that can add to a user's failures, and adds one
-- at most.
abbrev pub is_admitted : ℕ → Admission → ℕ
is_admitted id (admitted user) = if user.id == id then 1 else 0
is_admitted id _ = 0

pub finish_login-failures :
    (p : Passwords) (w : World) (c : Call) (r : LoginRequest) (a : Admission) (id : ℕ)
    → id ≢ 0
    → failures (finish_login p w c r a).db id c.now ≤ failures w.db id c.now + is_admitted id a
unfolding finish_login try_password
finish_login-failures p w c r blank id ne = omega arith
finish_login-failures p w c r unknown id ne =
    ground (arith, failures-record w.db id 0 c.ip false c.now c.now)
finish_login-failures p w c r limited id ne = omega arith
finish_login-failures p w c r (admitted user) id ne =
    let db' = (register_device w.db user.id r.device_id (device_name r.device_id) r.platform).0 in
    let k = audit-register_device w.db user.id r.device_id (device_name r.device_id) r.platform in
    ground (
      arith,
      failures-same w.db db' id c.now k.0 k.1,
      failures-record w.db id user.id c.ip false c.now c.now,
      open_session-failures p (record w { db = db' }) c r user id,
    )

-- Who has five failures is not admitted.
pub admit-failures :
    (db : Db) (c : Call) (r : LoginRequest) (id : ℕ)
    → id ≢ 0
    → (is_admitted id (admit db c r) ≡ 0)
      ⊎ (failures db id c.now < max_failed_logins_per_user) × (is_admitted id (admit db c r) ≡ 1)
unfolding admit check_rate_limit
admit-failures db c r id ne = ground arith
