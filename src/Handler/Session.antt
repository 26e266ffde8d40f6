-- ===== src/Handler/Session.antt =====
-- RequestHandler.cpp: validateSession and checkRateLimit.
use xlchat_project.Common.{
  ℕ, Bool, true, false, not, ◌&&◌, ◌||◌, none, some, ◌==◌, leb, ltb, if◌then◌else◌, Text, text_eq,
  is_empty,
}
use xlchat_project.Database.{Db, Session}
use xlchat_project.Database.Accounts.{
  get_session_by_id, recent_failed_login_count, recent_failed_login_count_for_user,
}
use xlchat_project.Handler.{Conn}

abbrev pub max_failed_logins_per_ip : ℕ
max_failed_logins_per_ip = 10

abbrev pub max_failed_logins_per_user : ℕ
max_failed_logins_per_user = 5

abbrev pub rate_limit_window : ℕ
rate_limit_window = 300

-- `hash` is EncryptionManager::hashToken.
module _ (hash : Text → Text) where
  -- The checks on the session's row: the user, the expiry, which a renewal is exempt from, and the
  -- token that the request carries.
  unfoldable pub session_accepts : Session → ℕ → Bool → Text → ℕ → Bool
  session_accepts s user is_renew token now =
      if not (s.user == user) then false else elim s.expires_at [
        | none ↦ false
        | some expires ↦
            if not is_renew && ltb expires now
            then false
            else if is_empty token
            then false
            else text_eq (hash token) s.token_hash
      ]

  unfoldable pub validate_session : Db → Conn → Bool → Text → ℕ → Bool
  unfolding session_accepts
  validate_session db c is_renew token now =
      if c.session == 0 || c.user == 0 then false else elim (get_session_by_id db c.session) [
        | none ↦ false
        | some s ↦ session_accepts s c.user is_renew token now
      ]

unfoldable pub check_rate_limit : Db → Text → ℕ → ℕ → Bool
check_rate_limit db ip user now =
    if leb max_failed_logins_per_ip (recent_failed_login_count db ip rate_limit_window now)
    then true
    else if user == 0
    then false
    else leb max_failed_logins_per_user
        (recent_failed_login_count_for_user db user rate_limit_window now)
