-- ===== src/Server/Registry/Runs.antt =====
-- The registries that the server object can come to, step by step, and where it sends messages in them.
use xlchat_project.Common.{ℕ, ◌≡◌, ◌≢◌, some, All}
use xlchat_project.Common.Dict.{nat_eq, lookup}
use xlchat_project.Server.Registry.{
  Registry, start, on_user_logged_in, on_user_logged_out, on_handler_finished, on_message_for_user,
}
use xlchat_project.Server.Registry.Routing.{
  IsConsistent, start-IsConsistent, IsFreshLogin, on_user_logged_in-IsConsistent,
  on_user_logged_out-IsConsistent, on_message_for_user-own,
}
use xlchat_project.Server.Registry.Finished.{on_handler_finished-IsConsistent}

-- Any number of slots in any order, where no connection logs in twice and no session twice.
pub data Reached : Registry → Type 0 where
  at_start : Reached start
  logged_in :
      {r : Registry} (handler user session : ℕ)
      → IsFreshLogin r handler user session
      → Reached r
      → Reached (on_user_logged_in r handler user session)
  logged_out :
      {r : Registry} (user session : ℕ)
      → session ≢ 0
      → Reached r
      → Reached (on_user_logged_out r user session)
  finished : {r : Registry} (handler : ℕ) → Reached r → Reached (on_handler_finished r handler)

pub Reached-IsConsistent : {r : Registry} → Reached r → IsConsistent r
Reached-IsConsistent at_start = start-IsConsistent
Reached-IsConsistent (logged_in handler user session f s) =
    on_user_logged_in-IsConsistent _ handler user session (Reached-IsConsistent s) f
Reached-IsConsistent (logged_out user session ne s) =
    on_user_logged_out-IsConsistent _ user session ne (Reached-IsConsistent s)
Reached-IsConsistent (finished handler s) =
    on_handler_finished-IsConsistent _ handler (Reached-IsConsistent s)

-- In every registry that logins, logouts and ends of connections lead to, in whatever order, a message
-- for a user is sent only to connections that serve this user, provided that each login was by a
-- connection and with a session that the registry did not know, and no logout named session 0.
pub message_for_own_user :
    (r : Registry) (user : ℕ)
    → Reached r
    → All (λ h. lookup h r.users ≡ some user) (on_message_for_user r user)
message_for_own_user r user s = on_message_for_user-own r user (Reached-IsConsistent s)
