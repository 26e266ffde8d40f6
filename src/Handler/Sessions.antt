-- ===== src/Handler/Sessions.antt =====
-- RequestHandler.cpp: logout, token renewal, and the termination of another session of one's own.
pub mod Laws
use xlchat_project.Common.{
  ℕ, ◌+◌, Bool, true, false, not, ◌&&◌, ◌||◌, Option, none, some, List, [], ◌∷◌, ◌==◌, ltb,
  if◌then◌else◌, Text, is_empty, text_eq, find_row,
}
use xlchat_project.Database.{Db, Session}
use xlchat_project.Database.Accounts.{
  create_session, get_session_by_id, delete_session, get_sessions_by_user_id, session_ttl,
}
use xlchat_project.Handler.{
  ErrorCode, ok, invalid_request, session_expired, session_invalid, internal_error,
  permission_denied, logout, token_renew, terminate_session, response_to, no_data, session_token,
  terminated, respond, user_logged_out, session_terminated, Conn, World, emit, reply,
}
use xlchat_project.Handler.Login.{Call, Passwords}

-- The connection's fields are cleared after the response.
unfoldable pub process_logout : World → Call → World
process_logout w c =
    let w' = reply c.request_id logout ok (
      emit (user_logged_out w.conn.user w.conn.session)
        (record w { db = (delete_session w.db w.conn.session).0 })) in
    record w' { conn = record w.conn { user = 0; session = 0 } }

module _ (p : Passwords) where
  -- From the new token on: the old session goes, a new one comes.
  unfoldable pub replace_session : World → Call → World
  replace_session w c =
      let created =
        create_session (delete_session w.db w.conn.session).0 w.conn.user w.conn.device
          (p.hash_token c.token) c.now in
      elim created.1 [
        | none ↦ reply c.request_id token_renew internal_error (record w { db = created.0 })
        | some session ↦
            emit
              (respond c.request_id (response_to token_renew) ok
                (session_token c.token (c.now + session_ttl)))
              (record w { db = created.0; conn = record w.conn { session = session } })
      ]

  -- `supplied` is the token that the request carries.
  unfoldable pub process_token_renew : World → Call → Text → World
  unfolding replace_session
  process_token_renew w c supplied =
      if is_empty supplied
      then reply c.request_id token_renew invalid_request w
      else elim (get_session_by_id w.db w.conn.session) [
        | none ↦ reply c.request_id token_renew session_expired w
        | some s ↦
            if text_eq (p.hash_token supplied) s.token_hash
            then replace_session w c
            else reply c.request_id token_renew session_invalid w
      ]

-- Ids are 0 where the request has none, or one that is not positive.
pub record TerminateRequest : Type 0 where
  pub user_id : Option ℕ
  pub session_id : ℕ
  pub device_id : Text

abbrev pub is_target : TerminateRequest → Session → Bool
is_target r s =
    (not (r.session_id == 0) && s.id == r.session_id)
    || (not (is_empty r.device_id) && text_eq s.device r.device_id)

unfoldable pub foreign_user : TerminateRequest → ℕ → Bool
foreign_user r user = elim r.user_id [ none ↦ false | some u ↦ not (u == user) ]

-- From the search among the user's own sessions on.
unfoldable pub terminate_target : World → Call → TerminateRequest → World
terminate_target w c r = elim (find_row (is_target r) (get_sessions_by_user_id w.db w.conn.user)) [
  | none ↦ reply c.request_id terminate_session permission_denied w
  | some s ↦
      if s.id == 0
      then reply c.request_id terminate_session permission_denied w
      else emit (respond c.request_id (response_to terminate_session) ok (terminated s.id)) (
          emit (session_terminated s.id) (
            emit (user_logged_out w.conn.user s.id)
              (record w { db = (delete_session w.db s.id).0 })))
]

unfoldable pub process_terminate_session : World → Call → TerminateRequest → World
unfolding foreign_user terminate_target
process_terminate_session w c r =
    if foreign_user r w.conn.user
    then reply c.request_id terminate_session permission_denied w
    else if r.session_id == 0 && is_empty r.device_id
    then reply c.request_id terminate_session invalid_request w
    else if r.session_id == w.conn.session
    then reply c.request_id terminate_session invalid_request w
    else terminate_target w c r
