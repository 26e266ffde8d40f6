-- ===== src/Server/Registry/Relogin.antt =====
-- What the registry does on calls that a connection makes when it logs in a second time, which leaves
-- it inconsistent with the connections that exist.
use xlchat_project.Common.{
  ℕ, ◌≡◌, ◌≢◌, refl, ◌∙◌, true, false, some, [], ◌∷◌, member, set_remove, set_insert, arith,
}
use xlchat_project.Common.Dict.{nat_eq, lookup, lookup-remove}
use xlchat_project.Server.Registry.{
  Registry, sessions, on_user_logged_in, on_user_logged_out, on_handler_finished, is_online,
  on_message_for_user,
}
use xlchat_project.Server.Registry.Routing.{
  sessions-login, handlers-login, users-login, member-login, message_for_user_lem,
  member-handlers_of, handlers-logout, member-logout,
}

-- The sole session of a user is logged out: the user is offline.
sole_logout :
    (r : Registry) (user session : ℕ)
    → session ≢ 0
    → sessions r user ≡ session ∷ []
    → is_online (on_user_logged_out r user session) user ≡ false
unfolding on_user_logged_out set_remove
sole_logout r user session ne e = ground (arith, lookup-remove user user r.online)

-- `on_handler_finished` stops short when the handler's user is offline already.
finished_offline :
    (r : Registry) (handler user : ℕ)
    → lookup handler r.users ≡ some user
    → is_online r user ≡ false
    → ((on_handler_finished r handler).handlers ≡ r.handlers)
      × ((on_handler_finished r handler).online ≡ r.online)
unfolding on_handler_finished
finished_offline r handler user e off = ground arith

sole_insert : (k : ℕ) → set_insert k [] ≡ k ∷ []
unfolding set_insert member
sole_insert k = refl

-- The signals of one connection that logs in twice and then ends.
abbrev pub relogin : Registry → ℕ → ℕ → ℕ → ℕ → ℕ → Registry
relogin r handler user session user' session' =
    on_handler_finished
      (on_user_logged_out
        (on_user_logged_in (on_user_logged_in r handler user session) handler user' session') user'
        session')
      handler

-- A connection logs in as one user, then, still connected, as another one who has no other session,
-- logs that session out and ends. Its first session stays in the registry: a message for the first
-- user is handed to the deleted handler.
pub relogin_dangles :
    (r : Registry) (handler user session user' session' : ℕ)
    → user ≢ user'
    → session ≢ session'
    → session' ≢ 0
    → sessions r user' ≡ []
    → member handler (on_message_for_user (relogin r handler user session user' session') user)
      ≡ true
relogin_dangles r handler user session user' session' apart apart' ne off =
    let a = on_user_logged_in r handler user session in
    let b = on_user_logged_in a handler user' session' in
    let c = on_user_logged_out b user' session' in
    let one : sessions b user' ≡ session' ∷ [] =
      sessions-login a handler user' session' user'
      ∙ ground (arith, sessions-login r handler user session user', sole_insert session') in
    let f =
      finished_offline c handler user'
        (ground (
          arith,
          (handlers-logout b user' session' 0 ne).1,
          users-login a handler user' session' handler,
        ))
        (sole_logout b user' session' ne one) in
    rw message_for_user_lem (
      member-handlers_of (on_handler_finished c handler) session handler _
        (ground (
          arith,
          f.0,
          (handlers-logout b user' session' session ne).0,
          handlers-login a handler user' session' session,
          handlers-login r handler user session session,
        ))
        (ground (
          arith,
          f.1,
          member-logout b user' session' user session ne,
          member-login a handler user' session' user session,
          member-login r handler user session user session,
        )))
