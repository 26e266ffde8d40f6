-- ===== src/Handler/Search.antt =====
-- RequestHandler.cpp: processSearchUsersRequest.
use xlchat_project.Common.{ℕ, Bool, not, ◌==◌, if◌then◌else◌, Text, is_empty, select}
use xlchat_project.RateWindow.{allow}
use xlchat_project.Handler.{
  ok, invalid_request, rate_limited, search_users, response_to, found_users, respond, World, emit,
  reply,
}
use xlchat_project.Handler.Login.{Call}

-- The default of `limit` in searchUsers.
abbrev pub search_limit : ℕ
search_limit = 20

-- Oneself is left out after the limit.
unfoldable pub process_search_users :
    (Text → Text) → (Text → Text → Bool) → World → Call → Text → World
process_search_users trim like w c text =
    let query = trim text in
    let admitted = allow w.conn.search_window c.now in
    let w' : World = record w { conn = record w.conn { search_window = admitted.0 } } in
    let users = xlchat_project.Database.Accounts.search_users like w.db query search_limit in
    if is_empty query
    then reply c.request_id search_users invalid_request w
    else if not admitted.1
    then reply c.request_id search_users rate_limited w'
    else emit
        (respond c.request_id (response_to search_users) ok
          (found_users (select (λ u. not (u.id == w.conn.user)) users)))
        w'
