-- ===== src/Handler/GroupKeys.antt =====
-- RequestHandler.cpp: processFetchGroupKeysRequest, which shares the window of processFetchKeysRequest.
use xlchat_project.Common.{ℕ, not, List, [], ◌∷◌, ◌==◌, if◌then◌else◌}
use xlchat_project.RateWindow.{allow}
use xlchat_project.Database.{Db}
use xlchat_project.Database.Groups.{is_conversation_member, get_group_member_ids}
use xlchat_project.Database.Messages.{get_conversation}
use xlchat_project.Database.Prekeys.{claim_prekeys, get_identity_keys_by_user}
use xlchat_project.Handler.{
  ok, invalid_request, conversation_not_found, permission_denied, rate_limited, fetch_group_keys,
  response_to, group_bundles, Bundle, respond, World, emit, reply,
}
use xlchat_project.Handler.Login.{Call}
use xlchat_project.Handler.Groups.{is_group}
use xlchat_project.Handler.Keys.{make_bundles, has_bundles}

-- For each member, a prekey of each device that has one.
unfoldable pub claim_members : List ℕ → Db → ℕ → Db × List (ℕ × List Bundle)
unfolding make_bundles has_bundles
claim_members [] db now = (db, [])
claim_members (user ∷ users) db now =
    let claimed = claim_prekeys db user now in
    let bundles = make_bundles (get_identity_keys_by_user claimed.0 user) claimed.1 in
    let rest = claim_members users claimed.0 now in
    if has_bundles bundles then (rest.0, (user, bundles) ∷ rest.1) else rest

unfoldable pub process_fetch_group_keys : World → Call → ℕ → World
unfolding claim_members is_group
process_fetch_group_keys w c conversation =
    let admitted = allow w.conn.fetch_keys_window c.now in
    let w' : World = record w { conn = record w.conn { fetch_keys_window = admitted.0 } } in
    let claimed = claim_members (get_group_member_ids w.db conversation) w.db c.now in
    if conversation == 0
    then reply c.request_id fetch_group_keys invalid_request w
    else if not (is_group (get_conversation w.db conversation))
    then reply c.request_id fetch_group_keys conversation_not_found w
    else if not (is_conversation_member w.db conversation w.conn.user)
    then reply c.request_id fetch_group_keys permission_denied w
    else if not admitted.1
    then reply c.request_id fetch_group_keys rate_limited w'
    else emit
        (respond c.request_id (response_to fetch_group_keys) ok
          (group_bundles conversation claimed.1))
        (record w' { db = claimed.0 })
