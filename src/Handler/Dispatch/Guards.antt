-- ===== src/Handler/Dispatch/Guards.antt =====
-- processPacket: what reaches a handler, and what does not. The theorems hold whatever the handlers
-- do.
use xlchat_project.Common.{
  ℕ, ◌≡◌, ◌≢◌, ◌⊎◌, true, false, Option, none, some, List, Text, codes, text_eq, arith,
}
use xlchat_project.Protocol.{Packet}
use xlchat_project.NonceCache.Replay.{check_replay_protection}
use xlchat_project.Handler.{
  Route, logout, token_renew, replay_rejected, session_invalid, error, no_data, respond, World,
  emit,
}
use xlchat_project.Handler.Session.{validate_session}
use xlchat_project.Handler.Dispatch.{
  ping_type, pong_type, matches, find_route, open_routes, is_among, type_names, request_type,
  session_routes, Request, Node, route_session, route_request, process_packet,
}

module _ {B : Type 0} (hash : Text → Text) (parse : List ℕ → Option (Request B))
    (handle : Route → ℕ → B → World → World) (now cache_now : ℕ) where
  -- A request, of a type other than Ping and Pong, that fails the replay check runs no handler: the
  -- database and the connection stay as they are, and one refusal is sent.
  pub process_packet_replayed :
      (p : Packet) (n : Node) (r : Request B)
      → p.message_type ≢ ping_type
      → p.message_type ≢ pong_type
      → parse p.payload ≡ some r
      → (check_replay_protection n.cache r.stamp now cache_now).1 ≡ false
      → (process_packet hash parse handle now cache_now p n).world
        ≡ emit (respond p.request_id error replay_rejected no_data) n.world
  unfolding process_packet
  process_packet_replayed p n r ni nq e h = ground arith

  -- Without a valid session a request for anything but a registration or a login runs no handler: one
  -- refusal is sent, and the database and the connection stay as they are. (A Ping is answered.)
  pub process_packet_unauthenticated :
      (p : Packet) (n : Node) (r : Request B)
      → p.message_type ≢ ping_type
      → parse p.payload ≡ some r
      → find_route open_routes p.message_type r.type ≡ none
      → validate_session hash n.world.db n.world.conn
          (text_eq r.type (codes "token_renew"))
          r.token
          now
        ≡ false
      → let w = (process_packet hash parse handle now cache_now p n).world in
        (w ≡ emit (respond p.request_id error replay_rejected no_data) n.world)
        ⊎ (w ≡ emit (respond p.request_id error session_invalid no_data) n.world)
  unfolding process_packet route_request
  process_packet_unauthenticated p n r ni e o v = ground arith

-- A request whose name is that of a renewal is a logout, by its type, or a renewal.
expired_routes :
    (message_type : ℕ) (type : Text)
    → text_eq type (codes "token_renew") ≡ true
    → (find_route session_routes message_type type ≡ some logout)
      ⊎ (find_route session_routes message_type type ≡ some token_renew)
unfolding find_route matches is_among type_names request_type
expired_routes message_type type e = ground arith

-- With an expired session, or none, a request that is routed past the check of the session is
-- refused or reaches the handler of the logout or that of the renewal, and no other.
pub route_session_expired :
    {B : Type 0} (hash : Text → Text) (parse : List ℕ → Option (Request B))
    (handle : Route → ℕ → B → World → World) (now cache_now message_type id : ℕ) (r : Request B)
    (w : World)
    → validate_session hash w.db w.conn false r.token now ≡ false
    → let done = route_session hash parse handle now cache_now message_type id r w in
      (done ≡ emit (respond id error session_invalid no_data) w)
      ⊎ (done ≡ handle logout id r.body w)
      ⊎ (done ≡ handle token_renew id r.body w)
unfolding route_session
route_session_expired hash parse handle now cache_now message_type id r w e =
    ground (arith, expired_routes message_type r.type)
