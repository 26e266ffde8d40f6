-- ===== src/Handler/Dispatch.antt =====
-- RequestHandler::processPacket: the checks before a request reaches its handler.
pub mod Guards
mod Tests
use xlchat_project.Common.{
  ℕ, Bool, true, false, not, ◌||◌, Option, none, some, List, [], ◌∷◌, ◌==◌, if◌then◌else◌, Text,
  codes, text_eq,
}
use xlchat_project.Protocol.{Packet}
use xlchat_project.NonceCache.{NonceCache}
use xlchat_project.NonceCache.Replay.{Stamp, check_replay_protection}
use xlchat_project.Handler.{
  Route, register, login, logout, token_renew, terminate_session, search_users, add_contact,
  get_contacts, get_conversations, send_message, ack_message, sync_messages, sync_events,
  register_keys, fetch_keys, create_group, invite_group_members, leave_group, kick_group_member,
  get_group_info, fetch_group_keys, set_conversation_prefs, edit_message, delete_message,
  invalid_request, replay_rejected, session_invalid, ok, pong, error, no_data, respond, World, emit,
}
use xlchat_project.Handler.Session.{validate_session}

abbrev pub ping_type : ℕ
ping_type = 3

abbrev pub pong_type : ℕ
pong_type = 4

-- MessageType of a route's request in CommonModule/protocol/Packet.h
unfoldable pub request_type : Route → ℕ
request_type login = 1
request_type register = 10
request_type logout = 12
request_type token_renew = 14
request_type terminate_session = 16
request_type search_users = 20
request_type add_contact = 22
request_type get_contacts = 24
request_type get_conversations = 30
request_type send_message = 32
request_type ack_message = 35
request_type sync_messages = 37
request_type sync_events = 40
request_type register_keys = 50
request_type fetch_keys = 52
request_type create_group = 60
request_type invite_group_members = 62
request_type leave_group = 64
request_type kick_group_member = 66
request_type get_group_info = 68
request_type fetch_group_keys = 71
request_type set_conversation_prefs = 81
request_type edit_message = 84
request_type delete_message = 86

-- The "type" texts that stand for a route.
unfoldable pub type_names : Route → List Text
type_names login = codes "login" ∷ []
type_names register = codes "register" ∷ []
type_names logout = codes "logout" ∷ []
type_names token_renew = codes "token_renew" ∷ []
type_names terminate_session = codes "force_logout" ∷ codes "terminate_session" ∷ []
type_names search_users = codes "search_users" ∷ []
type_names add_contact = codes "add_contact" ∷ []
type_names get_contacts = codes "get_contacts" ∷ []
type_names get_conversations = codes "get_conversations" ∷ []
type_names send_message = codes "send_message" ∷ []
type_names ack_message = codes "ack_message" ∷ []
type_names sync_messages = codes "sync_messages" ∷ []
type_names sync_events = codes "sync_events" ∷ []
type_names register_keys = codes "register_keys" ∷ []
type_names fetch_keys = codes "fetch_keys" ∷ []
type_names create_group = codes "create_group" ∷ []
type_names invite_group_members = codes "invite_group_members" ∷ []
type_names leave_group = codes "leave_group" ∷ []
type_names kick_group_member = codes "kick_group_member" ∷ []
type_names get_group_info = codes "get_group_info" ∷ []
type_names fetch_group_keys = codes "fetch_group_keys" ∷ []
type_names set_conversation_prefs = codes "set_conversation_prefs" ∷ []
type_names edit_message = codes "edit_message" ∷ []
type_names delete_message = codes "delete_message" ∷ []

unfoldable pub is_among : Text → List Text → Bool
is_among t [] = false
is_among t (n ∷ ns) = text_eq t n || is_among t ns

-- packet.messageType == … || type == "…"
unfoldable pub matches : Route → ℕ → Text → Bool
unfolding request_type type_names is_among
matches r message_type type = message_type == request_type r || is_among type (type_names r)

-- The tests in their order; the first that holds decides.
unfoldable pub find_route : List Route → ℕ → Text → Option Route
find_route [] message_type type = none
find_route (r ∷ rs) message_type type =
    let rest = find_route rs message_type type in
    if matches r message_type type then some r else rest

abbrev pub open_routes : List Route
open_routes = register ∷ login ∷ []

abbrev pub session_routes : List Route
session_routes =
    logout ∷ token_renew ∷ terminate_session ∷ search_users ∷ add_contact ∷ get_contacts
    ∷ get_conversations ∷ send_message ∷ ack_message ∷ sync_messages ∷ sync_events ∷ register_keys
    ∷ fetch_keys ∷ create_group ∷ invite_group_members ∷ leave_group ∷ kick_group_member
    ∷ get_group_info ∷ fetch_group_keys ∷ set_conversation_prefs ∷ edit_message ∷ delete_message
    ∷ []

-- What is read of every request's JSON object; the rest, `body`, is for its handler.
pub record Request (B : Type 0) : Type 0 where
  pub type : Text
  pub token : Text
  pub stamp : Stamp
  pub body : B

-- The connection with the server's nonce cache.
pub record Node : Type 0 where
  pub world : World
  pub cache : Option NonceCache

abbrev pub refuse : ℕ → World → World
refuse id w = emit (respond id error invalid_request no_data) w

-- `hash` is EncryptionManager::hashToken, `parse` is QJsonDocument::fromJson with the check for an
-- object, and `handle` the handler of each route. `now` and `cache_now` are the clock's seconds.
module _ {B : Type 0} (hash : Text → Text) (parse : List ℕ → Option (Request B))
    (handle : Route → ℕ → B → World → World) (now cache_now : ℕ) where
  -- From the check of the session on. (`updateSessionLastActive` sets a column that nothing reads.)
  unfoldable pub route_session : ℕ → ℕ → Request B → World → World
  route_session message_type id r w =
      if validate_session hash w.db w.conn (text_eq r.type (codes "token_renew")) r.token now
      then elim (find_route session_routes message_type r.type) [
        | none ↦ refuse id w
        | some route ↦ handle route id r.body w
      ]
      else emit (respond id error session_invalid no_data) w

  unfoldable pub route_request : ℕ → ℕ → Request B → World → World
  unfolding route_session
  route_request message_type id r w = elim (find_route open_routes message_type r.type) [
    | none ↦ route_session message_type id r w
    | some route ↦ handle route id r.body w
  ]

  -- The replay check is made unless the packet's type is Ping or Pong.
  unfoldable pub process_request : ℕ → ℕ → Request B → Node → Node
  process_request message_type id r n =
      let checked = check_replay_protection n.cache r.stamp now cache_now in
      if message_type == ping_type || message_type == pong_type
      then record n { world = route_request message_type id r n.world }
      else if not checked.1
      then record {
        world = emit (respond id error replay_rejected no_data) n.world;
        cache = checked.0;
      }
      else record { world = route_request message_type id r n.world; cache = checked.0 }

  unfoldable pub process_packet : Packet → Node → Node
  unfolding process_request
  process_packet p n =
      if p.message_type == ping_type
      then record n { world = emit (respond p.request_id pong ok no_data) n.world }
      else elim (parse p.payload) [
        | none ↦ record n { world = refuse p.request_id n.world }
        | some r ↦ process_request p.message_type p.request_id r n
      ]
