-- ===== src/Handler.antt =====
-- Chat-Server/core/RequestHandler.cpp: one connection's thread. Its state is `World`: the database
-- as this request sees it, the connection's own fields, and what it sends and emits, in order.
-- Left out: log lines, the per-request log context, and the human-readable message of a response.
pub mod Session
pub mod Login
pub mod Sessions
pub mod Sync
pub mod Keys
pub mod Notes
pub mod Groups
pub mod Messages
pub mod Contacts
pub mod Receipts
pub mod Changes
pub mod Outsiders
pub mod GroupKeys
pub mod Search
pub mod Dispatch
pub mod Examples
mod Rooms
mod Tests
use xlchat_project.Common.{ℕ, Bool, List, [], ◌∷◌, ◌++◌, Option, none, some, Text}
use xlchat_project.Database.{Db, Event, Message, MessageStatus, Member, Role, Contact, User}
use xlchat_project.RateWindow.{RateWindow, create}

-- ErrorCode of CommonModule/protocol/Packet.h
pub data ErrorCode : Type 0 where
  ok : ErrorCode
  invalid_request unsupported_version replay_rejected rate_limited : ErrorCode
  authentication_failed account_already_exists account_not_found session_expired : ErrorCode
  session_invalid login_rate_limited too_many_devices : ErrorCode
  contact_already_exists contact_not_found conversation_not_found message_not_found : ErrorCode
  cannot_send_to_self permission_denied key_bundle_unavailable e2ee_invalid_envelope : ErrorCode
  group_limit_exceeded member_already_exists member_not_found not_group_owner : ErrorCode
  timeout internal_error : ErrorCode

-- The requests that `processPacket` hands to a handler of their own.
pub data Route : Type 0 where
  register login logout token_renew terminate_session : Route
  search_users add_contact get_contacts get_conversations : Route
  send_message ack_message sync_messages sync_events : Route
  register_keys fetch_keys : Route
  create_group invite_group_members leave_group kick_group_member get_group_info : Route
  fetch_group_keys set_conversation_prefs edit_message delete_message : Route

-- The message type of a response: that of its route, Pong, or Error.
pub data Kind : Type 0 where
  pong error : Kind
  response_to : Route → Kind

-- One device's entry of a fetched key bundle.
pub record Bundle : Type 0 where
  pub device : Text
  pub identity_pub : Text
  pub prekey_id : ℕ
  pub prekey_pub : Text

-- The data object of a response, where a client acts on it.
pub data Reply : Type 0 where
  no_data : Reply
  session_token : Text → ℕ → Reply
  new_user : ℕ → Reply
  terminated : ℕ → Reply
  sync_page : List Event → ℕ → Bool → Reply
  full_sync : ℕ → ℕ → Reply
  registered_keys : ℕ → ℕ → Reply
  key_bundles : List Bundle → Reply
  message_stored : ℕ → ℕ → MessageStatus → Bool → Reply
  message_acked : ℕ → Bool → Reply
  message_page : ℕ → List Message → Bool → Reply
  group_made : ℕ → ℕ → Reply
  members_added : ℕ → List ℕ → ℕ → Reply
  group_left : ℕ → Reply
  member_kicked : ℕ → ℕ → Reply
  group_details : ℕ → Text → Role → List Member → Reply
  contact_added : ℕ → Reply
  contact_list : List Contact → Reply
  group_bundles : ℕ → List (ℕ × List Bundle) → Reply
  found_users : List User → Reply
  noted : Text → Reply

-- `sendResponse` and the signals to the server object.
pub data Effect : Type 0 where
  respond : ℕ → Kind → ErrorCode → Reply → Effect
  user_logged_in : ℕ → ℕ → Effect
  user_logged_out : ℕ → ℕ → Effect
  session_terminated : ℕ → Effect
  message_for_user : ℕ → List ℕ → Effect

pub record Conn : Type 0 where
  pub user : ℕ
  pub session : ℕ
  pub device : Text
  pub fetch_keys_window : RateWindow
  pub send_window : RateWindow
  pub search_window : RateWindow

unfoldable pub new_conn : Conn
unfolding create
new_conn = record {
  user = 0;
  session = 0;
  device = [];
  fetch_keys_window = create 20 60;
  send_window = create 30 10;
  search_window = create 20 60;
}

pub record World : Type 0 where
  pub db : Db
  pub conn : Conn
  pub sent : List Effect

abbrev pub emit : Effect → World → World
emit e w = record w { sent = w.sent ++ e ∷ [] }

-- `sendResponse(packet.requestId, …)` with no data.
abbrev pub reply : ℕ → Route → ErrorCode → World → World
reply id r code w = emit (respond id (response_to r) code no_data) w
