-- ===== src/Database.antt =====
-- Chat-Server/database/DatabaseManager.cpp: the SQLite tables as lists of rows, and each method's
-- statements on them. SQLite itself is not modelled: `available` says whether the engine executes
-- statements at all, and a statement then fails exactly on a violated constraint. AUTOINCREMENT
-- gives each table a next id that never goes back. `datetime('now')` is the argument `now` of an
-- operation, in Unix seconds; columns that nothing reads in these operations are left out.
pub mod Accounts
pub mod Events
pub mod Prekeys
pub mod Groups
pub mod Messages
pub mod Receipts
pub mod Contacts
pub mod History
mod Tests
use xlchat_project.Common.{ℕ, Bool, true, false, List, [], Option, Text}

pub record User : Type 0 where
  pub id : ℕ
  pub username : Text
  pub password_hash : Text

-- `expires_at` is ISO text in the table; `none` stands for text that does not parse.
pub record Session : Type 0 where
  pub id : ℕ
  pub user : ℕ
  pub device : Text
  pub token_hash : Text
  pub expires_at : Option ℕ

pub record Device : Type 0 where
  pub user : ℕ
  pub device : Text
  pub device_name : Text
  pub platform : Text

pub record LoginAttempt : Type 0 where
  pub user : ℕ
  pub ip : Text
  pub success : Bool
  pub at : ℕ

-- sync_events
pub record Event : Type 0 where
  pub seq : ℕ
  pub user : ℕ
  pub event_type : Text
  pub payload : Text
  pub at : ℕ

-- device_identity_keys
pub record IdentityKey : Type 0 where
  pub user : ℕ
  pub device : Text
  pub identity_pub : Text

-- The columns status and claimed_at of prekeys.
pub data PrekeyStatus : Type 0 where
  unused : PrekeyStatus
  claimed : ℕ → PrekeyStatus
  used : PrekeyStatus

pub record Prekey : Type 0 where
  pub id : ℕ
  pub user : ℕ
  pub device : Text
  pub pub_key : Text
  pub status : PrekeyStatus

-- The column type of conversations: 'private' is `direct`.
pub data ConversationType : Type 0 where
  direct group : ConversationType

pub record Conversation : Type 0 where
  pub id : ℕ
  pub type : ConversationType
  pub name : Text

-- The column role of conversation_members: 'member' is `plain_member`.
pub data Role : Type 0 where
  owner admin plain_member : Role

-- conversation_members
pub record Member : Type 0 where
  pub conversation : ℕ
  pub user : ℕ
  pub role : Role
  pub joined_at : ℕ
  pub last_read : ℕ
  pub pinned : Bool
  pub muted : Bool

-- A row with the defaults of the columns that an insertion does not name.
abbrev pub new_member : ℕ → ℕ → Role → ℕ → Member
new_member conversation user role now = record {
  conversation = conversation;
  user = user;
  role = role;
  joined_at = now;
  last_read = 0;
  pinned = false;
  muted = false;
}

-- The column status of messages.
pub data MessageStatus : Type 0 where
  sent delivered read : MessageStatus

-- `client_id` and `device` are the empty text where the column is NULL.
pub record Message : Type 0 where
  pub id : ℕ
  pub conversation : ℕ
  pub sender : ℕ
  pub content : Text
  pub content_type : Text
  pub status : MessageStatus
  pub at : ℕ
  pub client_id : Text
  pub device : Text
  pub edited_at : Option ℕ
  pub deleted : Bool

-- message_receipts
pub record Receipt : Type 0 where
  pub message : ℕ
  pub user : ℕ
  pub device : Text
  pub delivered_at : Option ℕ
  pub read_at : Option ℕ

pub record Contact : Type 0 where
  pub user : ℕ
  pub contact_user : ℕ
  pub at : ℕ

pub record Db : Type 0 where
  pub available : Bool
  pub users : List User
  pub next_user : ℕ
  pub devices : List Device
  pub sessions : List Session
  pub next_session : ℕ
  pub login_audit : List LoginAttempt
  pub events : List Event
  pub next_seq : ℕ
  pub pruned_below : ℕ
  pub identity_keys : List IdentityKey
  pub prekeys : List Prekey
  pub next_prekey : ℕ
  pub conversations : List Conversation
  pub next_conversation : ℕ
  pub members : List Member
  pub messages : List Message
  pub next_message : ℕ
  pub receipts : List Receipt
  pub contacts : List Contact

abbrev pub empty_db : Db
empty_db = record {
  available = true;
  users = [];
  next_user = 1;
  devices = [];
  sessions = [];
  next_session = 1;
  login_audit = [];
  events = [];
  next_seq = 1;
  pruned_below = 0;
  identity_keys = [];
  prekeys = [];
  next_prekey = 1;
  conversations = [];
  next_conversation = 1;
  members = [];
  messages = [];
  next_message = 1;
  receipts = [];
  contacts = [];
}
