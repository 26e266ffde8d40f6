-- ===== src/Handler/Notes.antt =====
-- RequestHandler.cpp: what is written to the event streams and pushed to connections. A note is a JSON
-- object; its compact form is the parameter `json`, read as bytes in a packet and as text in an event.
pub mod Frame
use xlchat_project.Common.{
  ℕ, Bool, true, false, not, Option, none, some, List, [], ◌∷◌, ◌==◌, if◌then◌else◌, Text, codes,
  length,
}
use xlchat_project.Protocol.{Packet, current_version}
use xlchat_project.Protocol.Codec.{encode}
use xlchat_project.Database.{Db, MessageStatus}
use xlchat_project.Database.Accounts.{username_by_id}
use xlchat_project.Database.Events.{append_sync_event}
use xlchat_project.Database.Groups.{get_group_member_ids}
use xlchat_project.Database.Messages.{Draft, send_message}
use xlchat_project.Handler.{message_for_user, World, emit}

pub data Note : Type 0 where
  -- with and without the client's key and the sender's name; the ids, the draft and the time
  message_event : ℕ → Draft → ℕ → Note
  message_notice : ℕ → Draft → ℕ → Note
  group_notice : ℕ → Draft → ℕ → Text → Note
  system_notice : ℕ → Draft → ℕ → Text → Note
  edited_event : ℕ → ℕ → ℕ → Text → Text → Text → ℕ → Note
  deleted_event : ℕ → ℕ → ℕ → Text → ℕ → Note
  read_event : ℕ → ℕ → Note
  status_notice : ℕ → ℕ → MessageStatus → ℕ → ℕ → Note
  receipt_event : ℕ → ℕ → MessageStatus → ℕ → ℕ → ℕ → Note
  contact_event : ℕ → Note
  prefs_event : ℕ → Bool → Bool → Note
  -- the content of system messages: the operator, then the group's name or the users
  group_created : ℕ → Text → Note
  members_added : ℕ → List ℕ → Note
  owner_transferred : ℕ → ℕ → Note
  member_left : ℕ → Note
  member_removed : ℕ → ℕ → Note
  -- conversation, change, operator, target, number of members
  group_changed : ℕ → Text → ℕ → Option ℕ → ℕ → Note

abbrev pub positive : ℕ → Option ℕ
positive n = if n == 0 then none else some n

abbrev pub append_event : ℕ → Text → Text → ℕ → World → World
append_event user event_type payload now w = record w {
  db = (append_sync_event w.db user event_type payload now).0;
}

-- A notification packet: request id 0.
abbrev pub notification : ℕ → Text → List ℕ
notification message_type payload = encode (record {
  version = current_version;
  message_type = message_type;
  request_id = 0;
  payload = payload;
})

-- Each member gets the event; each that `pushes` admits is sent the packet.
unfoldable pub fan_out : List ℕ → (ℕ → Bool) → Text → Text → List ℕ → ℕ → World → World
fan_out [] pushes event_type payload packet now w = w
fan_out (user ∷ users) pushes event_type payload packet now w =
    let w' = append_event user event_type payload now w in
    fan_out users pushes event_type payload packet now
      (if pushes user then emit (message_for_user user packet) w' else w')

-- MessageType::NewMessageNotification and GroupChangedNotification
abbrev pub new_message_type : ℕ
new_message_type = 34

abbrev pub group_changed_type : ℕ
group_changed_type = 70

module _ (json : Note → Text) where
  -- What follows the insertion of the system message.
  unfoldable pub announce : ℕ → Draft → ℕ → World → World
  unfolding fan_out
  announce id d now w =
      let packet =
        notification new_message_type
          (json (system_notice id d now (username_by_id w.db d.sender))) in
      fan_out (get_group_member_ids w.db d.conversation) (λ u. not (u == d.sender))
        (codes "message") (json (message_notice id d now)) packet now w

  unfoldable pub post_group_system_message : ℕ → ℕ → Note → ℕ → World → World
  unfolding announce
  post_group_system_message conversation operator content now w =
      let d : Draft = record {
        conversation = conversation;
        sender = operator;
        content = json content;
        content_type = codes "system";
        client_id = [];
        device = [];
      } in
      let done = send_message w.db d now in
      elim done.1 [
        | none ↦ record w { db = done.0 }
        | some id ↦ announce id d now (record w { db = done.0 })
      ]

  unfoldable pub notify_group_changed : ℕ → Text → ℕ → ℕ → ℕ → World → World
  unfolding fan_out
  notify_group_changed conversation change operator target now w =
      let members = get_group_member_ids w.db conversation in
      let payload =
        json (group_changed conversation change operator (positive target) (length members)) in
      fan_out members (λ u. true) (codes "group_changed") payload
        (notification group_changed_type payload) now w
