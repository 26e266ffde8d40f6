-- ===== src/Handler/Changes.antt =====
-- RequestHandler.cpp: editing and deleting one's messages, and a conversation's preferences.
pub mod Authors
mod Tests
use xlchat_project.Common.{
  ℕ, Bool, true, false, not, ◌&&◌, ◌||◌, Option, none, some, List, [], ◌∷◌, ◌==◌, ltb, length,
  if◌then◌else◌, Text, codes, text_eq, is_empty,
}
use xlchat_project.Envelope.{GroupMessage, EnvelopeEntry, decode_envelope, decode_group_message}
use xlchat_project.Database.{Db, Message}
use xlchat_project.Database.Groups.{is_conversation_member, get_group_member_ids}
use xlchat_project.Database.Messages.{get_message}
use xlchat_project.Handler.{
  ErrorCode, ok, invalid_request, message_not_found, permission_denied, e2ee_invalid_envelope,
  internal_error, set_conversation_prefs, edit_message, delete_message, response_to, noted,
  message_for_user, respond, World, emit, reply,
}
use xlchat_project.Handler.Login.{Call}
use xlchat_project.Handler.Notes.{
  Note, edited_event, deleted_event, prefs_event, append_event, notification, fan_out,
}
use xlchat_project.Handler.Messages.{Format, max_group_message_length}

-- MessageType::ConversationPrefsNotification, EditMessageResponse and DeleteMessageResponse
abbrev pub prefs_type : ℕ
prefs_type = 83

abbrev pub edited_type : ℕ
edited_type = 85

abbrev pub deleted_type : ℕ
deleted_type = 87

pub record EditRequest : Type 0 where
  pub message : ℕ
  pub content : Text
  pub content_type : Text

-- A JSON value as far as the preferences tell it apart; `toBool` of a number is false.
pub data Flag : Type 0 where
  boolean : Bool → Flag
  number other_value : Flag

unfoldable pub is_flag : Flag → Bool
is_flag (boolean b) = true
is_flag number = true
is_flag other_value = false

unfoldable pub to_bool : Flag → Bool
to_bool (boolean b) = b
to_bool number = false
to_bool other_value = false

pub record PrefsRequest : Type 0 where
  pub conversation : ℕ
  pub pinned : Flag
  pub muted : Flag

-- A group message must come from the device that edits.
unfoldable pub is_from : Text → Option GroupMessage → Bool
is_from device none = false
is_from device (some m) = text_eq m.sender_device device

unfoldable pub is_accepted : Option (List EnvelopeEntry) → Bool
is_accepted none = false
is_accepted (some entries) = true

module _ (f : Format) where
  unfoldable pub is_sealed : Text → EditRequest → Bool
  unfolding is_from is_accepted
  is_sealed device r =
      if text_eq r.content_type (codes "e2ee_group")
      then is_from device (decode_group_message f.decode64 (f.read_group_message r.content))
      else if text_eq r.content_type (codes "text")
      then is_accepted (decode_envelope f.decode64 (f.read_envelope r.content))
      else true

  -- The checks of an edit by the message's row, in their order; `ok` when all pass.
  unfoldable pub check_edit : World → Message → EditRequest → ErrorCode
  unfolding is_sealed
  check_edit w m r =
      if not (m.sender == w.conn.user)
      then permission_denied
      else if m.deleted
      then message_not_found
      else if text_eq m.content_type (codes "system")
      then permission_denied
      else if ltb max_group_message_length (length r.content)
      then invalid_request
      else if not (text_eq r.content_type m.content_type)
      then invalid_request
      else if not (is_sealed w.conn.device r)
      then e2ee_invalid_envelope
      else ok

  -- The event goes to every member, with the push to every one of them.
  unfoldable pub spread : Message → Text → ℕ → Note → Call → World → World
  unfolding fan_out
  spread m event_type type content c w =
      fan_out (get_group_member_ids w.db m.conversation) (λ u. true) event_type (f.json content)
        (notification type (f.json content)) c.now w

  unfoldable pub apply_edit : World → Call → Message → EditRequest → World
  unfolding spread
  apply_edit w c m r =
      let edited =
        xlchat_project.Database.Messages.edit_message w.db r.message r.content r.content_type
          c.now in
      let event =
        edited_event r.message m.conversation w.conn.user w.conn.device r.content r.content_type
          c.now in
      if edited.1
      then emit (respond c.request_id (response_to edit_message) ok (noted (f.json event)))
          (spread m (codes "message_edited") edited_type event c (record w { db = edited.0 }))
      else reply c.request_id edit_message internal_error (record w { db = edited.0 })

  unfoldable pub process_edit_message : World → Call → EditRequest → World
  unfolding check_edit apply_edit
  process_edit_message w c r =
      if r.message == 0
      then reply c.request_id edit_message invalid_request w
      else if is_empty r.content || is_empty r.content_type
      then reply c.request_id edit_message invalid_request w
      else elim (get_message w.db r.message) [
        | none ↦ reply c.request_id edit_message message_not_found w
        | some m ↦ elim (check_edit w m r) [
          | ok ↦ apply_edit w c m r
          | code ↦ reply c.request_id edit_message code w
        ]
      ]

  unfoldable pub apply_delete : World → Call → Message → ℕ → World
  unfolding spread
  apply_delete w c m message =
      let deleted = xlchat_project.Database.Messages.delete_message w.db message in
      let event = deleted_event message m.conversation w.conn.user w.conn.device c.now in
      if deleted.1
      then emit (respond c.request_id (response_to delete_message) ok (noted (f.json event)))
          (spread m (codes "message_deleted") deleted_type event c (record w { db = deleted.0 }))
      else reply c.request_id delete_message internal_error (record w { db = deleted.0 })

  unfoldable pub process_delete_message : World → Call → ℕ → World
  unfolding apply_delete
  process_delete_message w c message =
      if message == 0
      then reply c.request_id delete_message invalid_request w
      else elim (get_message w.db message) [
        | none ↦ reply c.request_id delete_message message_not_found w
        | some m ↦
            if not (m.sender == w.conn.user)
            then reply c.request_id delete_message permission_denied w
            else if text_eq m.content_type (codes "system")
            then reply c.request_id delete_message permission_denied w
            else apply_delete w c m message
      ]

  unfoldable pub process_set_conversation_prefs : World → Call → PrefsRequest → World
  unfolding is_flag to_bool
  process_set_conversation_prefs w c r =
      let user = w.conn.user in
      let pinned = to_bool r.pinned in
      let muted = to_bool r.muted in
      let done =
        xlchat_project.Database.Receipts.set_conversation_prefs w.db r.conversation user pinned
          muted in
      let payload = f.json (prefs_event r.conversation pinned muted) in
      let w' : World = record w { db = done.0 } in
      if r.conversation == 0
      then reply c.request_id set_conversation_prefs invalid_request w
      else if not (is_flag r.pinned) || not (is_flag r.muted)
      then reply c.request_id set_conversation_prefs invalid_request w
      else if not (is_conversation_member w.db r.conversation user)
      then reply c.request_id set_conversation_prefs permission_denied w
      else if not done.1
      then reply c.request_id set_conversation_prefs internal_error w'
      else emit (respond c.request_id (response_to set_conversation_prefs) ok (noted payload)) (
          emit (message_for_user user (notification prefs_type payload))
            (append_event user (codes "conversation_prefs") payload c.now w'))
