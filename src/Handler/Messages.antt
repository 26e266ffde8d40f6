-- ===== src/Handler/Messages.antt =====
-- RequestHandler.cpp: sending a message to one user or to a group. The transaction of a private message
-- covers its row and its prekeys; a commit fails only where the engine executes nothing.
pub mod Private
pub mod Consumption
pub mod Spent
pub mod Once
mod Tests
use xlchat_project.Common.{
  ℕ, ℤ, pos, negsuc, ◌+◌, Bool, true, false, not, ◌&&◌, ◌||◌, Option, none, some, List, [], ◌∷◌,
  ◌==◌, ltb, length, if◌then◌else◌, Text, codes, text_eq, is_empty,
}
use xlchat_project.RateWindow.{allow}
use xlchat_project.Envelope.{
  EnvelopeJson, GroupMessageJson, DistributionJson, EnvelopeEntry, Recipient, GroupMessage,
  Distribution, decode_envelope, decode_group_message, decode_distribution,
}
use xlchat_project.Database.{Db, Message, MessageStatus}
use xlchat_project.Database.Accounts.{username_by_id}
use xlchat_project.Database.Groups.{is_conversation_member, get_group_member_ids}
use xlchat_project.Database.Messages.{
  Draft, get_or_create_private_conversation, get_conversation, get_message_by_client_key,
}
use xlchat_project.Database.Prekeys.{is_listed, validate_claimed_prekey, consume_prekeys}
use xlchat_project.Handler.{
  ok, invalid_request, rate_limited, cannot_send_to_self, e2ee_invalid_envelope,
  conversation_not_found, permission_denied, internal_error, send_message, response_to,
  message_stored, message_for_user, respond, World, emit, reply,
}
use xlchat_project.Handler.Login.{Call}
use xlchat_project.Handler.Notes.{
  Note, message_event, message_notice, group_notice, append_event, notification, new_message_type,
  fan_out,
}
use xlchat_project.Handler.Groups.{is_group}

abbrev pub max_group_message_length : ℕ
max_group_message_length = 16384

-- What Qt does with texts: printing a note, trimming, base64, and reading content as a JSON object.
pub record Format : Type 0 where
  pub json : Note → Text
  pub trim : Text → Text
  pub decode64 : Text → List ℕ
  pub read_envelope : Text → Option EnvelopeJson
  pub read_group_message : Text → Option GroupMessageJson
  pub read_distribution : Text → Option DistributionJson

-- An absent contentType is "text"; an id that is absent or not above 0 is 0.
pub record SendRequest : Type 0 where
  pub client_id : Text
  pub conversation : ℕ
  pub to_user : ℕ
  pub content : Text
  pub content_type : Text

unfoldable pub join_id : ℕ → Option (List ℕ) → Option (List ℕ)
join_id id none = none
join_id id (some ids) = some (id ∷ ids)

-- Which entries a sender's device may use, and the prekeys that they consume; `none` is a refusal.
unfoldable pub vet_entries : List EnvelopeEntry → Db → Text → ℕ → List Text → Bool → Option (List ℕ)
unfolding join_id is_listed
vet_entries [] db mine target seen seen_self = some []
vet_entries (e ∷ es) db mine target seen seen_self =
    let skipped = vet_entries es db mine target seen true in
    let rest = vet_entries es db mine target (e.device ∷ seen) seen_self in
    if text_eq e.device mine && e.prekey_id == 0
    then (if seen_self then none else skipped)
    else if is_listed e.device seen
    then none
    else if not (validate_claimed_prekey db target e.device e.prekey_id)
    then none
    else join_id e.prekey_id rest

abbrev pub draft_of : World → ℕ → SendRequest → Text → Draft
draft_of w conversation r client = record {
  conversation = conversation;
  sender = w.conn.user;
  content = r.content;
  content_type = r.content_type;
  client_id = client;
  device = w.conn.device;
}

abbrev pub send_refused : World → Call → World
send_refused w c = reply c.request_id send_message e2ee_invalid_envelope w

abbrev pub send_reused : World → Call → Message → World
send_reused w c m =
    emit
      (respond c.request_id (response_to send_message) ok
        (message_stored m.id m.conversation m.status true))
      w

abbrev pub send_done : Call → ℕ → ℕ → World → World
send_done c id conversation w =
    emit
      (respond c.request_id (response_to send_message) ok
        (message_stored id conversation MessageStatus.sent false))
      w

module _ (f : Format) where
  -- Once the message is stored: both event streams, and the push to the recipient.
  unfoldable pub deliver : ℕ → Draft → ℕ → Call → World → World
  deliver id d target c w =
      let event = f.json (message_event id d c.now) in
      let noted =
        append_event d.sender (codes "message") event c.now
          (append_event target (codes "message") event c.now w) in
      send_done c id d.conversation (
        emit
          (message_for_user target
            (notification new_message_type (f.json (message_notice id d c.now))))
          noted)

  -- From the transaction on.
  unfoldable pub store_private : World → Call → SendRequest → Text → List ℕ → ℕ → World
  unfolding deliver
  store_private w c r client prekeys conversation =
      let d = draft_of w conversation r client in
      let stored = xlchat_project.Database.Messages.send_message w.db d c.now in
      elim stored.1 [
        | none ↦ reply c.request_id send_message internal_error w
        | some id ↦
            deliver id d r.to_user c (record w { db = (consume_prekeys stored.0 prekeys).0 })
      ]

  -- Once the envelope is accepted with the prekeys that it uses.
  unfoldable pub post_private : World → Call → SendRequest → Text → List ℕ → World
  unfolding store_private
  post_private w c r client [] = send_refused w c
  post_private w c r client (id ∷ ids) =
      let found = get_or_create_private_conversation w.db w.conn.user r.to_user c.now in
      let w' : World = record w { db = found.0 } in
      elim found.1 [
        | none ↦ reply c.request_id send_message internal_error w'
        | some conversation ↦ store_private w' c r client (id ∷ ids) conversation
      ]

  unfoldable pub send_private : World → Call → SendRequest → Text → World
  unfolding post_private vet_entries
  send_private w c r client =
      if r.to_user == 0 || r.to_user == w.conn.user
      then reply c.request_id send_message cannot_send_to_self w
      else if is_empty r.content
      then reply c.request_id send_message invalid_request w
      else elim (get_message_by_client_key w.db w.conn.user w.conn.device client) [
        | some m ↦ send_reused w c m
        | none ↦ elim (decode_envelope f.decode64 (f.read_envelope r.content)) [
          | none ↦ send_refused w c
          | some entries ↦ elim (vet_entries entries w.db w.conn.device r.to_user [] false) [
            | none ↦ send_refused w c
            | some ids ↦ post_private w c r client ids
          ]
        ]
      ]

  unfoldable pub prekeys_of : List Recipient → List ℕ
  prekeys_of [] = []
  prekeys_of (r ∷ rs) =
      let rest = prekeys_of rs in
      if r.envelope.prekey_id == 0 then rest else r.envelope.prekey_id ∷ rest

  unfoldable pub is_for : ℕ → ℤ → Bool
  is_for conversation (pos n) = n == conversation
  is_for conversation (negsuc n) = false

  unfoldable pub vet_message : Option GroupMessage → Option (List ℕ)
  vet_message none = none
  vet_message (some m) = if is_empty m.sender_device then none else some []

  unfoldable pub vet_distribution : ℕ → Option Distribution → Option (List ℕ)
  unfolding prekeys_of is_for
  vet_distribution conversation none = none
  vet_distribution conversation (some d) =
      if length d.recipients == 0 || not (is_for conversation d.group)
      then none
      else some (prekeys_of d.recipients)

  -- The check of group content, by its type; the prekeys that a distribution consumes.
  unfoldable pub vet_group_content : ℕ → SendRequest → Option (List ℕ)
  unfolding vet_message vet_distribution
  vet_group_content conversation r =
      if text_eq r.content_type (codes "e2ee_group")
      then vet_message (decode_group_message f.decode64 (f.read_group_message r.content))
      else if text_eq r.content_type (codes "sender_key_distribution")
      then vet_distribution conversation
          (decode_distribution f.decode64 (f.read_distribution r.content))
      else some []

  abbrev pub is_group_type : Text → Bool
  is_group_type t =
      text_eq t (codes "text")
      || (text_eq t (codes "sender_key_distribution") || text_eq t (codes "e2ee_group"))

  unfoldable pub deliver_group : ℕ → Draft → Call → World → World
  unfolding fan_out
  deliver_group id d c w =
      let packet =
        notification new_message_type
          (f.json (group_notice id d c.now (username_by_id w.db d.sender))) in
      send_done c id d.conversation (
        fan_out (get_group_member_ids w.db d.conversation) (λ u. not (u == d.sender))
          (codes "message") (f.json (message_event id d c.now)) packet c.now w)

  unfoldable pub post_group : World → Call → SendRequest → Text → List ℕ → World
  unfolding deliver_group
  post_group w c r client prekeys =
      let d = draft_of w r.conversation r client in
      let stored = xlchat_project.Database.Messages.send_message w.db d c.now in
      let used = if length prekeys == 0 then stored.0 else (consume_prekeys stored.0 prekeys).0 in
      elim (get_message_by_client_key w.db w.conn.user w.conn.device client) [
        | some m ↦ send_reused w c m
        | none ↦ elim stored.1 [
          | none ↦ reply c.request_id send_message internal_error (record w { db = stored.0 })
          | some id ↦ deliver_group id d c (record w { db = used })
        ]
      ]

  unfoldable pub process_send_group_message : World → Call → SendRequest → Text → World
  unfolding is_group vet_group_content post_group
  process_send_group_message w c r client = elim (get_conversation w.db r.conversation) [
    | none ↦ reply c.request_id send_message conversation_not_found w
    | some g ↦
        if not (is_group (some g))
        then reply c.request_id send_message invalid_request w
        else if not (is_conversation_member w.db r.conversation w.conn.user)
        then reply c.request_id send_message permission_denied w
        else if is_empty r.content
        then reply c.request_id send_message invalid_request w
        else if ltb max_group_message_length (length r.content)
        then reply c.request_id send_message invalid_request w
        else if not (is_group_type r.content_type)
        then reply c.request_id send_message invalid_request w
        else elim (vet_group_content r.conversation r) [
          | none ↦ send_refused w c
          | some prekeys ↦ post_group w c r client prekeys
        ]
  ]

  unfoldable pub process_send_message : World → Call → SendRequest → World
  unfolding send_private process_send_group_message
  process_send_message w c r =
      let client = f.trim r.client_id in
      let admitted = allow w.conn.send_window c.now in
      let w' : World = record w { conn = record w.conn { send_window = admitted.0 } } in
      if is_empty client || ltb 128 (length client)
      then reply c.request_id send_message invalid_request w
      else if not admitted.1
      then reply c.request_id send_message rate_limited w'
      else if ltb 0 r.conversation
      then process_send_group_message w' c r client
      else send_private w' c r client
