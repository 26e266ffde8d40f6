-- ===== src/Handler/Notes/Frame.antt =====
-- Telling users about a change leaves every table alone but the events and, for a system message, the
-- messages.
use xlchat_project.Common.{
  ℕ, ◌≡◌, Bool, true, not, inl, inr, List, [], ◌∷◌, ◌==◌, if◌then◌else◌, Text, codes, length, arith,
  Option-cases,
}
use xlchat_project.Database.{Db}
use xlchat_project.Database.Events.{append_sync_event}
use xlchat_project.Database.Messages.{Draft, insert_message, send_message}
use xlchat_project.Database.Accounts.{username_by_id}
use xlchat_project.Database.Groups.{get_group_member_ids}
use xlchat_project.Handler.{World, message_for_user, emit}
use xlchat_project.Handler.Notes.{
  Note, fan_out, announce, post_group_system_message, notify_group_changed, append_event, positive,
  notification, new_message_type, group_changed_type, system_notice, message_notice, group_changed,
}

-- The tables and fields that group operations decide by.
abbrev pub SameGroups : World → World → Type 0
SameGroups v w =
    (v.db.members ≡ w.db.members)
    × (v.db.users ≡ w.db.users)
    × (v.db.available ≡ w.db.available)
    × (v.db.conversations ≡ w.db.conversations)
    × (v.conn ≡ w.conn)

append_event_same :
    (user : ℕ) (event_type payload : Text) (now : ℕ) (w : World)
    → SameGroups (append_event user event_type payload now w) w
unfolding append_sync_event
append_event_same user event_type payload now w = ground arith

pub fan_out_same :
    (users : List ℕ) (pushes : ℕ → Bool) (event_type payload : Text) (packet : List ℕ) (now : ℕ)
    (w : World)
    → SameGroups (fan_out users pushes event_type payload packet now w) w
unfolding fan_out append_sync_event
fan_out_same [] pushes event_type payload packet now w = ground arith
fan_out_same (u ∷ us) pushes event_type payload packet now w =
    let noted = append_event u event_type payload now w in
    let pushed : World = if pushes u then emit (message_for_user u packet) noted else noted in
    ground (
      arith,
      fan_out_same us pushes event_type payload packet now pushed,
      append_event_same u event_type payload now w,
    )

pub send_message_same :
    (db : Db) (d : Draft) (now : ℕ)
    → let sent = (send_message db d now).0 in
      (sent.members ≡ db.members)
      × (sent.users ≡ db.users)
      × (sent.available ≡ db.available)
      × (sent.conversations ≡ db.conversations)
unfolding send_message insert_message
send_message_same db d now = ground arith

module _ (json : Note → Text) where
  announce_same :
      (id : ℕ) (d : Draft) (now : ℕ) (w : World) → SameGroups (announce json id d now w) w
  unfolding announce
  announce_same id d now w =
      let packet =
        notification new_message_type
          (json (system_notice id d now (username_by_id w.db d.sender))) in
      fan_out_same (get_group_member_ids w.db d.conversation) (λ u. not (u == d.sender))
        (codes "message") (json (message_notice id d now)) packet now w

  pub post_group_system_message_same :
      (conversation operator : ℕ) (content : Note) (now : ℕ) (w : World)
      → SameGroups (post_group_system_message json conversation operator content now w) w
  unfolding post_group_system_message
  post_group_system_message_same conversation operator content now w =
      let d : Draft = record {
        conversation = conversation;
        sender = operator;
        content = json content;
        content_type = codes "system";
        client_id = [];
        device = [];
      } in
      let done = send_message w.db d now in
      elim (Option-cases done.1) [
        | inl e ↦ ground (arith, e, send_message_same w.db d now)
        | inr (id, e) ↦ ground (
          arith,
          e,
          announce_same id d now (record w { db = done.0 }),
          send_message_same w.db d now,
        )
      ]

  pub notify_group_changed_same :
      (conversation : ℕ) (change : Text) (operator target now : ℕ) (w : World)
      → SameGroups (notify_group_changed json conversation change operator target now w) w
  unfolding notify_group_changed
  notify_group_changed_same conversation change operator target now w =
      let members = get_group_member_ids w.db conversation in
      let payload =
        json (group_changed conversation change operator (positive target) (length members)) in
      fan_out_same members (λ u. true) (codes "group_changed") payload
        (notification group_changed_type payload) now w
