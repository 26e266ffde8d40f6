-- ===== src/Handler/Changes/Authors.antt =====
-- Editing and deleting, by the sender of the message.
use xlchat_project.Common.{
  ℕ, ◌≤◌, ◌≡◌, inl, inr, refl, Bool, true, not, ◌&&◌, none, some, List, [], ◌∷◌, ◌==◌, Text, codes,
  if◌then◌else◌, Option-cases, find_row, has_row, select, update_rows, Rising, arith,
}
use xlchat_project.Database.{Db, Message}
use xlchat_project.Database.Events.{append_sync_event}
use xlchat_project.Database.Messages.{is_editable, get_message}
use xlchat_project.Database.Groups.{get_group_member_ids}
use xlchat_project.Handler.{message_for_user, World, emit}
use xlchat_project.Handler.Login.{Call}
use xlchat_project.Handler.Notes.{
  Note, fan_out, append_event, notification, edited_event, deleted_event,
}
use xlchat_project.Handler.Messages.{Format}
use xlchat_project.Handler.Changes.{
  edited_type, deleted_type, EditRequest, check_edit, spread, apply_edit, process_edit_message,
  apply_delete, process_delete_message,
}

-- The messages that others sent.
abbrev pub of_others : ℕ → List Message → List Message
of_others user ms = select (λ m. not (m.sender == user)) ms

module _ (k user : ℕ) (f : Message → Message)
    (keeps : (m : Message) → (f m).sender ≡ m.sender) where
  -- An id below all the others is no row's.
  absent_id :
      (p : Message → Bool) (lo hi : ℕ) (ms : List Message)
      → ((m : Message) → p m ≡ true → m.id ≡ k)
      → Rising (λ m. m.id) lo ms hi
      → k ≤ lo
      → (update_rows p f ms ≡ ms) × (find_row p ms ≡ none)
  unfolding update_rows find_row
  absent_id p lo hi [] only r h = ground arith
  absent_id p lo hi (m ∷ ms) only r h = ground (arith, absent_id p m.id hi ms only r.1, only m, r.0)

  -- A change of the row with an id that is the user's leaves the others' messages.
  others_kept :
      (p q : Message → Bool) (lo hi : ℕ) (ms : List Message) (found : Message)
      → ((m : Message) → p m ≡ true → m.id ≡ k)
      → ((m : Message) → q m ≡ true → m.id ≡ k)
      → Rising (λ m. m.id) lo ms hi
      → find_row q ms ≡ some found
      → found.sender ≡ user
      → of_others user (update_rows p f ms) ≡ of_others user ms
  unfolding update_rows find_row select
  others_kept p q lo hi [] found op oq r e s = refl
  others_kept p q lo hi (m ∷ ms) found op oq r e s = ground (
    arith,
    op m,
    oq m,
    keeps m,
    e,
    s,
    others_kept p q m.id hi ms found op oq r.1,
    absent_id p m.id hi ms op r.1,
    absent_id q m.id hi ms oq r.1,
  )

fan_out_messages :
    (users : List ℕ) (pushes : ℕ → Bool) (event_type payload : Text) (packet : List ℕ) (now : ℕ)
    (w : World)
    → (fan_out users pushes event_type payload packet now w).db.messages ≡ w.db.messages
unfolding fan_out append_sync_event
fan_out_messages [] pushes event_type payload packet now w = refl
fan_out_messages (u ∷ us) pushes event_type payload packet now w =
    let noted = append_event u event_type payload now w in
    let pushed : World = if pushes u then emit (message_for_user u packet) noted else noted in
    ground (arith, fan_out_messages us pushes event_type payload packet now pushed)

module _ (f : Format) (w : World) (c : Call) where
  spread_messages :
      (m : Message) (event_type : Text) (type : ℕ) (content : Note) (v : World)
      → (spread f m event_type type content c v).db.messages ≡ v.db.messages
  unfolding spread
  spread_messages m event_type type content v =
      fan_out_messages (get_group_member_ids v.db m.conversation) (λ u. true) event_type
        (f.json content) (notification type (f.json content)) c.now v

  apply_edit_messages :
      (m : Message) (r : EditRequest)
      → (apply_edit f w c m r).db.messages
        ≡ (xlchat_project.Database.Messages.edit_message w.db r.message r.content r.content_type
            c.now).0.messages
  unfolding apply_edit
  apply_edit_messages m r =
      let edited =
        xlchat_project.Database.Messages.edit_message w.db r.message r.content r.content_type
          c.now in
      ground (
        arith,
        spread_messages m (codes "message_edited") edited_type
            (edited_event r.message m.conversation w.conn.user w.conn.device r.content
              r.content_type c.now)
            (record w { db = edited.0 }),
      )

  apply_delete_messages :
      (m : Message) (id : ℕ)
      → (apply_delete f w c m id).db.messages
        ≡ (xlchat_project.Database.Messages.delete_message w.db id).0.messages
  unfolding apply_delete
  apply_delete_messages m id =
      let deleted = xlchat_project.Database.Messages.delete_message w.db id in
      ground (
        arith,
        spread_messages m (codes "message_deleted") deleted_type
            (deleted_event id m.conversation w.conn.user w.conn.device c.now)
            (record w { db = deleted.0 }),
      )

process_edit_message-of_others :
    (f : Format) (w : World) (c : Call) (r : EditRequest)
    → Rising (λ m. m.id) 0 w.db.messages w.db.next_message
    → of_others w.conn.user (process_edit_message f w c r).db.messages
      ≡ of_others w.conn.user w.db.messages
unfolding process_edit_message get_message check_edit xlchat_project.Database.Messages.edit_message
process_edit_message-of_others f w c r rising =
    let is_found =
      λ (m : Message). m.id == r.message && has_row (λ u. u.id == m.sender) w.db.users in
    elim (Option-cases (find_row is_found w.db.messages)) [
      | inl e ↦ ground (arith, e)
      | inr (m, e) ↦ ground (
        arith,
        e,
        apply_edit_messages f w c m r,
        others_kept r.message w.conn.user
            (λ n. record n {
              content = r.content;
              content_type = r.content_type;
              edited_at = some c.now;
            })
            (λ n. refl) (is_editable r.message) is_found 0 w.db.next_message w.db.messages m
            (λ n h. ground (arith, h)) (λ n h. ground (arith, h)) rising e,
      )
    ]

process_delete_message-of_others :
    (f : Format) (w : World) (c : Call) (id : ℕ)
    → Rising (λ m. m.id) 0 w.db.messages w.db.next_message
    → of_others w.conn.user (process_delete_message f w c id).db.messages
      ≡ of_others w.conn.user w.db.messages
unfolding process_delete_message get_message xlchat_project.Database.Messages.delete_message
process_delete_message-of_others f w c id rising =
    let is_found = λ (m : Message). m.id == id && has_row (λ u. u.id == m.sender) w.db.users in
    elim (Option-cases (find_row is_found w.db.messages)) [
      | inl e ↦ ground (arith, e)
      | inr (m, e) ↦ ground (
        arith,
        e,
        apply_delete_messages f w c m id,
        others_kept id w.conn.user (λ n. record n { deleted = true; content = [] }) (λ n. refl)
            (λ n. n.id == id) is_found 0 w.db.next_message w.db.messages m
            (λ n h. ground (arith, h)) (λ n h. ground (arith, h)) rising e,
      )
    ]

-- A request that changes a message.
pub data Change : Type 0 where
  edit : EditRequest → Change
  delete : ℕ → Change

unfoldable pub process_change : Format → World → Call → Change → World
process_change f w c (edit r) = process_edit_message f w c r
process_change f w c (delete id) = process_delete_message f w c id

-- Only its author edits or deletes a message. Whatever message a request names, and whatever content it
-- has, the messages that other users sent are afterwards what they were, in the same order, where the
-- ids in the table rise.
pub process_change-of_others :
    (f : Format) (w : World) (c : Call) (r : Change)
    → Rising (λ m. m.id) 0 w.db.messages w.db.next_message
    → of_others w.conn.user (process_change f w c r).db.messages
      ≡ of_others w.conn.user w.db.messages
unfolding process_change
process_change-of_others f w c (edit r) rising = process_edit_message-of_others f w c r rising
process_change-of_others f w c (delete id) rising = process_delete_message-of_others f w c id rising
