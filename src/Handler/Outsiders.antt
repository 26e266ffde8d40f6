-- ===== src/Handler/Outsiders.antt =====
-- Authorisation: what a conversation's requests do for a user who is not a member of it.
mod Tests
use xlchat_project.Common.{
  ℕ, ◌≡◌, ◌⊎◌, inl, inr, refl, Bool, true, false, not, ◌&&◌, Option, none, some, List, [], ◌∷◌,
  ◌==◌, Text, codes, Option-cases, find_row, has_row, arith,
}
use xlchat_project.Database.{Db, Member, Message}
use xlchat_project.Database.Groups.{is_member_row, is_conversation_member, group_role}
use xlchat_project.Database.Messages.{get_conversation, get_message}
use xlchat_project.Handler.{Kind, ErrorCode, ok, response_to, no_data, respond, Effect, World, emit}
use xlchat_project.Handler.Login.{Call}
use xlchat_project.Handler.Notes.{Note}
use xlchat_project.Handler.Groups.{
  may_kick, process_invite_group_members, process_leave_group, process_kick_group_member,
  process_get_group_info,
}
use xlchat_project.Handler.Messages.{Format, SendRequest, process_send_group_message}
use xlchat_project.Handler.Receipts.{
  AckRequest, PageRequest, process_ack_message, process_sync_messages,
}
use xlchat_project.Handler.GroupKeys.{process_fetch_group_keys}
use xlchat_project.Handler.Changes.{PrefsRequest, process_set_conversation_prefs}

unfoldable pub is_ok : ErrorCode → Bool
is_ok ok = true
is_ok code = false

-- An answer that names an error and carries nothing.
unfoldable pub is_refusal : Effect → Bool
unfolding is_ok
is_refusal (respond id kind code no_data) = not (is_ok code)
is_refusal e = false

unfoldable pub are_refusals : List Effect → Bool
unfolding is_refusal
are_refusals [] = true
are_refusals (e ∷ es) = is_refusal e && are_refusals es

-- From a world that has sent nothing: the tables stay, and every answer refuses.
abbrev pub Refused : World → World → Type 0
Refused w done = (done.db ≡ w.db) × (are_refusals done.sent ≡ true)

no_role :
    (db : Db) (group user : ℕ)
    → is_conversation_member db group user ≡ false
    → group_role db group user ≡ none
unfolding is_conversation_member group_role has_row find_row
no_role db group user h = ground (arith, no_find (is_member_row group user) db.members)
  where
    no_find : (p : Member → Bool) (ms : List Member) → has_row p ms ≡ false → find_row p ms ≡ none
    no_find p [] a = refl
    no_find p (m ∷ ms) a = ground (arith, no_find p ms)

module _ (f : Format) (w : World) (c : Call) (quiet : w.sent ≡ []) where
  outsider_invites :
      (group : ℕ) (users : List ℕ)
      → is_conversation_member w.db group w.conn.user ≡ false
      → Refused w (process_invite_group_members f.json w c group users)
  unfolding process_invite_group_members are_refusals
  outsider_invites group users h = ground (arith, h, quiet)

  outsider_leaves :
      (group : ℕ)
      → is_conversation_member w.db group w.conn.user ≡ false
      → Refused w (process_leave_group f.json w c group)
  unfolding process_leave_group are_refusals
  outsider_leaves group h = ground (arith, no_role w.db group w.conn.user h, quiet)

  outsider_kicks :
      (group target : ℕ)
      → is_conversation_member w.db group w.conn.user ≡ false
      → Refused w (process_kick_group_member f.json w c group target)
  unfolding process_kick_group_member are_refusals may_kick
  outsider_kicks group target h = ground (arith, no_role w.db group w.conn.user h, quiet)

  outsider_asks :
      (group : ℕ)
      → is_conversation_member w.db group w.conn.user ≡ false
      → Refused w (process_get_group_info w c group)
  unfolding process_get_group_info are_refusals
  outsider_asks group h = ground (arith, no_role w.db group w.conn.user h, quiet)

  outsider_sends :
      (r : SendRequest) (client : Text)
      → is_conversation_member w.db r.conversation w.conn.user ≡ false
      → Refused w (process_send_group_message f w c r client)
  unfolding process_send_group_message are_refusals
  outsider_sends r client h = ground (arith, h, quiet)

  outsider_reads :
      (r : PageRequest)
      → is_conversation_member w.db r.conversation w.conn.user ≡ false
      → Refused w (process_sync_messages w c r)
  unfolding process_sync_messages are_refusals
  outsider_reads r h = ground (arith, h, quiet)

  outsider_sets :
      (r : PrefsRequest)
      → is_conversation_member w.db r.conversation w.conn.user ≡ false
      → Refused w (process_set_conversation_prefs f w c r)
  unfolding process_set_conversation_prefs are_refusals
  outsider_sets r h = ground (arith, h, quiet)

  outsider_fetches :
      (group : ℕ)
      → is_conversation_member w.db group w.conn.user ≡ false
      → Refused w (process_fetch_group_keys w c group)
  unfolding process_fetch_group_keys are_refusals
  outsider_fetches group h = ground (arith, h, quiet)

-- Requests about one conversation; each names it.
pub data ConversationRequest : Type 0 where
  invite_to : ℕ → List ℕ → ConversationRequest
  leave_from : ℕ → ConversationRequest
  kick_from : ℕ → ℕ → ConversationRequest
  ask_about : ℕ → ConversationRequest
  send_to : SendRequest → Text → ConversationRequest
  read_from : PageRequest → ConversationRequest
  set_for : PrefsRequest → ConversationRequest
  fetch_for : ℕ → ConversationRequest

unfoldable pub conversation_of : ConversationRequest → ℕ
conversation_of (invite_to g users) = g
conversation_of (leave_from g) = g
conversation_of (kick_from g target) = g
conversation_of (ask_about g) = g
conversation_of (send_to r client) = r.conversation
conversation_of (read_from r) = r.conversation
conversation_of (set_for r) = r.conversation
conversation_of (fetch_for g) = g

unfoldable pub serve : Format → World → Call → ConversationRequest → World
serve f w c (invite_to g users) = process_invite_group_members f.json w c g users
serve f w c (leave_from g) = process_leave_group f.json w c g
serve f w c (kick_from g target) = process_kick_group_member f.json w c g target
serve f w c (ask_about g) = process_get_group_info w c g
serve f w c (send_to r client) = process_send_group_message f w c r client
serve f w c (read_from r) = process_sync_messages w c r
serve f w c (set_for r) = process_set_conversation_prefs f w c r
serve f w c (fetch_for g) = process_fetch_group_keys w c g

-- A user who is not a member of a conversation can neither change nor see it. Any of the eight requests
-- that name a conversation (invite, leave, remove, group info, group message, read messages, set
-- preferences, fetch its key bundles) leaves the whole database as it was, and every answer to it names an error and carries
-- no data; nothing else is sent to anyone.
pub serve_outsider :
    (f : Format) (w : World) (c : Call) (r : ConversationRequest)
    → w.sent ≡ []
    → is_conversation_member w.db (conversation_of r) w.conn.user ≡ false
    → Refused w (serve f w c r)
unfolding serve conversation_of
serve_outsider f w c (invite_to g users) q h = outsider_invites f w c q g users h
serve_outsider f w c (leave_from g) q h = outsider_leaves f w c q g h
serve_outsider f w c (kick_from g target) q h = outsider_kicks f w c q g target h
serve_outsider f w c (ask_about g) q h = outsider_asks f w c q g h
serve_outsider f w c (send_to r client) q h = outsider_sends f w c q r client h
serve_outsider f w c (read_from r) q h = outsider_reads f w c q r h
serve_outsider f w c (set_for r) q h = outsider_sets f w c q r h
serve_outsider f w c (fetch_for g) q h = outsider_fetches f w c q g h

-- Nor can such a user acknowledge its messages: the database stays, and the answer refuses.
pub process_ack_message_outsider :
    (json : Note → Text) (w : World) (c : Call) (r : AckRequest) (m : Message)
    → w.sent ≡ []
    → get_message w.db r.message ≡ some m
    → is_conversation_member w.db m.conversation w.conn.user ≡ false
    → Refused w (process_ack_message json w c r)
unfolding process_ack_message are_refusals
process_ack_message_outsider json w c r m q e h = ground (arith, q, e, h)
