-- ===== src/Handler/Messages/Private.antt =====
-- A private message and the prekeys of its envelope.
use xlchat_project.Common.{
  ℕ, ◌≡◌, ◌⊎◌, inl, inr, sym, subst, ◌∙◌, true, false, none, some, List, [], ◌∷◌, ◌++◌, Text,
  Option-cases, arith,
}
use xlchat_project.Envelope.{EnvelopeEntry, decode_envelope}
use xlchat_project.Database.{Db, Message, Prekey, used}
use xlchat_project.Database.Events.{append_sync_event}
use xlchat_project.Database.Messages.{
  Draft, new_message, insert_message, get_or_create_private_conversation, create_private,
  get_message_by_client_key,
}
use xlchat_project.Database.Groups.{insert_member}
use xlchat_project.Database.Prekeys.{consume_rows, consume_prekeys}
use xlchat_project.Handler.{World}
use xlchat_project.Handler.Login.{Call}
use xlchat_project.Handler.Messages.{
  Format, SendRequest, vet_entries, draft_of, deliver, store_private, post_private, send_private,
}

-- The tables that a send decides by.
abbrev SameStock : Db → Db → Type 0
SameStock a b =
    (a.messages ≡ b.messages)
    × (a.prekeys ≡ b.prekeys)
    × (a.available ≡ b.available)
    × (a.next_message ≡ b.next_message)

get_or_create_same :
    (db : Db) (user other now : ℕ)
    → SameStock (get_or_create_private_conversation db user other now).0 db
unfolding get_or_create_private_conversation create_private insert_member
get_or_create_same db user other now = ground arith

deliver_same :
    (f : Format) (id : ℕ) (d : Draft) (target : ℕ) (c : Call) (w : World)
    → SameStock (deliver f id d target c w).db w.db
unfolding deliver append_sync_event
deliver_same f id d target c w = ground arith

store_private_parts :
    (f : Format) (w : World) (c : Call) (r : SendRequest) (client : Text) (ids : List ℕ)
    (conversation : ℕ)
    → get_message_by_client_key w.db w.conn.user w.conn.device client ≡ none
    → let done = store_private f w c r client ids conversation in
      (done.conn ≡ w.conn)
      × (done.db.available ≡ w.db.available)
      × (((done.db.messages ≡ w.db.messages) × (done.db.prekeys ≡ w.db.prekeys))
          ⊎ ((w.db.available ≡ true)
              × (done.db.messages
                  ≡ w.db.messages
                    ++ new_message w.db.next_message (draft_of w conversation r client) c.now ∷ [])
              × (done.db.prekeys ≡ (consume_rows w.db.prekeys ids).0)))
unfolding store_private xlchat_project.Database.Messages.send_message insert_message consume_prekeys
store_private_parts f w c r client ids conversation free =
    let d = draft_of w conversation r client in
    let stored = xlchat_project.Database.Messages.send_message w.db d c.now in
    ground (
      arith,
      free,
      deliver_same f w.db.next_message d r.to_user c
          (record w { db = (consume_prekeys stored.0 ids).0 }),
    )

-- What an accepted message does to both tables.
abbrev pub Stored : Format → World → Call → SendRequest → Text → World → Type 0
Stored f w c r client done =
    (entries : List EnvelopeEntry) × (k : ℕ) × (ids : List ℕ) × (conversation : ℕ)
    × (decode_envelope f.decode64 (f.read_envelope r.content) ≡ some entries)
    × (vet_entries entries w.db w.conn.device r.to_user [] false ≡ some (k ∷ ids))
    × (w.db.available ≡ true)
    × (done.db.messages
        ≡ w.db.messages
          ++ new_message w.db.next_message (draft_of w conversation r client) c.now ∷ [])
    × (done.db.prekeys ≡ (consume_rows w.db.prekeys (k ∷ ids)).0)

abbrev pub Kept : World → World → Type 0
Kept w done = (done.db.messages ≡ w.db.messages) × (done.db.prekeys ≡ w.db.prekeys)

abbrev pub Atomic : Format → World → Call → SendRequest → Text → World → Type 0
Atomic f w c r client done =
    (done.conn ≡ w.conn)
    × (done.db.available ≡ w.db.available)
    × (Kept w done ⊎ Stored f w c r client done)

free_still :
    (db : Db) (user other now sender : ℕ) (device client : Text)
    → get_message_by_client_key
        (get_or_create_private_conversation db user other now).0
        sender
        device
        client
      ≡ get_message_by_client_key db sender device client
unfolding get_message_by_client_key get_or_create_private_conversation create_private insert_member
free_still db user other now sender device client = ground arith

post_private_parts :
    (f : Format) (w : World) (c : Call) (r : SendRequest) (client : Text)
    (entries : List EnvelopeEntry) (ids : List ℕ)
    → get_message_by_client_key w.db w.conn.user w.conn.device client ≡ none
    → decode_envelope f.decode64 (f.read_envelope r.content) ≡ some entries
    → vet_entries entries w.db w.conn.device r.to_user [] false ≡ some ids
    → let done = post_private f w c r client ids in
      (done.conn ≡ w.conn)
      × (done.db.available ≡ w.db.available)
      × (Kept w done ⊎ Stored f w c r client done)
unfolding post_private
post_private_parts f w c r client entries [] free d v = ground arith
post_private_parts f w c r client entries (k ∷ ids) free d v =
    let found = get_or_create_private_conversation w.db w.conn.user r.to_user c.now in
    let same = get_or_create_same w.db w.conn.user r.to_user c.now in
    elim (Option-cases found.1) [
      | inl e ↦ ground (arith, e, same)
      | inr (conversation, e) ↦
          let w' : World = record w { db = found.0 } in
          let done = post_private f w c r client (k ∷ ids) in
          let step : done ≡ store_private f w' c r client (k ∷ ids) conversation =
            ground (arith, e) in
          let parts =
            store_private_parts f w' c r client (k ∷ ids) conversation (
              free_still w.db w.conn.user r.to_user c.now w.conn.user w.conn.device client
              ∙ free) in
          (
            ground (arith, step, parts),
            ground (arith, step, parts, same),
            elim parts.2 [
              | inl x ↦ inl (ground (arith, step, x, same))
              | inr x ↦ inr (
                entries,
                k,
                ids,
                conversation,
                d,
                v,
                ground (arith, x, same),
                ground (arith, step, x, same),
                ground (arith, step, x, same),
              )
            ],
          )
    ]

-- A private message is stored together with the use of its prekeys, or neither happens. Whatever the
-- request, either the messages and the prekeys stay as they are; or one message is added, with the
-- content and key of the request, its envelope decoded to entries that passed every check, at least one
-- of them for a device of the recipient, and the prekeys change exactly as the consumption of the
-- accepted entries' prekeys changes them.
pub send_private-Atomic :
    (f : Format) (w : World) (c : Call) (r : SendRequest) (client : Text)
    → Atomic f w c r client (send_private f w c r client)
unfolding send_private
send_private-Atomic f w c r client =
    elim (Option-cases (get_message_by_client_key w.db w.conn.user w.conn.device client)) [
      | inr (m, e) ↦ ground (arith, e)
      | inl e ↦ elim (Option-cases (decode_envelope f.decode64 (f.read_envelope r.content))) [
        | inl d ↦ ground (arith, e, d)
        | inr (entries, d) ↦
            elim (Option-cases (vet_entries entries w.db w.conn.device r.to_user [] false)) [
              | inl v ↦ ground (arith, e, d, v)
              | inr (ids, v) ↦
                  let done = send_private f w c r client in
                  let post = post_private f w c r client ids in
                  let step : (done ≡ post) ⊎ ((done.db ≡ w.db) × (done.conn ≡ w.conn)) =
                    ground (arith, e, d, v) in
                  elim step [
                    | inl s ↦
                        subst (Atomic f w c r client) (sym s)
                          (post_private_parts f w c r client entries ids e d v)
                    | inr s ↦ ground (arith, s)
                  ]
            ]
      ]
    ]
