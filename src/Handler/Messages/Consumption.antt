-- ===== src/Handler/Messages/Consumption.antt =====
-- What sending a message does to the prekeys.
use xlchat_project.Common.{
  ℕ, ◌≡◌, refl, sym, ap, subst, inl, inr, ◌⊎◌, ◌∙◌, Bool, Bool-cases, true, false, Option-cases,
  List, [], ◌∷◌, ◌==◌, not, length, Text, codes, if◌then◌else◌, arith,
}
use xlchat_project.RateWindow.{allow}
use xlchat_project.Envelope.{decode_envelope}
use xlchat_project.Database.{Db, Prekey}
use xlchat_project.Database.Accounts.{username_by_id}
use xlchat_project.Database.Events.{append_sync_event}
use xlchat_project.Database.Groups.{get_group_member_ids, insert_member}
use xlchat_project.Database.Messages.{
  Draft, get_message_by_client_key, insert_message, get_or_create_private_conversation,
  create_private,
}
use xlchat_project.Database.Prekeys.{consume_rows, consume_prekeys}
use xlchat_project.Handler.{World, message_for_user, emit}
use xlchat_project.Handler.Login.{Call}
use xlchat_project.Handler.Notes.{
  group_notice, message_event, notification, new_message_type, fan_out, append_event,
}
use xlchat_project.Handler.Messages.{
  Format, SendRequest, draft_of, deliver, store_private, post_private, send_private, deliver_group,
  post_group, vet_entries, vet_group_content, process_send_group_message, process_send_message,
}
use xlchat_project.Handler.Messages.Private.{send_private-Atomic}

-- A change that leaves the prekeys, or consumes some.
abbrev pub Consumes : Db → Db → Type 0
Consumes db db' =
    (db'.next_prekey ≡ db.next_prekey)
    × ((db'.prekeys ≡ db.prekeys)
        ⊎ ((ids : List ℕ) × (db'.prekeys ≡ (consume_rows db.prekeys ids).0)))

get_or_create_next :
    (db : Db) (user other now : ℕ)
    → (get_or_create_private_conversation db user other now).0.next_prekey ≡ db.next_prekey
unfolding get_or_create_private_conversation create_private insert_member
get_or_create_next db user other now = ground arith

store_private_next :
    (f : Format) (w : World) (c : Call) (r : SendRequest) (client : Text) (ids : List ℕ) (v : ℕ)
    → (store_private f w c r client ids v).db.next_prekey ≡ w.db.next_prekey
unfolding store_private deliver append_sync_event xlchat_project.Database.Messages.send_message
    insert_message consume_prekeys
store_private_next f w c r client ids v = ground arith

post_private_next :
    (f : Format) (w : World) (c : Call) (r : SendRequest) (client : Text) (ids : List ℕ)
    → (post_private f w c r client ids).db.next_prekey ≡ w.db.next_prekey
unfolding post_private
post_private_next f w c r client [] = refl
post_private_next f w c r client (k ∷ ids) =
    let found = get_or_create_private_conversation w.db w.conn.user r.to_user c.now in
    let same = get_or_create_next w.db w.conn.user r.to_user c.now in
    elim (Option-cases found.1) [
      | inl e ↦ ground (arith, e, same)
      | inr (v, e) ↦
          ground (
            arith,
            e,
            same,
            store_private_next f (record w { db = found.0 }) c r client (k ∷ ids) v,
          )
    ]

pub send_private_next :
    (f : Format) (w : World) (c : Call) (r : SendRequest) (client : Text)
    → (send_private f w c r client).db.next_prekey ≡ w.db.next_prekey
unfolding send_private
send_private_next f w c r client =
    elim (Option-cases (decode_envelope f.decode64 (f.read_envelope r.content))) [
      | inl d ↦ ground (arith, d)
      | inr (entries, d) ↦
          elim (Option-cases (vet_entries entries w.db w.conn.device r.to_user [] false)) [
            | inl v ↦ ground (arith, d, v)
            | inr (ids, v) ↦ ground (arith, d, v, post_private_next f w c r client ids)
          ]
    ]

send_private-Consumes :
    (f : Format) (w : World) (c : Call) (r : SendRequest) (client : Text)
    → Consumes w.db (send_private f w c r client).db
send_private-Consumes f w c r client = (
  send_private_next f w c r client,
  elim (send_private-Atomic f w c r client).2 [
    | inl kept ↦ inl kept.1
    | inr (entries, k, ids, v, e, a, on, stored, spent) ↦ inr (k ∷ ids, spent)
  ],
)

fan_out_prekeys :
    (users : List ℕ) (pushes : ℕ → Bool) (event_type payload : Text) (packet : List ℕ) (now : ℕ)
    (w : World)
    → let done = fan_out users pushes event_type payload packet now w in
      (done.db.prekeys ≡ w.db.prekeys) × (done.db.next_prekey ≡ w.db.next_prekey)
unfolding fan_out append_sync_event
fan_out_prekeys [] pushes event_type payload packet now w = ground arith
fan_out_prekeys (u ∷ us) pushes event_type payload packet now w =
    let noted = append_event u event_type payload now w in
    let pushed : World = if pushes u then emit (message_for_user u packet) noted else noted in
    ground (arith, fan_out_prekeys us pushes event_type payload packet now pushed)

deliver_group_prekeys :
    (f : Format) (id : ℕ) (d : Draft) (c : Call) (w : World)
    → let done = deliver_group f id d c w in
      (done.db.prekeys ≡ w.db.prekeys) × (done.db.next_prekey ≡ w.db.next_prekey)
unfolding deliver_group
deliver_group_prekeys f id d c w =
    let packet =
      notification new_message_type
        (f.json (group_notice id d c.now (username_by_id w.db d.sender))) in
    fan_out_prekeys (get_group_member_ids w.db d.conversation) (λ u. not (u == d.sender))
      (codes "message") (f.json (message_event id d c.now)) packet c.now w

sent_prekeys :
    (db : Db) (d : Draft) (now : ℕ)
    → let stored = xlchat_project.Database.Messages.send_message db d now in
      (stored.0.prekeys ≡ db.prekeys) × (stored.0.next_prekey ≡ db.next_prekey)
unfolding xlchat_project.Database.Messages.send_message insert_message
sent_prekeys db d now = ground arith

consume_prekeys-Consumes : (db : Db) (ids : List ℕ) → Consumes db (consume_prekeys db ids).0
unfolding consume_prekeys
consume_prekeys-Consumes db ids = elim (Bool-cases db.available) [
  | inl on ↦ (ground (arith, on), inr (ids, ground (arith, on)))
  | inr off ↦ (ground (arith, off), inl (ground (arith, off)))
]

Consumes-same :
    (a b a' b' : Db)
    → b.prekeys ≡ a.prekeys
    → b.next_prekey ≡ a.next_prekey
    → b'.prekeys ≡ a'.prekeys
    → b'.next_prekey ≡ a'.next_prekey
    → Consumes a a'
    → Consumes b b'
Consumes-same a b a' b' p n p' n' (m, inl e) =
    (ground (arith, n, n', m), inl (ground (arith, p, p', e)))
Consumes-same a b a' b' p n p' n' (m, inr (ids, e)) =
    (ground (arith, n, n', m), inr (ids, ground (arith, p, p', e)))

used-Consumes :
    (b : Bool) (db : Db) (ids : List ℕ) → Consumes db (if b then db else (consume_prekeys db ids).0)
used-Consumes true db ids = (refl, inl refl)
used-Consumes false db ids = consume_prekeys-Consumes db ids

post_group-Consumes :
    (f : Format) (w : World) (c : Call) (r : SendRequest) (client : Text) (ids : List ℕ)
    → Consumes w.db (post_group f w c r client ids).db
unfolding post_group
post_group-Consumes f w c r client ids =
    let d = draft_of w r.conversation r client in
    let stored = xlchat_project.Database.Messages.send_message w.db d c.now in
    let s = sent_prekeys w.db d c.now in
    let used = if length ids == 0 then stored.0 else (consume_prekeys stored.0 ids).0 in
    let u : Consumes stored.0 used = used-Consumes (length ids == 0) stored.0 ids in
    elim (Option-cases (get_message_by_client_key w.db w.conn.user w.conn.device client)) [
      | inr (m, e) ↦ (ground (arith, e), inl (ground (arith, e)))
      | inl e ↦ elim (Option-cases stored.1) [
        | inl x ↦ (ground (arith, e, x, s), inl (ground (arith, e, x, s)))
        | inr (id, x) ↦
            let k = deliver_group_prekeys f id d c (record w { db = used }) in
            Consumes-same stored.0 w.db used (post_group f w c r client ids).db (sym s.0) (sym s.1)
              (ground (arith, e, x, k)) (ground (arith, e, x, k)) u
      ]
    ]

-- A group message is refused, or posted with the prekeys of its content.
send_group_cases :
    (f : Format) (w : World) (c : Call) (r : SendRequest) (client : Text)
    → let done = process_send_group_message f w c r client in
      (done.db ≡ w.db) ⊎ ((ids : List ℕ) × (done ≡ post_group f w c r client ids))
unfolding process_send_group_message
send_group_cases f w c r client = elim (Option-cases (vet_group_content f r.conversation r)) [
  | inl v ↦ inl (ground (arith, v))
  | inr (ids, v) ↦
      let done = process_send_group_message f w c r client in
      let one : (done.db ≡ w.db) ⊎ (done ≡ post_group f w c r client ids) = ground (arith, v) in
      elim one [ inl e ↦ inl e | inr e ↦ inr (ids, e) ]
]

-- Sending a message leaves the prekeys, or consumes some.
pub process_send_message-Consumes :
    (f : Format) (w : World) (c : Call) (r : SendRequest)
    → Consumes w.db (process_send_message f w c r).db
unfolding process_send_message
process_send_message-Consumes f w c r =
    let done = process_send_message f w c r in
    let client = f.trim r.client_id in
    let w' : World = record w {
      conn = record w.conn { send_window = (allow w.conn.send_window c.now).0 };
    } in
    let cases : (done.db ≡ w.db)
        ⊎ (done ≡ process_send_group_message f w' c r client)
        ⊎ (done ≡ send_private f w' c r client) =
      ground arith in
    elim cases [
      | inl e ↦ subst (Consumes w.db) (sym e) (refl, inl refl)
      | inr (inl e) ↦ elim (send_group_cases f w' c r client) [
        | inl x ↦
            subst (Consumes w.db) (ap (λ y. y.db) (sym e))
              (subst (Consumes w.db) (sym x) (refl, inl refl))
        | inr (ids, x) ↦
            subst (λ (y : World). Consumes w.db y.db) (sym (e ∙ x))
              (post_group-Consumes f w' c r client ids)
      ]
      | inr (inr e) ↦
          subst (λ (y : World). Consumes w.db y.db) (sym e) (send_private-Consumes f w' c r client)
    ]
