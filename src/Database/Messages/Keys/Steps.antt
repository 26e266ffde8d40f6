-- ===== src/Database/Messages/Keys/Steps.antt =====
-- One call on the messages table, and one step of the outbox.
use xlchat_project.Common.{
  ℕ, suc, ◌≡◌, ◌≢◌, refl, sym, ap, ◌∙◌, inl, inr, Bool, true, false, ◌&&◌, Option, none, some, List,
  [], ◌∷◌, ◌++◌, ◌==◌, if◌then◌else◌, Text, text_eq_iff, is_empty, find_row, has_row, update_rows,
  arith, Option-cases, Bool-cases,
}
use xlchat_project.Database.{Db, Message, MessageStatus, Receipt}
use xlchat_project.Database.Messages.{
  has_key, get_message_by_client_key, Draft, new_message, insert_message, send_message,
  update_message_status, edit_message, delete_message, is_editable,
}
use xlchat_project.Database.Receipts.{record_message_receipt, is_receipt, stamp_receipt}
use xlchat_project.Database.Messages.Keys.{id_of, key_of, carries, bind, submit, Outbox, Refines}

find_row-snoc :
    (p : Message → Bool) (ms : List Message) (m : Message)
    → id_of (find_row p (ms ++ m ∷ [])) ≡ elim (find_row p ms) as (λ x. Option ℕ) [
      | none ↦ if p m then some m.id else none
      | some n ↦ some n.id
    ]
unfolding find_row id_of
find_row-snoc p [] m = ground arith
find_row-snoc p (n ∷ ms) m = ground (arith, find_row-snoc p ms m)

has_find : (p : Message → Bool) (ms : List Message) → has_row p ms ≡ true → find_row p ms ≢ none
unfolding has_row find_row
has_find p [] h = λ e. cc
has_find p (n ∷ ms) h = ground (arith, has_find p ms)

-- An update that keeps ids and keys.
find_row-update_rows :
    (p q : Message → Bool) (f : Message → Message) (ms : List Message)
    → ((m : Message) → (p (f m) ≡ p m) × ((f m).id ≡ m.id))
    → id_of (find_row p (update_rows q f ms)) ≡ id_of (find_row p ms)
unfolding find_row id_of update_rows
find_row-update_rows p q f [] h = refl
find_row-update_rows p q f (m ∷ ms) h = elim (Bool-cases (q m)) [
  | inl e ↦ rw e (ground (arith, h m, find_row-update_rows p q f ms h))
  | inr e ↦ rw e (ground (arith, find_row-update_rows p q f ms h))
]

-- The key that a draft carries, where another one equals it.
same_key :
    (db : Db) (d : Draft) (s : ℕ) (e k : Text)
    → carries d s e k ≡ true
    → get_message_by_client_key db s e k
      ≡ get_message_by_client_key db d.sender d.device d.client_id
same_key db d s e k h =
    let x : s ≡ d.sender = ground arith in
    let y : e ≡ d.device = ground (arith, text_eq_iff d.device e) in
    let z : k ≡ d.client_id = ground (arith, text_eq_iff d.client_id k) in rw (x, y, z)

key_of-insert :
    (db : Db) (d : Draft) (now s : ℕ) (e k : Text)
    → db.available ≡ true
    → get_message_by_client_key db d.sender d.device d.client_id ≡ none
    → key_of
        (record db {
          messages = db.messages ++ new_message db.next_message d now ∷ [];
          next_message = suc db.next_message;
        })
        s
        e
        k
      ≡ (if carries d s e k then some db.next_message else key_of db s e k)
unfolding key_of get_message_by_client_key id_of
key_of-insert db d now s e k on free = ground (
  arith,
  text_eq_iff d.client_id k,
  find_row-snoc (has_key s e k) db.messages (new_message db.next_message d now),
  same_key db d s e k,
)

-- A draft that is refused for its key finds that key.
dup_found :
    (db : Db) (d : Draft)
    → db.available ≡ true
    → is_empty d.client_id ≡ false
    → has_row (has_key d.sender d.device d.client_id) db.messages ≡ true
    → get_message_by_client_key db d.sender d.device d.client_id ≢ none
unfolding get_message_by_client_key
dup_found db d on ne h =
    ground (arith, has_find (has_key d.sender d.device d.client_id) db.messages h)

insert_message_fresh :
    (db : Db) (d : Draft) (now : ℕ)
    → get_message_by_client_key db d.sender d.device d.client_id ≡ none
    → insert_message db d now ≡ (
        if db.available
          && (has_row (λ c. c.id == d.conversation) db.conversations
              && has_row (λ u. u.id == d.sender) db.users)
        then (
          record db {
            messages = db.messages ++ new_message db.next_message d now ∷ [];
            next_message = suc db.next_message;
          },
          some db.next_message,
        )
        else (db, none))
unfolding insert_message
insert_message_fresh db d now free = ground (arith, dup_found db d)

send_known :
    (db : Db) (d : Draft) (now : ℕ) (m : Message)
    → get_message_by_client_key db d.sender d.device d.client_id ≡ some m
    → send_message db d now ≡ (db, some m.id)
unfolding send_message
send_known db d now m e = ground arith

send_new :
    (db : Db) (d : Draft) (now : ℕ)
    → get_message_by_client_key db d.sender d.device d.client_id ≡ none
    → send_message db d now ≡ insert_message db d now
unfolding send_message
send_new db d now e = ground arith

submit_known :
    (accepts : Draft → Bool) (d : Draft) (o : Outbox) (id : ℕ)
    → o.ids d.sender d.device d.client_id ≡ some id
    → submit accepts d o ≡ (o, some id)
unfolding submit
submit_known accepts d o id e = ground arith

submit_new :
    (accepts : Draft → Bool) (d : Draft) (o : Outbox)
    → o.ids d.sender d.device d.client_id ≡ none
    → submit accepts d o ≡ (if accepts d then (bind d o, some o.next) else (o, none))
unfolding submit
submit_new accepts d o e = ground arith

module _ (accepts : Draft → Bool) (db : Db) (o : Outbox) (r : Refines accepts db o) where
  accepted :
      (d : Draft) (now : ℕ)
      → db.available ≡ true
      → get_message_by_client_key db d.sender d.device d.client_id ≡ none
      → Refines accepts
          (record db {
            messages = db.messages ++ new_message db.next_message d now ∷ [];
            next_message = suc db.next_message;
          })
          (bind d o)
  accepted d now on free = record {
    counter = ap suc r.counter;
    bindings =
        λ s e k. ground (arith, key_of-insert db d now s e k on free, r.bindings s e k, r.counter);
    checks = r.checks;
  }

  send_new-Refines :
      (d : Draft) (now : ℕ)
      → get_message_by_client_key db d.sender d.device d.client_id ≡ none
      → Refines accepts (send_message db d now).0 (submit accepts d o).0
        × ((send_message db d now).1 ≡ (submit accepts d o).1)
  unfolding key_of id_of
  send_new-Refines d now free =
      let unbound : o.ids d.sender d.device d.client_id ≡ none =
        ground (arith, r.bindings d.sender d.device d.client_id) in
      rw
        (send_new db d now free, insert_message_fresh db d now free, submit_new accepts d o unbound)
        (elim (Bool-cases (accepts d)) [
          | inl yep ↦
              rw (sym (r.checks d), yep)
                (accepted d now (ground (arith, r.checks d)) free, ap some r.counter)
          | inr nope ↦ rw (sym (r.checks d), nope) (r, refl)
        ])

  -- One send, in both.
  pub send_message-Refines :
      (d : Draft) (now : ℕ)
      → Refines accepts (send_message db d now).0 (submit accepts d o).0
        × ((send_message db d now).1 ≡ (submit accepts d o).1)
  unfolding key_of id_of
  send_message-Refines d now =
      elim (Option-cases (get_message_by_client_key db d.sender d.device d.client_id)) [
        | inl free ↦ send_new-Refines d now free
        | inr (m, found) ↦
            let bound : o.ids d.sender d.device d.client_id ≡ some m.id =
              ground (arith, r.bindings d.sender d.device d.client_id) in
            rw (send_known db d now m found, submit_known accepts d o m.id bound) (r, refl)
      ]

  kept :
      (q : Message → Bool) (f : Message → Message)
      → ((s : ℕ) (e k : Text) (m : Message)
          → (has_key s e k (f m) ≡ has_key s e k m) × ((f m).id ≡ m.id))
      → Refines accepts (record db { messages = update_rows q f db.messages }) o
  unfolding key_of get_message_by_client_key id_of
  kept q f h = record {
    counter = r.counter;
    bindings = λ s e k. kept_key s e k ∙ r.bindings s e k;
    checks = r.checks;
  }
    where
      kept_key :
          (s : ℕ) (e k : Text)
          → key_of (record db { messages = update_rows q f db.messages }) s e k ≡ key_of db s e k
      kept_key s e k =
          ground (arith, find_row-update_rows (has_key s e k) q f db.messages (h s e k))

  pub edit_Refines :
      (id : ℕ) (content content_type : Text) (now : ℕ)
      → Refines accepts (edit_message db id content content_type now).0 o
  unfolding edit_message
  edit_Refines id content content_type now = ground (
    arith,
    r,
    kept (is_editable id)
        (λ m. record m { content = content; content_type = content_type; edited_at = some now })
        (λ s e k m. (refl, refl)),
  )

  pub delete_Refines : (id : ℕ) → Refines accepts (delete_message db id).0 o
  unfolding delete_message
  delete_Refines id = ground (
    arith,
    r,
    kept (λ m. m.id == id) (λ m. record m { deleted = true; content = [] })
        (λ s e k m. (refl, refl)),
  )

  pub set_status_Refines :
      (id : ℕ) (status : MessageStatus) → Refines accepts (update_message_status db id status) o
  unfolding update_message_status
  set_status_Refines id status = ground (
    arith,
    r,
    kept (λ m. m.id == id) (λ m. record m { status = status }) (λ s e k m. (refl, refl)),
  )

  with_receipts : (rs : List Receipt) → Refines accepts (record db { receipts = rs }) o
  unfolding key_of get_message_by_client_key
  with_receipts rs = record { counter = r.counter; bindings = r.bindings; checks = r.checks }

  pub receive_Refines :
      (message user : ℕ) (device : Text) (is_read : Bool) (now : ℕ)
      → Refines accepts (record_message_receipt db message user device is_read now).0 o
  unfolding record_message_receipt
  receive_Refines message user device is_read now = ground (
    arith,
    r,
    with_receipts
        (update_rows (is_receipt message user device) (stamp_receipt is_read now) db.receipts),
    with_receipts (
        db.receipts
        ++ record {
          message = message;
          user = user;
          device = device;
          delivered_at = some now;
          read_at = if is_read then some now else none;
        }
          ∷ []),
  )
