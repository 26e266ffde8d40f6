-- ===== src/Database/Messages/Keys.antt =====
-- Messages and their idempotency keys: the table as a map from keys to ids.
pub mod Steps
pub mod Runs
use xlchat_project.Common.{
  ℕ, zero, suc, ◌+◌, ◌≤◌, ◌<◌, ◌≡◌, ◌≢◌, refl, sym, ap, ◌∙◌, inl, inr, Bool, true, false, not, ◌&&◌,
  ◌||◌, Option, none, some, List, [], ◌∷◌, ◌++◌, ◌==◌, if◌then◌else◌, Text, text_eq, text_eq_iff,
  is_empty, find_row, has_row, update_rows, arith, Option-cases, Bool-cases,
}
use xlchat_project.Database.{Db, Message, MessageStatus, Receipt}
use xlchat_project.Database.Messages.{
  has_key, get_message_by_client_key, Draft, new_message, insert_message, send_message,
  update_message_status, edit_message, delete_message, is_editable,
}
use xlchat_project.Database.Receipts.{record_message_receipt, is_receipt, stamp_receipt}

unfoldable pub id_of : Option Message → Option ℕ
id_of none = none
id_of (some m) = some m.id

-- The id on record for a key.
unfoldable pub key_of : Db → ℕ → Text → Text → Option ℕ
unfolding id_of
key_of db sender device key = id_of (get_message_by_client_key db sender device key)

-- The draft carries this key. A key without a device or without a client id is none.
abbrev pub carries : Draft → ℕ → Text → Text → Bool
carries d sender device key =
    d.sender == sender
    && ((not (is_empty d.device) && text_eq d.device device)
        && (not (is_empty d.client_id) && text_eq d.client_id key))

-- The calls on the table, each with its time.
pub data MessageCall : Type 0 where
  send : Draft → ℕ → MessageCall
  edit : ℕ → Text → Text → ℕ → MessageCall
  delete : ℕ → MessageCall
  set_status : ℕ → MessageStatus → MessageCall
  receive : ℕ → ℕ → Text → Bool → ℕ → MessageCall

unfoldable pub call : MessageCall → Db → Db
call (send d now) db = (send_message db d now).0
call (edit id content content_type now) db = (edit_message db id content content_type now).0
call (delete id) db = (delete_message db id).0
call (set_status id status) db = update_message_status db id status
call (receive message user device is_read now) db =
    (record_message_receipt db message user device is_read now).0

unfoldable pub run : List MessageCall → Db → Db
run [] db = db
run (c ∷ cs) db = run cs (call c db)

-- What the sends of a run answer.
unfoldable pub answers : List MessageCall → Db → List (Option ℕ)
answers [] db = []
answers (send d now ∷ cs) db = (send_message db d now).1 ∷ answers cs (send_message db d now).0
answers (edit id content content_type now ∷ cs) db =
    answers cs (edit_message db id content content_type now).0
answers (delete id ∷ cs) db = answers cs (delete_message db id).0
answers (set_status id status ∷ cs) db = answers cs (update_message_status db id status)
answers (receive message user device is_read now ∷ cs) db =
    answers cs (record_message_receipt db message user device is_read now).0

-- What is promised: keys are bound to ids once, in the order of their first acceptance.
pub record Outbox : Type 0 where
  pub next : ℕ
  pub ids : ℕ → Text → Text → Option ℕ

abbrev pub bind : Draft → Outbox → Outbox
bind d o = record {
  next = suc o.next;
  ids = λ s e k. if carries d s e k then some o.next else o.ids s e k;
}

-- `accepts` says for which drafts the sender and the conversation exist.
unfoldable pub submit : (Draft → Bool) → Draft → Outbox → Outbox × Option ℕ
submit accepts d o = elim (o.ids d.sender d.device d.client_id) [
  | some id ↦ (o, some id)
  | none ↦ if accepts d then (bind d o, some o.next) else (o, none)
]

unfoldable pub replay : (Draft → Bool) → List MessageCall → Outbox → Outbox
replay accepts [] o = o
replay accepts (send d now ∷ cs) o = replay accepts cs (submit accepts d o).0
replay accepts (edit id content content_type now ∷ cs) o = replay accepts cs o
replay accepts (delete id ∷ cs) o = replay accepts cs o
replay accepts (set_status id status ∷ cs) o = replay accepts cs o
replay accepts (receive message user device is_read now ∷ cs) o = replay accepts cs o

unfoldable pub promised : (Draft → Bool) → List MessageCall → Outbox → List (Option ℕ)
promised accepts [] o = []
promised accepts (send d now ∷ cs) o =
    (submit accepts d o).1 ∷ promised accepts cs (submit accepts d o).0
promised accepts (edit id content content_type now ∷ cs) o = promised accepts cs o
promised accepts (delete id ∷ cs) o = promised accepts cs o
promised accepts (set_status id status ∷ cs) o = promised accepts cs o
promised accepts (receive message user device is_read now ∷ cs) o = promised accepts cs o

-- The database refines the outbox.
pub record Refines (accepts : Draft → Bool) (db : Db) (o : Outbox) : Type 0 where
  pub counter : db.next_message ≡ o.next
  pub bindings : (s : ℕ) (e k : Text) → key_of db s e k ≡ o.ids s e k
  pub checks :
      (d : Draft)
      → accepts d ≡ (
          db.available
          && (has_row (λ c. c.id == d.conversation) db.conversations
              && has_row (λ u. u.id == d.sender) db.users))
