-- ===== src/Database/Messages/Keys/Runs.antt =====
-- Sequences of calls on the messages table, and retries of a send.
use xlchat_project.Common.{
  ℕ, ◌≡◌, refl, sym, ◌∙◌, Bool, false, ◌&&◌, some, List, [], ◌∷◌, ◌==◌, Text, text_eq_iff, is_empty,
  has_row, arith,
}
use xlchat_project.Database.{Db}
use xlchat_project.Database.Messages.{
  Draft, send_message, update_message_status, edit_message, delete_message,
}
use xlchat_project.Database.Receipts.{record_message_receipt}
use xlchat_project.Database.Messages.Keys.{
  id_of, key_of, MessageCall, send, edit, delete, set_status, receive, call, run, answers, Outbox,
  submit, replay, promised, Refines,
}
use xlchat_project.Database.Messages.Keys.Steps.{
  send_message-Refines, edit_Refines, delete_Refines, set_status_Refines, receive_Refines,
}

after_run-Refines :
    (accepts : Draft → Bool) (cs : List MessageCall) (db : Db) (o : Outbox)
    → Refines accepts db o
    → Refines accepts (run cs db) (replay accepts cs o)
unfolding run replay call
after_run-Refines accepts [] db o r = r
after_run-Refines accepts (send d now ∷ cs) db o r =
    after_run-Refines accepts cs (send_message db d now).0 (submit accepts d o).0
      (send_message-Refines accepts db o r d now).0
after_run-Refines accepts (edit id content content_type now ∷ cs) db o r =
    after_run-Refines accepts cs (edit_message db id content content_type now).0 o
      (edit_Refines accepts db o r id content content_type now)
after_run-Refines accepts (delete id ∷ cs) db o r =
    after_run-Refines accepts cs (delete_message db id).0 o (delete_Refines accepts db o r id)
after_run-Refines accepts (set_status id status ∷ cs) db o r =
    after_run-Refines accepts cs (update_message_status db id status) o
      (set_status_Refines accepts db o r id status)
after_run-Refines accepts (receive message user device is_read now ∷ cs) db o r =
    after_run-Refines accepts cs (record_message_receipt db message user device is_read now).0 o
      (receive_Refines accepts db o r message user device is_read now)

run_answers :
    (accepts : Draft → Bool) (cs : List MessageCall) (db : Db) (o : Outbox)
    → Refines accepts db o
    → answers cs db ≡ promised accepts cs o
unfolding answers promised
run_answers accepts [] db o r = refl
run_answers accepts (send d now ∷ cs) db o r =
    let first = send_message-Refines accepts db o r d now in
    ground (
      arith,
      first.1,
      run_answers accepts cs (send_message db d now).0 (submit accepts d o).0 first.0,
    )
run_answers accepts (edit id content content_type now ∷ cs) db o r =
    run_answers accepts cs (edit_message db id content content_type now).0 o
      (edit_Refines accepts db o r id content content_type now)
run_answers accepts (delete id ∷ cs) db o r =
    run_answers accepts cs (delete_message db id).0 o (delete_Refines accepts db o r id)
run_answers accepts (set_status id status ∷ cs) db o r =
    run_answers accepts cs (update_message_status db id status) o
      (set_status_Refines accepts db o r id status)
run_answers accepts (receive message user device is_read now ∷ cs) db o r =
    run_answers accepts cs (record_message_receipt db message user device is_read now).0 o
      (receive_Refines accepts db o r message user device is_read now)

-- The messages table refines an outbox that binds each key once, to the id of the first message that is
-- accepted under it. From a table that does, any sequence of sends, edits, deletions, status updates and
-- receipts answers every send as the outbox does, and ends in a table that refines the outbox's state.
pub run-Refines :
    (accepts : Draft → Bool) (cs : List MessageCall) (db : Db) (o : Outbox)
    → Refines accepts db o
    → (answers cs db ≡ promised accepts cs o) × Refines accepts (run cs db) (replay accepts cs o)
run-Refines accepts cs db o r = (run_answers accepts cs db o r, after_run-Refines accepts cs db o r)

bound_submit :
    (accepts : Draft → Bool) (d : Draft) (o : Outbox) (s : ℕ) (e k : Text) (id : ℕ)
    → o.ids s e k ≡ some id
    → (submit accepts d o).0.ids s e k ≡ some id
unfolding submit
bound_submit accepts d o s e k id h =
    ground (arith, text_eq_iff d.device e, text_eq_iff d.client_id k)

submit_binds :
    (accepts : Draft → Bool) (d : Draft) (o : Outbox) (id : ℕ)
    → (submit accepts d o).1 ≡ some id
    → is_empty d.device ≡ false
    → is_empty d.client_id ≡ false
    → (submit accepts d o).0.ids d.sender d.device d.client_id ≡ some id
unfolding submit
submit_binds accepts d o id h device key =
    ground (arith, text_eq_iff d.device d.device, text_eq_iff d.client_id d.client_id)

send_bound :
    (db : Db) (d : Draft) (now id : ℕ)
    → key_of db d.sender d.device d.client_id ≡ some id
    → send_message db d now ≡ (db, some id)
unfolding send_message key_of id_of
send_bound db d now id h = ground arith

bound_replay :
    (accepts : Draft → Bool) (cs : List MessageCall) (o : Outbox) (s : ℕ) (e k : Text) (id : ℕ)
    → o.ids s e k ≡ some id
    → (replay accepts cs o).ids s e k ≡ some id
unfolding replay submit
bound_replay accepts [] o s e k id h = h
bound_replay accepts (send d now ∷ cs) o s e k id h =
    bound_replay accepts cs (submit accepts d o).0 s e k id (bound_submit accepts d o s e k id h)
bound_replay accepts (edit i content content_type now ∷ cs) o s e k id h =
    bound_replay accepts cs o s e k id h
bound_replay accepts (delete i ∷ cs) o s e k id h = bound_replay accepts cs o s e k id h
bound_replay accepts (set_status i status ∷ cs) o s e k id h = bound_replay accepts cs o s e k id h
bound_replay accepts (receive message user device is_read now ∷ cs) o s e k id h =
    bound_replay accepts cs o s e k id h

-- A message that was accepted under a key, from a device with a name, is stored once: a retry of it,
-- with whatever content and after whatever calls, answers the first id and changes nothing.
pub send_message_once :
    (db : Db) (d retry : Draft) (now later id : ℕ) (cs : List MessageCall)
    → (send_message db d now).1 ≡ some id
    → is_empty d.device ≡ false
    → is_empty d.client_id ≡ false
    → retry.sender ≡ d.sender
    → retry.device ≡ d.device
    → retry.client_id ≡ d.client_id
    → send_message (run cs (send_message db d now).0) retry later
      ≡ (run cs (send_message db d now).0, some id)
send_message_once db d retry now later id cs e device key same_sender same_device same_id =
    let accepts : Draft → Bool = λ x.
      db.available
      && (has_row (λ c. c.id == x.conversation) db.conversations
          && has_row (λ u. u.id == x.sender) db.users) in
    let o : Outbox = record { next = db.next_message; ids = key_of db } in
    let start : Refines accepts db o = record {
      counter = refl;
      bindings = λ s e k. refl;
      checks = λ x. refl;
    } in
    let first = send_message-Refines accepts db o start d now in
    let then_run =
      after_run-Refines accepts cs (send_message db d now).0 (submit accepts d o).0 first.0 in
    let bound = submit_binds accepts d o id (sym first.1 ∙ e) device key in
    send_bound (run cs (send_message db d now).0) retry later id (
      rw (same_sender, same_device, same_id)
        (then_run.bindings d.sender d.device d.client_id
          ∙ bound_replay accepts cs (submit accepts d o).0 d.sender d.device d.client_id id bound))
