-- ===== src/Handler/Contacts.antt =====
-- RequestHandler.cpp: processAddContactRequest and processGetContactsRequest.
use xlchat_project.Common.{ℕ, not, ◌||◌, ◌==◌, if◌then◌else◌, Text, codes, has_row}
use xlchat_project.Handler.{
  ok, cannot_send_to_self, contact_already_exists, internal_error, add_contact, get_contacts,
  response_to, contact_added, contact_list, respond, World, emit, reply,
}
use xlchat_project.Handler.Login.{Call}
use xlchat_project.Handler.Notes.{Note, contact_event, append_event}

unfoldable pub process_add_contact : (Note → Text) → World → Call → ℕ → World
process_add_contact json w c other =
    let user = w.conn.user in
    let listed = xlchat_project.Database.Contacts.get_contacts w.db user in
    let added = xlchat_project.Database.Contacts.add_contact w.db user other c.now in
    let w' : World = record w { db = added.0 } in
    if other == 0 || other == user
    then reply c.request_id add_contact cannot_send_to_self w
    else if has_row (λ x. x.contact_user == other) listed
    then reply c.request_id add_contact contact_already_exists w
    else if not added.1
    then reply c.request_id add_contact internal_error w'
    else emit (respond c.request_id (response_to add_contact) ok (contact_added other)) (
        append_event other (codes "contact_added") (json (contact_event user)) c.now
          (append_event user (codes "contact_added") (json (contact_event other)) c.now w'))

unfoldable pub process_get_contacts : World → Call → World
process_get_contacts w c =
    emit
      (respond c.request_id (response_to get_contacts) ok
        (contact_list (xlchat_project.Database.Contacts.get_contacts w.db w.conn.user)))
      w
