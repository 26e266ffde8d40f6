-- ===== src/Client/Store.antt =====
-- LocalStore.cpp: messages and the cache of decrypted contents.
-- `available` is what ensureUsableDb finds, and a query of a database that is open succeeds.
pub mod Queue
pub mod Content
pub mod Hiding
pub mod Status
mod Tests
use xlchat_project.Common.{
  ℕ, zero, suc, Bool, true, false, not, ◌&&◌, ◌||◌, Option, none, some, List, [], ◌∷◌, ◌++◌, ◌==◌,
  ltb, leb, if◌then◌else◌, Text, codes, text_eq, is_empty, find_row, has_row, update_rows,
  delete_rows,
}
use xlchat_project.Common.Dict.{Dict, nat_eq, lookup, insert, remove}
use xlchat_project.Ratchet.{Bytes, Crypto}
use xlchat_project.Client.{Cipher, encrypt_text, decrypt_text, Root, is_envelope}

pub record MessageRow : Type 0 where
  pub id : ℕ
  pub conversation : ℕ
  pub sender : ℕ
  pub sender_name : Text
  pub content_enc : Cipher
  pub content_type : Text
  pub status : Text
  pub status_rank : ℕ
  pub undecryptable : Bool
  pub client_id : Text
  pub created_at : Text
  pub edited_at : Text
  pub deleted : Bool

pub record OutboxRow : Type 0 where
  pub client_id : Text
  pub to_user : ℕ
  pub content_enc : Cipher
  pub conversation : ℕ

-- An item of the outbox in memory.
pub record OutboxItem : Type 0 where
  pub client_id : Text
  pub to_user : ℕ
  pub conversation : ℕ
  pub content : Text

pub record Store : Type 0 where
  pub available : Bool
  pub key : Bytes
  pub messages : List MessageRow
  pub decrypted : Dict ℕ Cipher
  pub outbox : List OutboxRow

-- The fields of a message's JSON object; a type and a status may be absent.
pub record MessageJson : Type 0 where
  pub id : ℕ
  pub conversation : ℕ
  pub sender : ℕ
  pub sender_name : Text
  pub content : Text
  pub content_type : Option Text
  pub status : Option Text
  pub undecryptable : Bool
  pub client_id : Text
  pub created_at : Text

unfoldable pub status_rank : Text → ℕ
status_rank status =
    if text_eq status (codes "sent")
    then 1
    else if text_eq status (codes "delivered")
    then 2
    else if text_eq status (codes "read")
    then 3
    else 0

abbrev pub or_default : Option Text → Text → Text
or_default none default = default
or_default (some text) default = text

abbrev pub row_with_id : ℕ → MessageRow → Bool
row_with_id id r = r.id == id

abbrev pub is_some {ℓ} : {A : Type ℓ} → Option A → Bool
is_some none = false
is_some (some a) = true

-- The row that the statement inserts.
unfoldable pub new_row : MessageJson → Cipher → Bool → MessageRow
unfolding status_rank
new_row m enc undecryptable = record {
  id = m.id;
  conversation = m.conversation;
  sender = m.sender;
  sender_name = m.sender_name;
  content_enc = enc;
  content_type = or_default m.content_type (codes "text");
  status = or_default m.status (codes "sent");
  status_rank = status_rank (or_default m.status []);
  undecryptable = undecryptable;
  client_id = m.client_id;
  created_at = m.created_at;
  edited_at = [];
  deleted = false;
}

-- ON CONFLICT(message_id) DO UPDATE
unfoldable pub merge_row : MessageRow → MessageRow → MessageRow
merge_row new old =
    let readable = is_some new.content_enc in
    let forward = readable && leb old.status_rank new.status_rank in
    record old {
      conversation = new.conversation;
      sender = new.sender;
      sender_name = new.sender_name;
      content_enc = if readable then new.content_enc else old.content_enc;
      content_type = new.content_type;
      status = if forward then new.status else old.status;
      status_rank = if forward then new.status_rank else old.status_rank;
      undecryptable = if readable then false else old.undecryptable;
      client_id = new.client_id;
      created_at = new.created_at;
    }

unfoldable pub put_row : MessageRow → List MessageRow → List MessageRow
unfolding merge_row
put_row row rows =
    if has_row (row_with_id row.id) rows
    then update_rows (row_with_id row.id) (merge_row row) rows
    else rows ++ row ∷ []

module _ (c : Crypto) where
  -- The readable content of a row.
  unfoldable pub content_of : Bytes → MessageRow → Text
  content_of key r = if r.undecryptable then [] else decrypt_text c key r.content_enc

  unfoldable pub load_message_content : Store → ℕ → Text
  unfolding content_of
  load_message_content s id =
      if not s.available || id == 0
      then []
      else elim (find_row (row_with_id id) s.messages) [ none ↦ [] | some r ↦ content_of s.key r ]

  unfoldable pub load_decrypted_content : Store → ℕ → Text
  load_decrypted_content s id =
      if not s.available || id == 0
      then []
      else elim (lookup id s.decrypted) [ none ↦ [] | some e ↦ decrypt_text c s.key e ]

  unfoldable pub save_decrypted_content : Store → ℕ → Text → Option Bytes → Store × Bool
  save_decrypted_content s id plaintext random =
      if not s.available || (id == 0 || is_empty plaintext)
      then (s, false)
      else elim (encrypt_text c s.key plaintext random) [
        | none ↦ (s, false)
        | some e ↦ (record s { decrypted = insert id (some e) s.decrypted }, true)
      ]

  -- The message with its envelope blanked.
  abbrev pub blanked : (Text → Option Root) → MessageJson → Text
  blanked parse m = if m.undecryptable || is_envelope parse m.content then [] else m.content

  -- upsertMessage behind its checks; `random` and `random2` are the vectors of the two encryptions.
  unfoldable pub write_message :
      Store → MessageJson → Text → Bool → Option Bytes → Option Bytes → Store × Bool
  unfolding put_row save_decrypted_content new_row
  write_message s m content undecryptable random random2 =
      let enc = encrypt_text c s.key content random in
      let written = record s { messages = put_row (new_row m enc undecryptable) s.messages } in
      if is_empty content
      then (record s { messages = put_row (new_row m none undecryptable) s.messages }, true)
      else if is_some enc
      then ((save_decrypted_content written m.id content random2).0, true)
      else (s, false)

  unfoldable pub upsert_message :
      (Text → Option Root) → Store → MessageJson → Option Bytes → Option Bytes → Store × Bool
  unfolding write_message load_message_content
  upsert_message parse s m random random2 =
      let content = blanked parse m in
      let unreadable = m.undecryptable || is_envelope parse m.content in
      if not s.available || (m.id == 0 || m.conversation == 0)
      then (s, false)
      else if is_empty content && not (is_empty (load_message_content s m.id))
      then (s, true)
      else write_message s m content (unreadable && is_empty content) random random2

  unfoldable pub update_message_content : Store → ℕ → Text → Text → Option Bytes → Store × Bool
  update_message_content s id plaintext edited_at random =
      let enc = encrypt_text c s.key plaintext random in
      if not s.available || id == 0
      then (s, false)
      else if not (is_some enc) && not (is_empty plaintext)
      then (s, false)
      else (
        record s {
          messages =
              update_rows (row_with_id id)
                (λ r. record r { content_enc = enc; undecryptable = false; edited_at = edited_at })
                s.messages;
        },
        true,
      )

unfoldable pub store_message_status : Store → ℕ → Text → Store × Bool
store_message_status s id status =
    if not s.available || (id == 0 || is_empty status) then (s, false) else (
      record s {
        messages =
            update_rows (row_with_id id)
              (λ r. record r { status = status; status_rank = status_rank status }) s.messages;
      },
      true,
    )

unfoldable pub mark_message_edited : Store → ℕ → Text → Store × Bool
mark_message_edited s id edited_at = if not s.available || id == 0 then (s, false) else (
  record s {
    messages = update_rows (row_with_id id) (λ r. record r { edited_at = edited_at }) s.messages;
  },
  true,
)

unfoldable pub mark_message_deleted : Store → ℕ → Store × Bool
mark_message_deleted s id = if not s.available || id == 0 then (s, false) else (
  record s {
    messages =
        update_rows (row_with_id id)
          (λ r. record r { content_enc = none; undecryptable = false; deleted = true }) s.messages;
  },
  true,
)

abbrev pub is_unread_before : ℕ → ℕ → ℕ → MessageRow → Bool
is_unread_before conversation upto me r =
    r.conversation == conversation
    && (leb r.id upto && (not (r.sender == me) && ltb r.status_rank 3))

-- The first statement of markConversationRead.
unfoldable pub mark_messages_read : Store → ℕ → ℕ → ℕ → Store × Bool
mark_messages_read s conversation upto me =
    if not s.available || (conversation == 0 || upto == 0) then (s, false) else (
      record s {
        messages =
            update_rows (is_unread_before conversation upto me)
              (λ r. record r { status = codes "read"; status_rank = 3 }) s.messages;
      },
      true,
    )

unfoldable pub clear_decrypted_content : Store → ℕ → Store × Bool
clear_decrypted_content s id =
    if not s.available || id == 0
    then (s, false)
    else (record s { decrypted = remove id s.decrypted }, true)

-- The rows whose content is an envelope, from before upsertMessage blanked them.
unfoldable pub heal_envelope_leaks : Crypto → (Text → Option Root) → Store → Store
heal_envelope_leaks c parse s = record s {
  messages =
      update_rows (λ r. is_envelope parse (decrypt_text c s.key r.content_enc))
        (λ r. record r { content_enc = none; undecryptable = true }) s.messages;
}

-- clearUserData, and the closing of the database behind it.
unfoldable pub clear_user_data : Store → Store
clear_user_data s =
    if s.available then record s { available = false; messages = []; outbox = [] } else s
