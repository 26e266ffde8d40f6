-- ===== src/Client/Store/Queue.antt =====
-- LocalStore.cpp: the cursor of the event stream and the persisted outbox.
use xlchat_project.Common.{
  ℕ, Bool, true, false, ◌&&◌, ◌||◌, not, Option, List, [], ◌∷◌, ◌++◌, ◌==◌, if◌then◌else◌, Text,
  text_eq, is_empty, delete_rows,
}
use xlchat_project.Ratchet.{Bytes, Crypto}
use xlchat_project.Client.{encrypt_text, decrypt_text}
use xlchat_project.Client.Store.{Store, OutboxRow, OutboxItem, is_some}

-- The database with the cursor of its table meta.
pub record Local : Type 0 where
  pub store : Store
  pub cursor : ℕ

unfoldable pub sync_cursor : Local → ℕ
sync_cursor l = if l.store.available then l.cursor else 0

unfoldable pub set_sync_cursor : Local → ℕ → Local × Bool
set_sync_cursor l seq = if l.store.available then (record l { cursor = seq }, true) else (l, false)

module _ (c : Crypto) where
  unfoldable pub add_outbox_item : Store → Text → ℕ → Text → ℕ → Option Bytes → Store × Bool
  add_outbox_item s client_id to_user plaintext conversation random =
      let enc = encrypt_text c s.key plaintext random in
      if not s.available || (is_empty client_id || to_user == 0 && conversation == 0)
      then (s, false)
      else if is_some enc
      then (
        record s {
          outbox =
              delete_rows (λ r. text_eq r.client_id client_id) s.outbox
              ++ record {
                client_id = client_id;
                to_user = to_user;
                content_enc = enc;
                conversation = conversation;
              }
                ∷ [];
        },
        true,
      )
      else (s, false)

  unfoldable pub read_outbox : Bytes → List OutboxRow → List OutboxItem
  read_outbox key [] = []
  read_outbox key (r ∷ rows) =
      let rest = read_outbox key rows in
      let content = decrypt_text c key r.content_enc in
      if is_empty r.client_id || (r.to_user == 0 && r.conversation == 0 || is_empty content)
      then rest
      else record {
        client_id = r.client_id;
        to_user = r.to_user;
        conversation = r.conversation;
        content = content;
      }
        ∷ rest

  -- The rows stand in the order of their insertion, which is the order of created_at.
  unfoldable pub load_outbox : Store → List OutboxItem
  unfolding read_outbox
  load_outbox s = if s.available then read_outbox s.key s.outbox else []

unfoldable pub remove_outbox_item : Store → Text → Store × Bool
remove_outbox_item s client_id =
    if not s.available || is_empty client_id
    then (s, false)
    else (record s { outbox = delete_rows (λ r. text_eq r.client_id client_id) s.outbox }, true)
