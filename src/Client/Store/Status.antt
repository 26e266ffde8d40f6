-- ===== src/Client/Store/Status.antt =====
-- The status of receipts that upsertMessage keeps.
use xlchat_project.Common.{
  ℕ, ◌≤◌, ◌≡◌, refl, inl, inr, Option-cases, Bool, Option, none, some, ◌&&◌, ◌||◌, arith, find_row,
  is_empty, Text,
}
use xlchat_project.Ratchet.{Bytes, Crypto}
use xlchat_project.Client.{Root, encrypt_text, is_envelope}
use xlchat_project.Client.Store.{
  MessageRow, MessageJson, Store, row_with_id, new_row, merge_row, put_row, save_decrypted_content,
  blanked, write_message, upsert_message,
}
use xlchat_project.Client.Store.Content.{find-put, save_decrypted_messages}

-- The rank of a message that is kept, 0 where there is none.
unfoldable pub rank_of : Store → ℕ → ℕ
rank_of s id = elim (find_row (row_with_id id) s.messages) [ none ↦ 0 | some r ↦ r.status_rank ]

module _ (c : Crypto) where
  saved-rank :
      (s : Store) (k : ℕ) (t : Text) (r : Option Bytes) (id : ℕ)
      → rank_of (save_decrypted_content c s k t r).0 id ≡ rank_of s id
  unfolding rank_of
  saved-rank s k t r id = let same = save_decrypted_messages c s k t r in rw (rank_of, same.0) refl

  put-rank :
      (s : Store) (row : MessageRow) (id : ℕ)
      → rank_of s id ≤ rank_of (record s { messages = put_row row s.messages }) id
  unfolding rank_of merge_row
  put-rank s row id = elim (Option-cases (find_row (row_with_id id) s.messages)) [
    | inl e ↦ ground (arith, e, find-put row id s.messages)
    | inr (r, e) ↦ ground (arith, e, find-put row id s.messages)
  ]

  write_message-rank :
      (s : Store) (m : MessageJson) (content : Text) (u : Bool) (random random2 : Option Bytes)
      (id : ℕ)
      → rank_of s id ≤ rank_of (write_message c s m content u random random2).0 id
  unfolding write_message
  write_message-rank s m content u random random2 id =
      let enc = encrypt_text c s.key content random in
      let row = new_row m enc u in
      let written = record s { messages = put_row row s.messages } in
      let same = saved-rank written m.id content random2 id in
      ground (arith, put-rank s (new_row m none u) id, put-rank s row id, same)

  -- A late synchronisation never takes a receipt back: for no message does upsertMessage lower the
  -- rank of its status.
  pub upsert_message-rank :
      (parse : Text → Option Root) (s : Store) (m : MessageJson) (random random2 : Option Bytes)
      (id : ℕ)
      → rank_of s id ≤ rank_of (upsert_message c parse s m random random2).0 id
  unfolding upsert_message
  upsert_message-rank parse s m random random2 id =
      let content = blanked c parse m in
      let u = (m.undecryptable || is_envelope parse m.content) && is_empty content in
      ground (arith, write_message-rank s m content u random random2 id)
