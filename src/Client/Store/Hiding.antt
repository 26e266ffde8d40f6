-- ===== src/Client/Store/Hiding.antt =====
-- No envelope is read as the content of a message.
use xlchat_project.Common.{
  ℕ, ◌≡◌, refl, sym, subst, inl, inr, Bool-cases, Option-cases, Bool, true, false, Option, none,
  some, List, [], ◌∷◌, arith, if◌then◌else◌, Text, find_row, update_rows, length,
}
use xlchat_project.Ratchet.{Bytes, Crypto}
use xlchat_project.Client.{
  decrypt_text, Root, is_envelope, looks_like_envelope, looks_like_group_message,
  looks_like_distribution,
}
use xlchat_project.Client.Store.{
  MessageRow, MessageJson, Store, row_with_id, content_of, load_message_content, blanked,
  upsert_message, heal_envelope_leaks,
}
use xlchat_project.Client.Store.Content.{
  map_row, Opens, load-upsert_message, upsert_message_refused,
}

module _ (c : Crypto) where
  blank_is_text : (parse : Text → Option Root) → is_envelope parse [] ≡ false
  unfolding looks_like_envelope looks_like_group_message looks_like_distribution
  blank_is_text parse = elim (Option-cases (parse [])) [
    | inl e ↦ ground (arith, e)
    | inr (root, e) ↦ ground (arith, e)
  ]

  blanked_is_text :
      (parse : Text → Option Root) (m : MessageJson) → is_envelope parse (blanked c parse m) ≡ false
  blanked_is_text parse m = ground (arith, blank_is_text parse)

  -- Where AES-GCM opens what it sealed: whatever upsertMessage is given, it lets no envelope be
  -- read where none was.
  pub upsert_message_hides :
      (parse : Text → Option Root) (s : Store) (m : MessageJson) (iv iv2 : Bytes) (id : ℕ)
      → Opens c
      → length iv ≡ 12
      → is_envelope parse (load_message_content c s id) ≡ false
      → is_envelope parse
          (load_message_content c (upsert_message c parse s m (some iv) (some iv2)).0 id)
        ≡ false
  upsert_message_hides parse s m iv iv2 id o l n =
      elim (Bool-cases (upsert_message c parse s m (some iv) (some iv2)).1) [
        | inl t ↦
            ground
              (arith, n, blanked_is_text parse m, load-upsert_message c parse s m iv iv2 id o l t)
        | inr f ↦
            subst (λ (x : Store). is_envelope parse (load_message_content c x id) ≡ false)
              (sym (upsert_message_refused c parse s m (some iv) (some iv2) f)) n
      ]

  find-change :
      (p : MessageRow → Bool) (f : MessageRow → MessageRow) (j : ℕ) (rows : List MessageRow)
      → ((r : MessageRow) → (f r).id ≡ r.id)
      → find_row (row_with_id j) (update_rows p f rows)
        ≡ map_row (λ r. if p r then f r else r) (find_row (row_with_id j) rows)
  unfolding find_row update_rows
  find-change p f j [] h = refl
  find-change p f j (r ∷ rows) h = ground (arith, h r, find-change p f j rows h)

  -- After the scan at the opening of the database no content that is read is an envelope.
  pub heal_envelope_leaks_hides :
      (parse : Text → Option Root) (s : Store) (id : ℕ)
      → is_envelope parse (load_message_content c (heal_envelope_leaks c parse s) id) ≡ false
  unfolding heal_envelope_leaks load_message_content content_of
  heal_envelope_leaks_hides parse s id =
      let found =
        find-change (λ r. is_envelope parse (decrypt_text c s.key r.content_enc))
          (λ r. record r { content_enc = none; undecryptable = true }) id s.messages (λ r. refl) in
      elim (Option-cases (find_row (row_with_id id) s.messages)) [
        | inl e ↦ ground (arith, e, found, blank_is_text parse)
        | inr (r, e) ↦ ground (arith, e, found, blank_is_text parse)
      ]
