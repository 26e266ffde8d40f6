-- ===== src/Client/Store/Content.antt =====
-- What upsertMessage does to the contents that are read.
use xlchat_project.Common.{
  ℕ, ◌≤◌, ◌≡◌, refl, inl, inr, Bool-cases, Option-cases, Bool, true, false, not, ◌&&◌, ◌||◌, Option,
  none, some, List, [], ◌∷◌, ◌++◌, ◌==◌, arith, if◌then◌else◌, Text, is_empty, not_empty, find_row,
  has_row, update_rows, length,
}
use xlchat_project.Ratchet.{Bytes, Crypto, aes_gcm_encrypt, aes_gcm_decrypt}
use xlchat_project.Client.{Cipher, encrypt_text, decrypt_text, Root, is_envelope}
use xlchat_project.Client.Store.{
  MessageRow, MessageJson, Store, row_with_id, is_some, new_row, merge_row, put_row, content_of,
  load_message_content, save_decrypted_content, blanked, write_message, upsert_message,
}

abbrev pub map_row : (MessageRow → MessageRow) → Option MessageRow → Option MessageRow
map_row f none = none
map_row f (some r) = some (f r)

-- A change of rows that keeps their ids.
pub find-update :
    (f : MessageRow → MessageRow) (k j : ℕ) (rows : List MessageRow)
    → ((r : MessageRow) → (f r).id ≡ r.id)
    → find_row (row_with_id j) (update_rows (row_with_id k) f rows) ≡ (
        if k == j then map_row f (find_row (row_with_id j) rows) else find_row (row_with_id j) rows)
unfolding find_row update_rows
find-update f k j [] h = ground arith
find-update f k j (r ∷ rows) h = ground (arith, h r, find-update f k j rows h)

has-find :
    (j : ℕ) (rows : List MessageRow)
    → has_row (row_with_id j) rows ≡ is_some (find_row (row_with_id j) rows)
unfolding has_row find_row
has-find j [] = refl
has-find j (r ∷ rows) = ground (arith, has-find j rows)

find-snoc :
    (j : ℕ) (rows : List MessageRow) (row : MessageRow)
    → find_row (row_with_id j) (rows ++ row ∷ []) ≡ elim (find_row (row_with_id j) rows) [
      | none ↦ if row.id == j then some row else none
      | some old ↦ some old
    ]
unfolding find_row
find-snoc j [] row = ground arith
find-snoc j (r ∷ rows) row = ground (arith, find-snoc j rows row)

pub find-put :
    (row : MessageRow) (j : ℕ) (rows : List MessageRow)
    → find_row (row_with_id j) (put_row row rows) ≡ (
        if row.id == j
        then elim (find_row (row_with_id j) rows) [
          | none ↦ some row
          | some old ↦ some (merge_row row old)
        ]
        else find_row (row_with_id j) rows)
unfolding put_row merge_row
find-put row j rows = ground (
  arith,
  find-update (merge_row row) row.id j rows (λ r. refl),
  has-find row.id rows,
  has-find j rows,
  find-snoc j rows row,
)

module _ (c : Crypto) where
  -- AES-256-GCM opens what it sealed, and its output is not empty.
  abbrev pub Opens : Type 0
  Opens =
      (key iv plain sealed : Bytes)
      → c.gcm_seal key iv plain ≡ some sealed
      → (c.gcm_open key iv sealed ≡ some plain) × (16 ≤ length sealed)

  pub decrypt-encrypt :
      (key : Bytes) (plain : Text) (iv : Bytes) (e : Bytes × Bytes)
      → Opens
      → length iv ≡ 12
      → encrypt_text c key plain (some iv) ≡ some e
      → decrypt_text c key (some e) ≡ plain
  unfolding encrypt_text decrypt_text aes_gcm_encrypt aes_gcm_decrypt
  decrypt-encrypt key plain iv (v, sealed) o l h =
      let same : (v ≡ iv) × (length key ≡ 32) × (c.gcm_seal key iv plain ≡ some sealed) =
        (ground arith, ground arith, ground arith) in
      let there = not_empty iv (omega arith) in
      let x = o key iv plain sealed same.2 in
      let known = not_empty sealed (omega (arith, x.1)) in
      ground (arith, same.0, same.1, x.0, x.1, there, known)

  content_of_merged :
      (key : Bytes) (old : MessageRow) (m : MessageJson) (e : Cipher) (u : Bool)
      → content_of c key (merge_row (new_row m e u) old)
        ≡ (if is_some e then decrypt_text c key e else content_of c key old)
  unfolding content_of merge_row new_row
  content_of_merged key old m none u = ground arith
  content_of_merged key old m (some e) u = ground arith

  content_of_new :
      (key : Bytes) (m : MessageJson) (u : Bool) → content_of c key (new_row m none u) ≡ []
  unfolding content_of new_row decrypt_text
  content_of_new key m u = ground arith

  pub save_decrypted_messages :
      (s : Store) (id : ℕ) (t : Text) (r : Option Bytes)
      → let x = (save_decrypted_content c s id t r).0 in
        (x.messages ≡ s.messages) × (x.key ≡ s.key) × (x.available ≡ s.available)
  unfolding save_decrypted_content
  save_decrypted_messages s id t r = (ground arith, ground arith, ground arith)

  load-put_none :
      (s : Store) (m : MessageJson) (u : Bool) (id : ℕ)
      → load_message_content c (record s { messages = put_row (new_row m none u) s.messages }) id
        ≡ load_message_content c s id
  unfolding load_message_content new_row
  load-put_none s m u id = elim (Option-cases (find_row (row_with_id id) s.messages)) [
    | inl e ↦ ground (arith, e, find-put (new_row m none u) id s.messages, content_of_new s.key m u)
    | inr (old, e) ↦
        ground (
          arith,
          e,
          find-put (new_row m none u) id s.messages,
          content_of_merged s.key old m none u,
        )
  ]

  load-put_some :
      (s : Store) (m : MessageJson) (e : Bytes × Bytes) (id : ℕ) (content : Text)
      → s.available ≡ true
      → (m.id == 0) ≡ false
      → decrypt_text c s.key (some e) ≡ content
      → load_message_content c
          (record s { messages = put_row (new_row m (some e) false) s.messages })
          id
        ≡ (if m.id == id then content else load_message_content c s id)
  unfolding load_message_content new_row content_of
  load-put_some s m e id content a z d =
      elim (Option-cases (find_row (row_with_id id) s.messages)) [
        | inl h ↦ ground (arith, a, z, d, h, find-put (new_row m (some e) false) id s.messages)
        | inr (old, h) ↦ ground (
          arith,
          a,
          z,
          d,
          h,
          find-put (new_row m (some e) false) id s.messages,
          content_of_merged s.key old m (some e) false,
        )
      ]

  load_same_messages :
      (s s' : Store) (id : ℕ)
      → (s'.messages ≡ s.messages) × (s'.key ≡ s.key) × (s'.available ≡ s.available)
      → load_message_content c s' id ≡ load_message_content c s id
  unfolding load_message_content
  load_same_messages s s' id h = elim (Option-cases (find_row (row_with_id id) s.messages)) [
    | inl e ↦ ground (arith, e, h.0, h.1, h.2)
    | inr (r, e) ↦ ground (arith, e, h.0, h.1, h.2)
  ]

  load-write_message :
      (s : Store) (m : MessageJson) (content : Text) (u : Bool) (iv iv2 : Bytes) (id : ℕ)
      → Opens
      → length iv ≡ 12
      → s.available ≡ true
      → (m.id == 0) ≡ false
      → (is_empty content ≡ false → u ≡ false)
      → (write_message c s m content u (some iv) (some iv2)).1 ≡ true
      → load_message_content c (write_message c s m content u (some iv) (some iv2)).0 id
        ≡ (if m.id == id && not (is_empty content) then content else load_message_content c s id)
  unfolding write_message
  load-write_message s m content u iv iv2 id o l a z h t = elim (Bool-cases (is_empty content)) [
    | inl n ↦ ground (arith, n, load-put_none s m u id)
    | inr n ↦ elim (Option-cases (encrypt_text c s.key content (some iv))) [
      | inl e ↦ absurd (ground (arith, n, e))
      | inr (e, q) ↦
          let written = record s { messages = put_row (new_row m (some e) u) s.messages } in
          let saved = (save_decrypted_content c written m.id content (some iv2)).0 in
          let same =
            load_same_messages written saved id
              (save_decrypted_messages written m.id content (some iv2)) in
          let put = load-put_some s m e id content a z (decrypt-encrypt s.key content iv e o l q) in
          ground (arith, n, q, same, put, h n)
    ]
  ]

  -- A call that upsertMessage refuses changes nothing.
  pub upsert_message_refused :
      (parse : Text → Option Root) (s : Store) (m : MessageJson) (random random2 : Option Bytes)
      → (upsert_message c parse s m random random2).1 ≡ false
      → (upsert_message c parse s m random random2).0 ≡ s
  unfolding upsert_message write_message
  upsert_message_refused parse s m random random2 f = ground arith

  -- Where AES-GCM opens what it sealed, a message that upsertMessage takes leaves the content of
  -- every other message as it was. Its own content is now the text that it brought, or, where
  -- that was empty or an envelope, what it was.
  pub load-upsert_message :
      (parse : Text → Option Root) (s : Store) (m : MessageJson) (iv iv2 : Bytes) (id : ℕ)
      → Opens
      → length iv ≡ 12
      → (upsert_message c parse s m (some iv) (some iv2)).1 ≡ true
      → let content = blanked c parse m in
        load_message_content c (upsert_message c parse s m (some iv) (some iv2)).0 id
        ≡ (if m.id == id && not (is_empty content) then content else load_message_content c s id)
  unfolding upsert_message
  load-upsert_message parse s m iv iv2 id o l t =
      let content = blanked c parse m in
      let u = (m.undecryptable || is_envelope parse m.content) && is_empty content in
      elim (Bool-cases (not s.available || (m.id == 0 || m.conversation == 0))) [
        | inl b ↦ absurd (ground (arith, b))
        | inr b ↦
            elim (Bool-cases (is_empty content && not (is_empty (load_message_content c s m.id)))) [
              | inl k ↦ ground (arith, b, k)
              | inr k ↦
                  let written =
                    load-write_message s m content u iv iv2 id o l (ground (arith, b))
                      (ground (arith, b)) (λ n. ground (arith, n)) in
                  ground (arith, b, k, written)
            ]
      ]

  pub upsert_message_available :
      (parse : Text → Option Root) (s : Store) (m : MessageJson) (random random2 : Option Bytes)
      → (upsert_message c parse s m random random2).0.available ≡ s.available
  unfolding upsert_message write_message save_decrypted_content
  upsert_message_available parse s m random random2 = ground arith
