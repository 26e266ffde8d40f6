-- ===== src/Client/SenderKeys/Saving.antt =====
-- What is saved of a sender key and of its skipped keys is loaded again.
use xlchat_project.Common.{
  ℕ, ◌≡◌, refl, sym, ◌∙◌, subst, Bool, true, false, none, some, List, [], ◌∷◌, ◌++◌, length, Text,
  text_eq_iff, is_empty, not_empty, find_row, delete_rows, find_row-delete_rows, find_row-append,
  arith,
}
use xlchat_project.Common.Dict.{Dict}
use xlchat_project.Ratchet.{Bytes, Crypto, aes_gcm_encrypt}
use xlchat_project.Client.{encrypt_text, decrypt_text}
use xlchat_project.Client.Store.Content.{Opens, decrypt-encrypt}
use xlchat_project.Client.SenderKeys.{
  Formats, KeyName, KeyRow, SkippedRow, KeyStore, StoredKey, same_name, is_named, save_sender_key,
  read_row, load_sender_key, save_skipped_message_keys, load_skipped_message_keys, object_of,
}
use xlchat_project.Client.SenderKeys.Skipped.{Reads, IsStorable, read-write}

same_name_refl : (n : KeyName) → same_name n n ≡ true
same_name_refl n =
    ground (arith, (text_eq_iff n.device n.device).1 refl, (text_eq_iff n.key_id n.key_id).1 refl)

module _ (c : Crypto) where
  -- AES-256-GCM seals whatever it is given.
  abbrev pub Seals : Type 0
  Seals = (key iv plain : Bytes) → (sealed : Bytes) × (c.gcm_seal key iv plain ≡ some sealed)

  -- What is encrypted is read back.
  encrypted :
      (key : Bytes) (t : Text) (iv : Bytes)
      → Opens c
      → Seals
      → length key ≡ 32
      → length iv ≡ 12
      → is_empty t ≡ false
      → (e : Bytes × Bytes) × (encrypt_text c key t (some iv) ≡ some e)
        × (decrypt_text c key (some e) ≡ t)
  unfolding encrypt_text aes_gcm_encrypt
  encrypted key t iv o s k l n =
      let (sealed, q) = s key iv t in
      let e : encrypt_text c key t (some iv) ≡ some (iv, sealed) = ground (arith, q, k, n) in
      ((iv, sealed), e, decrypt-encrypt c key t iv (iv, sealed) o l e)

  decrypt_nothing : (key : Bytes) → decrypt_text c key none ≡ []
  unfolding decrypt_text
  decrypt_nothing key = refl

  module _ (f : Formats) where
    found_row :
        (name : KeyName) (rows : List KeyRow) (row : KeyRow)
        → row.name ≡ name
        → find_row
            (λ r. same_name r.name name)
            (delete_rows (λ r. same_name r.name name) rows ++ row ∷ [])
          ≡ some row
    unfolding find_row
    found_row name rows row e =
        let p : KeyRow → Bool = λ r. same_name r.name name in
        let hit : same_name row.name name ≡ true =
          subst (λ (n : KeyName). same_name n name ≡ true) (sym e) (same_name_refl name) in
        find_row-append p (delete_rows p rows) (row ∷ []) (find_row-delete_rows p rows)
        ∙ ground (arith, hit)

    found_skipped :
        (name : KeyName) (rows : List SkippedRow) (row : SkippedRow)
        → row.name ≡ name
        → find_row
            (λ r. same_name r.name name)
            (delete_rows (λ r. same_name r.name name) rows ++ row ∷ [])
          ≡ some row
    unfolding find_row
    found_skipped name rows row e =
        let p : SkippedRow → Bool = λ r. same_name r.name name in
        let hit : same_name row.name name ≡ true =
          subst (λ (n : KeyName). same_name n name ≡ true) (sym e) (same_name_refl name) in
        find_row-append p (delete_rows p rows) (row ∷ []) (find_row-delete_rows p rows)
        ∙ ground (arith, hit)

    abbrev pub replaced : KeyStore → KeyName → KeyRow → KeyStore
    replaced s name row = record s {
      rows = delete_rows (λ r. same_name r.name name) s.rows ++ row ∷ [];
    }

    row_read :
        (key : Bytes) (name : KeyName) (k : StoredKey) (e : Bytes × Bytes)
        → Reads f
        → decrypt_text c key (some e) ≡ f.encode64 k.chain_key
        → length k.chain_key ≡ 32
        → length k.public_key ≡ 32
        → k.private_key ≡ []
        → read_row c f key (record {
          name = name;
          chain_enc = some e;
          public_key = f.encode64 k.public_key;
          private_enc = none;
          iteration = k.iteration;
        })
          ≡ some k
    unfolding read_row
    row_read key name k e r d ck pk p =
        let blank : decrypt_text c key none ≡ [] = decrypt_nothing key in
        ground (
          arith,
          d,
          r.bytes k.chain_key,
          r.bytes k.public_key,
          blank,
          r.filled k.chain_key (not_empty k.chain_key (omega (arith, ck))),
        )

    load_replaced :
        (s : KeyStore) (name : KeyName) (row : KeyRow)
        → s.available ≡ true
        → is_named name ≡ true
        → row.name ≡ name
        → load_sender_key c f (replaced s name row) name ≡ read_row c f s.key row
    unfolding load_sender_key
    load_replaced s name row a n e = ground (arith, a, n, found_row name s.rows row e)

    -- A sender key that is saved without its private part is loaded as it was saved, and the skipped
    -- keys are not touched.
    pub load-save :
        (s : KeyStore) (name : KeyName) (k : StoredKey) (iv : Bytes)
        → Opens c
        → Seals
        → Reads f
        → s.available ≡ true
        → length s.key ≡ 32
        → length iv ≡ 12
        → is_named name ≡ true
        → length k.chain_key ≡ 32
        → length k.public_key ≡ 32
        → k.private_key ≡ []
        → (row : KeyRow) × ((save_sender_key c f s name k (some iv) none).0 ≡ replaced s name row)
          × (load_sender_key c f (replaced s name row) name ≡ some k)
    unfolding save_sender_key
    load-save s name k iv o z r a sk l n ck pk p =
        let chain = not_empty k.chain_key (omega (arith, ck)) in
        let public = not_empty k.public_key (omega (arith, pk)) in
        let (e, q, d) =
          encrypted s.key (f.encode64 k.chain_key) iv o z sk l (r.filled k.chain_key chain) in
        let row : KeyRow = record {
          name = name;
          chain_enc = some e;
          public_key = f.encode64 k.public_key;
          private_enc = none;
          iteration = k.iteration;
        } in
        (
          row,
          ground (arith, a, n, q, chain, public, p),
          load_replaced s name row a n refl ∙ row_read s.key name k e r d ck pk p,
        )

    pub skipped_untouched :
        (s : KeyStore) (name : KeyName) (row : KeyRow)
        → load_skipped_message_keys c f (replaced s name row) name
          ≡ load_skipped_message_keys c f s name
    unfolding load_skipped_message_keys
    skipped_untouched s name row = refl

    pub load_skipped-save :
        (s : KeyStore) (name : KeyName) (keys : Dict ℕ Bytes) (iv : Bytes)
        → Opens c
        → Seals
        → Reads f
        → s.available ≡ true
        → length s.key ≡ 32
        → length iv ≡ 12
        → is_named name ≡ true
        → IsStorable keys
        → let saved = (save_skipped_message_keys c f s name keys (some iv)).0 in
          (load_skipped_message_keys c f saved name ≡ keys)
          × (load_sender_key c f saved name ≡ load_sender_key c f s name)
    unfolding save_skipped_message_keys load_skipped_message_keys load_sender_key
    load_skipped-save s name [] iv o z r a sk l n st =
        let gone = find_row-delete_rows (λ (q : SkippedRow). same_name q.name name) s.skipped in
        (ground (arith, a, n, gone), ground (arith, a, n))
    load_skipped-save s name (k ∷ keys) iv o z r a sk l n st =
        let root = object_of f (k ∷ keys) [] in
        let (e, q, d) = encrypted s.key (f.write_object root) iv o z sk l (r.object root) in
        let row : SkippedRow = record { name = name; keys_enc = some e } in
        (
          ground (
            arith,
            a,
            n,
            q,
            d,
            found_skipped name s.skipped row refl,
            read-write f r (k ∷ keys) st,
            r.object root,
          ),
          ground (arith, a, n, q),
        )
