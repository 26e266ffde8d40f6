-- ===== src/Client/SenderKeys.antt =====
-- LocalStore.cpp: sender keys and their skipped message keys; NetworkManager.cpp: how a group message
-- is decrypted with them, and how a distribution installs one. Base64, the printing and reading of
-- numbers and of JSON objects are parameters; `random` gives the vectors of a call's encryptions.
pub mod Skipped
pub mod Saving
pub mod Laws
mod Tests
use xlchat_project.Common.{
  ℕ, zero, suc, ℤ, pos, negsuc, Bool, true, false, not, ◌&&◌, ◌||◌, Option, none, some, List, [],
  ◌∷◌, ◌++◌, ◌==◌, length, if◌then◌else◌, Text, text_eq, is_empty, find_row, delete_rows,
}
use xlchat_project.Common.Dict.{Dict, text_eq_inst, insert}
use xlchat_project.Ratchet.Skipped.{put}
use xlchat_project.Ratchet.{Bytes, Crypto, EncryptedMessage}
use xlchat_project.Ratchet.Receive.{Receiver, decrypt_message}
use xlchat_project.Client.{Cipher, encrypt_text, decrypt_text}

-- `decode64` is fromBase64 with AbortOnBase64DecodingErrors, empty for what is not Base64;
-- `number` is QString::number and `to_int` QString::toInt; `write_object` is toJson of an object, and
-- `read_object` fromJson with the values as texts, where a value that is none is empty.
pub record Formats : Type 0 where
  pub encode64 : Bytes → Text
  pub decode64 : Text → Bytes
  pub number : ℕ → Text
  pub to_int : Text → Option ℤ
  pub write_object : Dict Text Text → Text
  pub read_object : Text → Dict Text Text

pub record KeyName : Type 0 where
  pub group : ℕ
  pub sender : ℕ
  pub device : Text
  pub key_id : Text

pub record KeyRow : Type 0 where
  pub name : KeyName
  pub chain_enc : Cipher
  pub public_key : Text
  pub private_enc : Cipher
  pub iteration : ℕ

pub record SkippedRow : Type 0 where
  pub name : KeyName
  pub keys_enc : Cipher

-- The rows of sender_keys stand in the order of their rowid.
pub record KeyStore : Type 0 where
  pub available : Bool
  pub key : Bytes
  pub rows : List KeyRow
  pub skipped : List SkippedRow

pub record StoredKey : Type 0 where
  pub chain_key : Bytes
  pub public_key : Bytes
  pub private_key : Bytes
  pub iteration : ℕ

abbrev pub same_name : KeyName → KeyName → Bool
same_name a b =
    a.group == b.group
    && (a.sender == b.sender && (text_eq a.device b.device && text_eq a.key_id b.key_id))

abbrev pub is_named : KeyName → Bool
is_named n =
    not (n.group == 0)
    && (not (n.sender == 0) && (not (is_empty n.device) && not (is_empty n.key_id)))

abbrev pub of_cipher : Cipher → Bool
of_cipher none = false
of_cipher (some e) = true

abbrev pub has_keys : Dict ℕ Bytes → Bool
has_keys [] = false
has_keys (k ∷ keys) = true

module _ (f : Formats) where
  -- for (it : keys) root[number(it.key())] = it.value().toBase64();
  unfoldable pub object_of : Dict ℕ Bytes → Dict Text Text → Dict Text Text
  object_of [] root = root
  object_of ((k, v) ∷ keys) root = object_of keys (insert (f.number k) (f.encode64 v) root)

  -- What a turn of the reading loop makes of one entry.
  unfoldable pub take_entry : Text → Text → Dict ℕ Bytes → Dict ℕ Bytes
  take_entry name value result =
      let key = f.decode64 value in
      elim (f.to_int name) [
        | none ↦ result
        | some (negsuc n) ↦ result
        | some (pos n) ↦ if n == 0 || is_empty key then result else put n key result
      ]

  unfoldable pub read_entries : Dict Text Text → Dict ℕ Bytes → Dict ℕ Bytes
  unfolding take_entry
  read_entries [] result = result
  read_entries ((name, value) ∷ root) result = read_entries root (take_entry name value result)

module _ (c : Crypto) (f : Formats) where
  unfoldable pub save_sender_key :
      KeyStore → KeyName → StoredKey → Option Bytes → Option Bytes → KeyStore × Bool
  save_sender_key s name k random random2 =
      let chain_enc = encrypt_text c s.key (f.encode64 k.chain_key) random in
      let private_enc = encrypt_text c s.key (f.encode64 k.private_key) random2 in
      if not s.available || (not (is_named name) || (is_empty k.chain_key || is_empty k.public_key))
      then (s, false)
      else if of_cipher chain_enc
      then (
        record s {
          rows =
              delete_rows (λ r. same_name r.name name) s.rows
              ++ record {
                name = name;
                chain_enc = chain_enc;
                public_key = f.encode64 k.public_key;
                private_enc = if is_empty k.private_key then none else private_enc;
                iteration = k.iteration;
              }
                ∷ [];
        },
        true,
      )
      else (s, false)

  unfoldable pub read_row : Bytes → KeyRow → Option StoredKey
  read_row key r =
      let chain64 = decrypt_text c key r.chain_enc in
      let private64 = decrypt_text c key r.private_enc in
      let k : StoredKey = record {
        chain_key = f.decode64 chain64;
        public_key = f.decode64 r.public_key;
        private_key = if is_empty private64 then [] else f.decode64 private64;
        iteration = r.iteration;
      } in
      if is_empty chain64
      then none
      else if length k.chain_key == 32 && length k.public_key == 32
      then some k
      else none

  unfoldable pub load_sender_key : KeyStore → KeyName → Option StoredKey
  unfolding read_row
  load_sender_key s name =
      if not s.available || not (is_named name)
      then none
      else elim (find_row (λ r. same_name r.name name) s.rows) [
        | none ↦ none
        | some r ↦ read_row s.key r
      ]

  unfoldable pub save_skipped_message_keys :
      KeyStore → KeyName → Dict ℕ Bytes → Option Bytes → KeyStore × Bool
  unfolding object_of
  save_skipped_message_keys s name [] random =
      if not s.available || not (is_named name)
      then (s, false)
      else (record s { skipped = delete_rows (λ r. same_name r.name name) s.skipped }, true)
  save_skipped_message_keys s name (k ∷ keys) random =
      let enc = encrypt_text c s.key (f.write_object (object_of f (k ∷ keys) [])) random in
      if not s.available || not (is_named name)
      then (s, false)
      else if of_cipher enc
      then (
        record s {
          skipped =
              delete_rows (λ r. same_name r.name name) s.skipped
              ++ record { name = name; keys_enc = enc } ∷ [];
        },
        true,
      )
      else (s, false)

  unfoldable pub load_skipped_message_keys : KeyStore → KeyName → Dict ℕ Bytes
  unfolding read_entries
  load_skipped_message_keys s name =
      if not s.available || not (is_named name)
      then []
      else elim (find_row (λ r. same_name r.name name) s.skipped) [
        | none ↦ []
        | some r ↦
            let plain = decrypt_text c s.key r.keys_enc in
            if is_empty plain then [] else read_entries f (f.read_object plain) []
      ]

  -- decryptGroupMessageObject from the load of the key on; an empty result is a failure.
  unfoldable pub decrypt_group_message :
      KeyStore → KeyName → EncryptedMessage → Option Bytes → Option Bytes → KeyStore × Bytes
  unfolding save_sender_key load_sender_key save_skipped_message_keys load_skipped_message_keys
  decrypt_group_message s name m random random2 = elim (load_sender_key s name) [
    | none ↦ (s, [])
    | some k ↦
        let old = load_skipped_message_keys s name in
        let r : Receiver = record {
          chain_key = k.chain_key;
          iteration = k.iteration;
          skipped = old;
        } in
        let x = decrypt_message c k.public_key r m in
        let moved : StoredKey = record {
          chain_key = x.0.chain_key;
          public_key = k.public_key;
          private_key = [];
          iteration = x.0.iteration;
        } in
        let saved = (save_sender_key s name moved random none).0 in
        if is_empty x.1
        then (s, [])
        else if has_keys x.0.skipped || has_keys old
        then ((save_skipped_message_keys saved name x.0.skipped random2).0, x.1)
        else (saved, x.1)
  ]

  -- processGroupSenderKeyDistribution, once an entry gave the chain key.
  unfoldable pub install_sender_key :
      KeyStore → KeyName → Bytes → Bytes → Option Bytes → KeyStore × Bool
  unfolding save_sender_key
  install_sender_key s name chain_key public_key random =
      let k : StoredKey = record {
        chain_key = chain_key;
        public_key = public_key;
        private_key = [];
        iteration = 0;
      } in
      if length chain_key == 32
      then ((save_sender_key s name k random none).0, true)
      else (s, false)

-- ORDER BY rowid DESC LIMIT 1
unfoldable pub last_row : (KeyRow → Bool) → List KeyRow → Option KeyRow
last_row p [] = none
last_row p (r ∷ rows) =
    let rest = last_row p rows in
    elim rest [ none ↦ if p r then some r else none | some q ↦ some q ]

unfoldable pub latest_sender_key_id : KeyStore → ℕ → ℕ → Text → Text
unfolding last_row
latest_sender_key_id s group sender device =
    let p : KeyRow → Bool =
      λ r. r.name.group == group && (r.name.sender == sender && text_eq r.name.device device) in
    if not s.available || (group == 0 || (sender == 0 || is_empty device))
    then []
    else elim (last_row p s.rows) [ none ↦ [] | some r ↦ r.name.key_id ]

unfoldable pub sender_user_id_for_key : KeyStore → ℕ → Text → Text → ℕ
unfolding last_row
sender_user_id_for_key s group device key_id =
    let p : KeyRow → Bool = λ r.
      r.name.group == group && (text_eq r.name.device device && text_eq r.name.key_id key_id) in
    if not s.available || (group == 0 || (is_empty device || is_empty key_id))
    then 0
    else elim (last_row p s.rows) [ none ↦ 0 | some r ↦ r.name.sender ]

unfoldable pub remove_sender_keys_for_group : KeyStore → ℕ → KeyStore × Bool
remove_sender_keys_for_group s group = if not s.available || group == 0 then (s, false) else (
  record s {
    rows = delete_rows (λ r. r.name.group == group) s.rows;
    skipped = delete_rows (λ r. r.name.group == group) s.skipped;
  },
  true,
)
