-- ===== src/Client/SenderKeys/Tests.antt =====
-- A receiver's keys in a database, over a toy cipher and a toy format.
use xlchat_project.Common.{
  ℕ, zero, suc, ◌≡◌, refl, ap, sym, subst, true, false, some, [], ◌∷◌, ◌++◌, arith, Text, is_empty,
  find_row, text_eq, ◌∙◌, none, Option, ℤ, pos, false, delete_rows,
}
use xlchat_project.Common.Dict.{
  Dict, text_eq_inst, lookup, insert, lookup-insert, Distinct, insert-Distinct,
}
use xlchat_project.Ratchet.{
  Bytes, EncryptedMessage, aes_gcm_encrypt, aes_gcm_decrypt, ratchet_chain_key, derive_message_key,
  verify,
}
use xlchat_project.Ratchet.Receive.{decrypt_message}
use xlchat_project.Ratchet.Chain.{Follows}
use xlchat_project.Ratchet.Arrival.{Derives}
use xlchat_project.Ratchet.Skipped.{put, put_all, trim_skipped}
use xlchat_project.Client.{encrypt_text, decrypt_text}
use xlchat_project.Client.Store.Content.{Opens}
use xlchat_project.Client.Examples.{plain_crypto, storage_key, twelve, tag}
use xlchat_project.Client.SenderKeys.{
  Formats, KeyName, KeyStore, StoredKey, load_sender_key, load_skipped_message_keys,
  decrypt_group_message, install_sender_key,
}
use xlchat_project.Client.SenderKeys.Skipped.{Reads}
use xlchat_project.Client.SenderKeys.Saving.{Seals}
use xlchat_project.Client.SenderKeys.Laws.{
  receiver_of, moved_to, decrypt_group_message-stores, install_sender_key_resets,
}

-- A toy format of objects: 0 before each entry and at the end, 1 between a name and its value.
abbrev write_text : Text → Text → Text
write_text [] t = t
write_text (b ∷ bs) t = suc (suc b) ∷ write_text bs t

abbrev write : Dict Text Text → Text
write [] = 0 ∷ []
write ((k, v) ∷ o) = 0 ∷ write_text k (1 ∷ write_text v (write o))

abbrev close : Text → Text × Text × Dict Text Text → Text × Text × Dict Text Text
close [] r = ([], [], [])
close (x ∷ t) r = ([], [], (r.0, r.1) ∷ r.2)

abbrev read_parts : Text → Text × Text × Dict Text Text
read_parts [] = ([], [], [])
read_parts (zero ∷ t) = close t (read_parts t)
read_parts (suc zero ∷ t) = let r = read_parts t in ([], r.0, r.2)
read_parts (suc (suc b) ∷ t) = let r = read_parts t in (b ∷ r.0, r.1, r.2)

read_text :
    (v t : Text)
    → (read_parts t).0 ≡ []
    → read_parts (write_text v t) ≡ (v, (read_parts t).1, (read_parts t).2)
read_text [] t h = ground (arith, h)
read_text (b ∷ v) t h = let e = read_text v t h in ground (arith, e)

closed :
    (k t : Text) (r : Text × Text × Dict Text Text)
    → close (write_text k (1 ∷ t)) r ≡ ([], [], (r.0, r.1) ∷ r.2)
closed [] t r = refl
closed (b ∷ k) t r = refl

read_write : (o : Dict Text Text) → read_parts (write o) ≡ ([], [], o)
read_write [] = refl
read_write ((k, v) ∷ o) =
    let e = read_write o in
    let x = read_text v (write o) (ground (arith, e)) in
    let y = read_text k (1 ∷ write_text v (write o)) refl in
    closed k (write_text v (write o)) _ ∙ ground (arith, e, x, y)

abbrev without_twins : Dict Text Text → Dict Text Text
without_twins [] = []
without_twins ((k, v) ∷ o) = insert k v (without_twins o)

without_twins-Distinct : (o : Dict Text Text) → Distinct (without_twins o)
without_twins-Distinct [] = tt
without_twins-Distinct ((k, v) ∷ o) =
    insert-Distinct k v (without_twins o) (without_twins-Distinct o)

lookup-without_twins : (o : Dict Text Text) (t : Text) → lookup t (without_twins o) ≡ lookup t o
unfolding lookup
lookup-without_twins [] t = refl
lookup-without_twins ((k, v) ∷ o) t =
    ground (arith, lookup-insert k t v (without_twins o), lookup-without_twins o t)

abbrev read_int : Text → Option ℤ
read_int (n ∷ []) = some (pos n)
read_int _ = none

abbrev formats : Formats
formats = record {
  encode64 = λ b. b;
  decode64 = λ t. t;
  number = λ n. n ∷ [];
  to_int = read_int;
  write_object = write;
  read_object = λ t. without_twins (read_parts t).2;
}

write_filled : (o : Dict Text Text) → is_empty (write o) ≡ false
write_filled [] = refl
write_filled ((k, v) ∷ o) = refl

formats-Reads : Reads formats
formats-Reads = record {
  bytes = λ b. refl;
  filled = λ b h. h;
  ints = λ n h. refl;
  apart = λ m n e. ground (arith, e);
  entries = λ o t d.
      lookup-without_twins (read_parts (write o)).2 t ∙ ap (λ r. lookup t r.2) (read_write o);
  distinct = λ t. without_twins-Distinct (read_parts t).2;
  object = write_filled;
}

opens : Opens plain_crypto
opens key iv plain sealed e = (ground (arith, e), ground (arith, e))

seals : Seals plain_crypto
seals key iv plain = (tag ++ plain, refl)

derives : Derives plain_crypto
derives key salt info h = (key, refl, h)

abbrev name : KeyName
name = record { group = 3; sender = 2; device = 1 ∷ []; key_id = 5 ∷ [] }

abbrev seed : Bytes
seed = storage_key

abbrev blank_keys : KeyStore
blank_keys = record { available = true; key = storage_key; rows = []; skipped = [] }

abbrev installed : KeyStore
installed = (install_sender_key plain_crypto formats blank_keys name seed seed (some twelve)).0

installed_keys :
    (load_sender_key plain_crypto formats installed name
      ≡ some (record { chain_key = seed; public_key = seed; private_key = []; iteration = 0 }))
    × (load_skipped_message_keys plain_crypto formats installed name
        ≡ load_skipped_message_keys plain_crypto formats blank_keys name)
installed_keys =
    install_sender_key_resets plain_crypto formats blank_keys name seed seed twelve opens seals
      formats-Reads refl refl refl refl refl refl

abbrev first : StoredKey
first = record { chain_key = seed; public_key = seed; private_key = []; iteration = 0 }

no_skipped : load_skipped_message_keys plain_crypto formats installed name ≡ []
unfolding load_skipped_message_keys find_row text_eq
no_skipped = installed_keys.1

first-Follows : Follows plain_crypto seed (
    receiver_of plain_crypto formats first
      (load_skipped_message_keys plain_crypto formats installed name))
unfolding lookup
first-Follows =
    subst
      (λ (d : Dict ℕ Bytes). Follows plain_crypto seed (receiver_of plain_crypto formats first d))
      (sym no_skipped)
      (record {
        chain = refl;
        between = tt;
        keys = λ j k h. absurd (ground arith);
        few = omega arith;
      })

abbrev second_message : EncryptedMessage
second_message = record {
  key_id = 5 ∷ [];
  iteration = 2;
  iv = twelve;
  ciphertext = tag ++ 104 ∷ [];
  signature = storage_key ++ storage_key;
  valid = true;
}

decrypt_group_message-stores_example :
    let x =
      decrypt_message plain_crypto seed
        (receiver_of plain_crypto formats first
          (load_skipped_message_keys plain_crypto formats installed name))
        second_message in
    let after =
      decrypt_group_message plain_crypto formats installed name second_message
        (some twelve)
        (some twelve) in
    (after.1 ≡ x.1)
    × (load_sender_key plain_crypto formats after.0 name
        ≡ some (moved_to plain_crypto formats first x.0))
    × (load_skipped_message_keys plain_crypto formats after.0 name ≡ x.0.skipped)
unfolding install_sender_key encrypt_text aes_gcm_encrypt decrypt_message lookup
    load_skipped_message_keys find_row ratchet_chain_key derive_message_key aes_gcm_decrypt verify
decrypt_group_message-stores_example =
    decrypt_group_message-stores plain_crypto formats installed name second_message first seed
      twelve twelve opens seals formats-Reads derives refl refl refl refl refl refl installed_keys.0
      refl first-Follows refl (omega arith)

-- The distribution is processed again when the receiver is at iteration 2, with one skipped key.
abbrev further : KeyStore
further =
    (decrypt_group_message plain_crypto formats installed name second_message (some twelve)
      (some twelve)).0

install_sender_key_resets_example :
    let again = (install_sender_key plain_crypto formats further name seed seed (some twelve)).0 in
    (load_sender_key plain_crypto formats again name
      ≡ some (record { chain_key = seed; public_key = seed; private_key = []; iteration = 0 }))
    × (load_skipped_message_keys plain_crypto formats again name
        ≡ load_skipped_message_keys plain_crypto formats further name)
unfolding install_sender_key decrypt_group_message encrypt_text aes_gcm_encrypt decrypt_message
    lookup find_row ratchet_chain_key derive_message_key aes_gcm_decrypt verify delete_rows text_eq
    decrypt_text trim_skipped put_all put insert
install_sender_key_resets_example =
    install_sender_key_resets plain_crypto formats further name seed seed twelve opens seals
      formats-Reads refl refl refl refl refl refl
