-- ===== src/Ratchet/Content.antt =====
-- GroupE2eeCrypto::encodeGroupMessage and encodeDistribution, against the decoders of Envelope.
use xlchat_project.Common.{
  ℕ, pos, ◌≤◌, ◌≡◌, refl, Bool, true, false, not, ◌&&◌, Option, some, List, [], ◌∷◌, ◌==◌, length,
  Text, codes, text_eq_iff, is_empty, arith,
}
use xlchat_project.Envelope.{
  EntryJson, GroupMessageJson, DistributionJson, Recipient, GroupMessage, is_one, natural, user_id,
  max_message_iteration, decode_entry, decode_group_message, decode_recipients, decode_distribution,
}
use xlchat_project.Envelope.Laws.{is_well_formed}
use xlchat_project.Ratchet.{SenderKey, EncryptedMessage}
use xlchat_project.Ratchet.Receive.{is_acceptable}

abbrev pub read_message : GroupMessage → EncryptedMessage
read_message g = record {
  key_id = g.key_id;
  iteration = g.iteration;
  iv = g.iv;
  ciphertext = g.ciphertext;
  signature = g.signature;
  valid = true;
}

-- A recipient with an id and a well-formed entry.
unfoldable pub are_recipients : List Recipient → Bool
are_recipients [] = true
are_recipients (r ∷ rs) = not (r.user == 0) && (is_well_formed r.envelope && are_recipients rs)

module _ (encode64 : List ℕ → Text) where
  unfoldable pub encode_group_message : EncryptedMessage → Text → GroupMessageJson
  encode_group_message m device = record {
    v = pos 1;
    type = codes "group_e2ee";
    key_id = m.key_id;
    iteration = pos m.iteration;
    sender_device = device;
    iv = encode64 m.iv;
    ct = encode64 m.ciphertext;
    sig = encode64 m.signature;
  }

  unfoldable pub encode_recipients : List Recipient → List (Option EntryJson)
  encode_recipients [] = []
  encode_recipients (r ∷ rs) =
      some (record {
        user = pos r.user;
        device = r.envelope.device;
        prekey_id = pos r.envelope.prekey_id;
        eph = encode64 r.envelope.ephemeral;
        iv = encode64 r.envelope.iv;
        ct = encode64 r.envelope.ciphertext;
      })
      ∷ encode_recipients rs

  unfoldable pub encode_distribution : ℕ → ℕ → Text → SenderKey → List Recipient → DistributionJson
  unfolding encode_recipients
  encode_distribution group sender device key entries = record {
    v = pos 1;
    type = codes "sender_key_distribution";
    group = pos group;
    sender = pos sender;
    sender_device = device;
    key_id = key.key_id;
    signing_key = encode64 key.public_key;
    devices = encode_recipients entries;
  }

module _ (decode64 : Text → List ℕ) (encode64 : List ℕ → Text)
    (round : (bytes : List ℕ) → decode64 (encode64 bytes) ≡ bytes) where
  -- A group message that decryptMessage would look at, which names its key and has an iteration within
  -- the decoder's bound, is read back as it was written.
  pub decode_group_message-encode :
      (m : EncryptedMessage) (device : Text)
      → is_acceptable m ≡ true
      → is_empty m.key_id ≡ false
      → m.iteration ≤ max_message_iteration
      → (g : GroupMessage) × (decode_group_message decode64
            (some (encode_group_message encode64 m device))
          ≡ some g)
        × (read_message g ≡ m)
        × (g.sender_device ≡ device)
  unfolding decode_group_message encode_group_message is_one natural
  decode_group_message-encode m device a k b = (
    record {
      key_id = m.key_id;
      iteration = m.iteration;
      sender_device = device;
      iv = m.iv;
      ciphertext = m.ciphertext;
      signature = m.signature;
    },
    ground (
      arith,
      a,
      k,
      round m.iv,
      round m.ciphertext,
      round m.signature,
      (text_eq_iff (codes "group_e2ee") (codes "group_e2ee")).1 refl,
    ),
    ground (arith, a),
    refl,
  )

  decode_recipients-encode :
      (rs : List Recipient)
      → are_recipients rs ≡ true
      → decode_recipients decode64 (encode_recipients encode64 rs) ≡ rs
  unfolding decode_recipients encode_recipients are_recipients decode_entry natural user_id
  decode_recipients-encode [] h = refl
  decode_recipients-encode (r ∷ rs) h = ground (
    arith,
    decode_recipients-encode rs,
    round r.envelope.ephemeral,
    round r.envelope.iv,
    round r.envelope.ciphertext,
  )

  -- A distribution of a sender key is read back as it was written: its public parts, and every entry.
  pub decode_distribution-encode :
      (group sender : ℕ) (device : Text) (key : SenderKey) (entries : List Recipient)
      → is_empty key.key_id ≡ false
      → length key.public_key ≡ 32
      → are_recipients entries ≡ true
      → decode_distribution decode64
          (some (encode_distribution encode64 group sender device key entries))
        ≡ some (record {
          group = pos group;
          sender = pos sender;
          sender_device = device;
          key_id = key.key_id;
          signing_key = key.public_key;
          recipients = entries;
        })
  unfolding decode_distribution encode_distribution is_one
  decode_distribution-encode group sender device key entries k s r = ground (
    arith,
    k,
    s,
    round key.public_key,
    decode_recipients-encode entries r,
    (text_eq_iff (codes "sender_key_distribution") (codes "sender_key_distribution")).1 refl,
  )
