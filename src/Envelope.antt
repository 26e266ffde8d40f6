-- ===== src/Envelope.antt =====
-- CommonModule/encryption: the checks of encrypted content that the server makes before it stores it.
-- QJsonDocument and QByteArray::fromBase64 are not modelled: content comes as the fields that Qt reads
-- from its JSON object, and `decode64` gives the bytes of a text, none for a text that is not base64.
pub mod Laws
use xlchat_project.Common.{
  ℕ, ℤ, pos, negsuc, Bool, true, false, not, ◌&&◌, ◌||◌, Option, none, some, List, [], ◌∷◌, ◌==◌,
  ltb, leb, length, if◌then◌else◌, Text, codes, text_eq, is_empty,
}

-- An entry of "devices" as it is read: absent text is empty, an absent number 0.
pub record EntryJson : Type 0 where
  pub user : ℤ
  pub device : Text
  pub prekey_id : ℤ
  pub eph : Text
  pub iv : Text
  pub ct : Text

-- `devices` is `none` where it is no array, and an entry where it is no object.
pub record EnvelopeJson : Type 0 where
  pub v : ℤ
  pub devices : Option (List (Option EntryJson))

pub record GroupMessageJson : Type 0 where
  pub v : ℤ
  pub type : Text
  pub key_id : Text
  pub iteration : ℤ
  pub sender_device : Text
  pub iv : Text
  pub ct : Text
  pub sig : Text

-- A "devices" that is no array reads as an empty one.
pub record DistributionJson : Type 0 where
  pub v : ℤ
  pub type : Text
  pub group : ℤ
  pub sender : ℤ
  pub sender_device : Text
  pub key_id : Text
  pub signing_key : Text
  pub devices : List (Option EntryJson)

pub record EnvelopeEntry : Type 0 where
  pub device : Text
  pub prekey_id : ℕ
  pub ephemeral : List ℕ
  pub iv : List ℕ
  pub ciphertext : List ℕ

-- DistributionEntry
pub record Recipient : Type 0 where
  pub user : ℕ
  pub envelope : EnvelopeEntry

-- `encode64` is QByteArray::toBase64.
module _ (encode64 : List ℕ → Text) where
  unfoldable pub encode_entries : List EnvelopeEntry → List (Option EntryJson)
  encode_entries [] = []
  encode_entries (e ∷ es) =
      some (record {
        user = pos 0;
        device = e.device;
        prekey_id = pos e.prekey_id;
        eph = encode64 e.ephemeral;
        iv = encode64 e.iv;
        ct = encode64 e.ciphertext;
      })
      ∷ encode_entries es

  unfoldable pub encode_envelope : List EnvelopeEntry → EnvelopeJson
  unfolding encode_entries
  encode_envelope es = record { v = pos 1; devices = some (encode_entries es) }

-- A decoded group message, and a decoded distribution of a sender key.
pub record GroupMessage : Type 0 where
  pub key_id : Text
  pub iteration : ℕ
  pub sender_device : Text
  pub iv : List ℕ
  pub ciphertext : List ℕ
  pub signature : List ℕ

pub record Distribution : Type 0 where
  pub group : ℤ
  pub sender : ℤ
  pub sender_device : Text
  pub key_id : Text
  pub signing_key : List ℕ
  pub recipients : List Recipient

unfoldable pub is_one : ℤ → Bool
is_one (pos n) = n == 1
is_one (negsuc n) = false

-- A number that is not negative.
unfoldable pub natural : ℤ → Option ℕ
natural (pos n) = some n
natural (negsuc n) = none

abbrev pub max_message_iteration : ℕ
max_message_iteration = 100000000

module _ (decode64 : Text → List ℕ) where
  -- eph 32 bytes, iv 12, ct at least the tag's 16
  abbrev pub has_sizes : EntryJson → Bool
  has_sizes e =
      length (decode64 e.eph) == 32
      && (length (decode64 e.iv) == 12 && leb 16 (length (decode64 e.ct)))

  unfoldable pub decode_entry : EntryJson → Option EnvelopeEntry
  unfolding natural
  decode_entry e = elim (natural e.prekey_id) [
    | none ↦ none
    | some id ↦
        if is_empty e.device || not (has_sizes e)
        then none
        else some (record {
          device = e.device;
          prekey_id = id;
          ephemeral = decode64 e.eph;
          iv = decode64 e.iv;
          ciphertext = decode64 e.ct;
        })
  ]

  -- An entry that is refused refuses the envelope.
  unfoldable pub join_entry :
      Option EnvelopeEntry → Option (List EnvelopeEntry) → Option (List EnvelopeEntry)
  join_entry none rest = none
  join_entry (some e) none = none
  join_entry (some e) (some es) = some (e ∷ es)

  unfoldable pub decode_entries : List (Option EntryJson) → Option (List EnvelopeEntry)
  unfolding decode_entry join_entry
  decode_entries [] = some []
  decode_entries (none ∷ es) = none
  decode_entries (some e ∷ es) = join_entry (decode_entry e) (decode_entries es)

  -- `none` is content without a JSON object.
  unfoldable pub decode_envelope : Option EnvelopeJson → Option (List EnvelopeEntry)
  unfolding decode_entries is_one
  decode_envelope none = none
  decode_envelope (some j) = elim j.devices [
    | none ↦ none
    | some [] ↦ none
    | some (d ∷ ds) ↦ if is_one j.v then decode_entries (d ∷ ds) else none
  ]

  unfoldable pub decode_group_message : Option GroupMessageJson → Option GroupMessage
  unfolding is_one natural
  decode_group_message none = none
  decode_group_message (some j) = elim (natural j.iteration) [
    | none ↦ none
    | some n ↦
        if not (is_one j.v) || not (text_eq j.type (codes "group_e2ee"))
        then none
        else if is_empty j.key_id
            || (n == 0
                || (ltb max_message_iteration n
                    || (not (length (decode64 j.iv) == 12)
                        || (ltb (length (decode64 j.ct)) 16
                            || not (length (decode64 j.sig) == 64)))))
        then none
        else some (record {
          key_id = j.key_id;
          iteration = n;
          sender_device = j.sender_device;
          iv = decode64 j.iv;
          ciphertext = decode64 j.ct;
          signature = decode64 j.sig;
        })
  ]

  -- The user's id of an entry: 0 where it is not positive.
  unfoldable pub user_id : ℤ → ℕ
  user_id (pos n) = n
  user_id (negsuc n) = 0

  -- Here an entry that is refused is left out.
  unfoldable pub decode_recipients : List (Option EntryJson) → List Recipient
  unfolding decode_entry user_id
  decode_recipients [] = []
  decode_recipients (none ∷ es) = decode_recipients es
  decode_recipients (some e ∷ es) =
      let rest = decode_recipients es in
      elim (decode_entry e) [
        | none ↦ rest
        | some d ↦
            if user_id e.user == 0
            then rest
            else record { user = user_id e.user; envelope = d } ∷ rest
      ]

  unfoldable pub decode_distribution : Option DistributionJson → Option Distribution
  unfolding decode_recipients is_one
  decode_distribution none = none
  decode_distribution (some j) =
      if not (is_one j.v) || not (text_eq j.type (codes "sender_key_distribution"))
      then none
      else if is_empty j.key_id || not (length (decode64 j.signing_key) == 32)
      then none
      else some (record {
        group = j.group;
        sender = j.sender;
        sender_device = j.sender_device;
        key_id = j.key_id;
        signing_key = decode64 j.signing_key;
        recipients = decode_recipients j.devices;
      })
