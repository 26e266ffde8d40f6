-- ===== src/Client.antt =====
-- Chat-Client/core: the local database of a client (LocalStore.cpp) and the part of NetworkManager.cpp
-- that fills it. Ids are natural numbers: an id that is not above 0 is 0, as the guards treat both alike.
-- Text stands for its UTF-8 bytes. A text that is kept encrypted is the initial vector and the sealed
-- bytes, which the source joins in base64 behind a prefix, or none for the empty text.
pub mod Store
pub mod Sync
pub mod Outbox
pub mod SenderKeys
pub mod Examples
use xlchat_project.Common.{
  ℕ, ℤ, pos, negsuc, Bool, true, false, ◌&&◌, ◌||◌, Option, none, some, List, [], ◌∷◌, ◌==◌, length,
  if◌then◌else◌, Text, codes, text_eq, is_empty,
}
use xlchat_project.Envelope.{is_one}
use xlchat_project.Ratchet.{Bytes, Crypto, aes_gcm_encrypt, aes_gcm_decrypt}

abbrev pub Cipher : Type 0
Cipher = Option (Bytes × Bytes)

module _ (c : Crypto) where
  -- `random` is what RAND_bytes gives for the initial vector.
  unfoldable pub encrypt_text : Bytes → Text → Option Bytes → Cipher
  encrypt_text key plaintext random =
      if is_empty plaintext then none else aes_gcm_encrypt c key plaintext random

  unfoldable pub decrypt_text : Bytes → Cipher → Text
  decrypt_text key none = []
  decrypt_text key (some (iv, ct)) =
      if is_empty iv || is_empty ct then [] else aes_gcm_decrypt c key iv ct

-- What QJsonDocument reads of a text: `none` where it is no object.
pub record Root : Type 0 where
  pub v : ℤ
  pub type : Text
  pub has_devices : Bool

abbrev pub starts_object : Text → Bool
starts_object [] = false
starts_object (x ∷ xs) = x == 123

module _ (parse : Text → Option Root) where
  unfoldable pub looks_like_envelope : Text → Bool
  looks_like_envelope content = elim (parse content) [
    | none ↦ false
    | some root ↦ starts_object content && (is_one root.v && root.has_devices)
  ]

  unfoldable pub looks_like_group_message : Text → Bool
  looks_like_group_message content = elim (parse content) [
    | none ↦ false
    | some root ↦ starts_object content && (is_one root.v && text_eq root.type (codes "group_e2ee"))
  ]

  unfoldable pub looks_like_distribution : Text → Bool
  looks_like_distribution content = elim (parse content) [
    | none ↦ false
    | some root ↦
        starts_object content
        && (is_one root.v && text_eq root.type (codes "sender_key_distribution"))
  ]

  -- Content that is no text for a user.
  abbrev pub is_envelope : Text → Bool
  is_envelope content =
      looks_like_envelope content
      || (looks_like_group_message content || looks_like_distribution content)
