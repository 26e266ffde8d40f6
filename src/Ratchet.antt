-- ===== src/Ratchet.antt =====
-- CommonModule/encryption/GroupE2eeCrypto.cpp and the AES-GCM of E2eeCrypto.cpp: sender keys of groups.
-- OpenSSL and Qt's formats of numbers and bytes are the fields of `Crypto`; a call that fails gives `none`.
-- Random bytes come as arguments. Wiping memory leaves nothing to model. An iteration is an int that
-- the decoder of messages and the store keep above -1.
pub mod Skipped
pub mod Receive
pub mod Outcome
pub mod Chain
pub mod Replay
pub mod Arrival
pub mod Delivery
pub mod Sender
pub mod Content
mod Tests
use xlchat_project.Common.{
  ℕ, zero, suc, ◌+◌, Bool, true, false, not, ◌&&◌, ◌||◌, Option, none, some, List, [], ◌∷◌, ◌++◌,
  ◌==◌, leb, length, take, if◌then◌else◌, Text, codes, is_empty,
}

abbrev pub Bytes : Type 0
Bytes = List ℕ

pub record Crypto : Type 0 where
  -- key, salt, info
  pub hkdf : Bytes → Bytes → Bytes → Option Bytes
  -- key, initial vector, plaintext or ciphertext with its tag
  pub gcm_seal : Bytes → Bytes → Bytes → Option Bytes
  pub gcm_open : Bytes → Bytes → Bytes → Option Bytes
  -- private key, message
  pub ed_sign : Bytes → Bytes → Option Bytes
  -- public key, message, signature
  pub ed_verify : Bytes → Bytes → Bytes → Bool
  pub sha256 : Bytes → Bytes
  pub hex : Bytes → Text
  -- QByteArray::number
  pub number : ℕ → Bytes

pub record SenderKey : Type 0 where
  pub key_id : Text
  pub chain_key : Bytes
  pub public_key : Bytes
  pub private_key : Bytes
  pub iteration : ℕ
  pub valid : Bool

pub record EncryptedMessage : Type 0 where
  pub key_id : Text
  pub iteration : ℕ
  pub iv : Bytes
  pub ciphertext : Bytes
  pub signature : Bytes
  pub valid : Bool

abbrev pub no_key : SenderKey
no_key = record {
  key_id = [];
  chain_key = [];
  public_key = [];
  private_key = [];
  iteration = 0;
  valid = false;
}

abbrev pub no_message : EncryptedMessage
no_message = record {
  key_id = [];
  iteration = 0;
  iv = [];
  ciphertext = [];
  signature = [];
  valid = false;
}

abbrev pub bytes_or_empty : Option Bytes → Bytes
bytes_or_empty none = []
bytes_or_empty (some b) = b

module _ (c : Crypto) where
  -- A derived key of another length than 32 is a failure.
  unfoldable pub hkdf_single : Bytes → Bytes → Bytes → Bytes
  hkdf_single key salt info = elim (c.hkdf key salt info) [
    | none ↦ []
    | some derived ↦ if length derived == 32 then derived else []
  ]

  unfoldable pub ratchet_chain_key : Bytes → Bytes
  unfolding hkdf_single
  ratchet_chain_key chain_key =
      if length chain_key == 32 then hkdf_single chain_key (codes "xychat-grp-chain") [] else []

  unfoldable pub derive_message_key : Bytes → ℕ → Bytes
  unfolding hkdf_single
  derive_message_key chain_key iteration =
      if length chain_key == 32
      then hkdf_single chain_key (codes "xychat-grp-chain")
          (codes "xychat-grp-msg" ++ c.number iteration)
      else []

  unfoldable pub sign : Bytes → Bytes → Bytes
  sign private_key message =
      if not (length private_key == 32) || is_empty message
      then []
      else elim (c.ed_sign private_key message) [
        | none ↦ []
        | some signature ↦ if length signature == 64 then signature else []
      ]

  unfoldable pub verify : Bytes → Bytes → Bytes → Bool
  verify public_key message signature =
      if not (length public_key == 32) || (not (length signature == 64) || is_empty message)
      then false
      else c.ed_verify public_key message signature

  -- `iv` is what RAND_bytes filled, `none` where it failed. The result is `none` where valid is false.
  unfoldable pub aes_gcm_encrypt : Bytes → Bytes → Option Bytes → Option (Bytes × Bytes)
  aes_gcm_encrypt key plaintext none = none
  aes_gcm_encrypt key plaintext (some iv) =
      if length key == 32
      then elim (c.gcm_seal key iv plaintext) [ none ↦ none | some sealed ↦ some (iv, sealed) ]
      else none

  unfoldable pub aes_gcm_decrypt : Bytes → Bytes → Bytes → Bytes
  aes_gcm_decrypt key iv ciphertext =
      if not (length key == 32) || (not (length iv == 12) || not (leb 16 (length ciphertext)))
      then []
      else bytes_or_empty (c.gcm_open key iv ciphertext)

  -- `pair` is what the generation of Ed25519 keys gives, public key first; `random` 32 random bytes,
  -- or none where they failed.
  unfoldable pub generate_sender_key : Option (Bytes × Bytes) → Bytes → SenderKey
  generate_sender_key none random = no_key
  generate_sender_key (some (public, private)) random =
      if not (length public == 32) || (not (length private == 32) || not (length random == 32))
      then no_key
      else record {
        key_id = c.hex (take 16 (c.sha256 public));
        chain_key = random;
        public_key = public;
        private_key = private;
        iteration = 0;
        valid = true;
      }

  -- encryptMessage behind the step of the chain
  unfoldable pub seal_message : SenderKey → Bytes → Option Bytes → EncryptedMessage
  unfolding derive_message_key aes_gcm_encrypt sign
  seal_message key plaintext random =
      let message_key = derive_message_key key.chain_key key.iteration in
      if is_empty message_key
      then no_message
      else elim (aes_gcm_encrypt message_key plaintext random) [
        | none ↦ no_message
        | some (iv, sealed) ↦
            let signature = sign key.private_key (iv ++ sealed) in
            if is_empty signature then no_message else record {
              key_id = key.key_id;
              iteration = key.iteration;
              iv = iv;
              ciphertext = sealed;
              signature = signature;
              valid = true;
            }
      ]

  unfoldable pub encrypt_message : SenderKey → Bytes → Option Bytes → SenderKey × EncryptedMessage
  unfolding ratchet_chain_key seal_message
  encrypt_message key plaintext random =
      let next = ratchet_chain_key key.chain_key in
      if not key.valid || is_empty plaintext
      then (key, no_message)
      else if is_empty next
      then (key, no_message)
      else let stepped = record key { chain_key = next; iteration = suc key.iteration } in
        (stepped, seal_message stepped plaintext random)
