-- ===== src/Ratchet/Receive.antt =====
-- GroupE2eeCrypto::decryptMessage. The receiver's state of one sender key is the chain key, its
-- iteration and the map of skipped message keys, which the one caller of the program always passes.
use xlchat_project.Common.{
  ℕ, zero, suc, ◌-◌, Bool, not, ◌&&◌, Option, none, some, [], ◌++◌, ◌==◌, leb, ltb, length,
  if◌then◌else◌, is_empty,
}
use xlchat_project.Common.Dict.{Dict, nat_eq, lookup, remove}
use xlchat_project.Ratchet.{
  Bytes, Crypto, EncryptedMessage, ratchet_chain_key, derive_message_key, verify, aes_gcm_decrypt,
}
use xlchat_project.Ratchet.Skipped.{put, put_all, trim_skipped}

pub record Receiver : Type 0 where
  pub chain_key : Bytes
  pub iteration : ℕ
  pub skipped : Dict ℕ Bytes

-- The local chain of a call, and the keys that it skipped.
pub record Walk : Type 0 where
  pub chain_key : Bytes
  pub iteration : ℕ
  pub pending : Dict ℕ Bytes

abbrev pub is_acceptable : EncryptedMessage → Bool
is_acceptable m =
    m.valid
    && (length m.iv == 12
        && (leb 16 (length m.ciphertext) && (length m.signature == 64 && ltb 0 m.iteration)))

module _ (c : Crypto) where
  -- A turn of the loop; `target` is the message's iteration.
  unfoldable pub ratchet_step : ℕ → Walk → Option Walk
  ratchet_step target w =
      let next = ratchet_chain_key c w.chain_key in
      let n = suc w.iteration in
      let key = derive_message_key c next n in
      if is_empty next
      then none
      else if ltb n target
      then (if is_empty key
          then none
          else some (record { chain_key = next; iteration = n; pending = put n key w.pending }))
      else some (record { chain_key = next; iteration = n; pending = w.pending })

  -- The loop, on the number of turns left.
  unfoldable pub ratchet_to : ℕ → ℕ → Walk → Option Walk
  unfolding ratchet_step
  ratchet_to target zero w = some w
  ratchet_to target (suc turns) w = elim (ratchet_step target w) [
    | none ↦ none
    | some v ↦ ratchet_to target turns v
  ]

  -- Decryption, and then the check of the signature; empty where either fails.
  unfoldable pub open_message : Bytes → Bytes → EncryptedMessage → Bytes
  open_message public_key key m =
      let plain = aes_gcm_decrypt c key m.iv m.ciphertext in
      if is_empty plain
      then []
      else if verify c public_key (m.iv ++ m.ciphertext) m.signature
      then plain
      else []

  -- A message of a skipped iteration.
  unfoldable pub consume : Bytes → Receiver → EncryptedMessage → Bytes → Receiver × Bytes
  unfolding open_message
  consume public_key r m key =
      let plain = open_message public_key key m in
      if is_empty plain
      then (r, [])
      else (record r { skipped = remove m.iteration r.skipped }, plain)

  -- The rest of the call, once the local chain has reached the message.
  unfoldable pub commit : Bytes → Receiver → EncryptedMessage → Walk → Receiver × Bytes
  unfolding open_message
  commit public_key r m w =
      let key = derive_message_key c w.chain_key w.iteration in
      let plain = open_message public_key key m in
      if is_empty key then (r, []) else if is_empty plain then (r, []) else (
        record {
          chain_key = w.chain_key;
          iteration = w.iteration;
          skipped = trim_skipped (put_all w.pending r.skipped);
        },
        plain,
      )

  unfoldable pub advance : Bytes → Receiver → EncryptedMessage → Receiver × Bytes
  unfolding ratchet_to commit
  advance public_key r m =
      elim (ratchet_to m.iteration (m.iteration - r.iteration)
        (record { chain_key = r.chain_key; iteration = r.iteration; pending = [] })) [
          | none ↦ (r, [])
          | some w ↦ commit public_key r m w
        ]

  -- An empty result is a failure.
  unfoldable pub decrypt_message : Bytes → Receiver → EncryptedMessage → Receiver × Bytes
  unfolding consume advance
  decrypt_message public_key r m =
      if not (is_acceptable m && length r.chain_key == 32)
      then (r, [])
      else elim (lookup m.iteration r.skipped) [
        | some key ↦ consume public_key r m key
        | none ↦
            if leb m.iteration r.iteration
            then (r, [])
            else if ltb 2000 (m.iteration - r.iteration)
            then (r, [])
            else advance public_key r m
      ]
