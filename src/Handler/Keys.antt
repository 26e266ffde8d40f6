-- ===== src/Handler/Keys.antt =====
-- RequestHandler.cpp: processRegisterKeysRequest and processFetchKeysRequest.
pub mod Quota
use xlchat_project.Common.{
  ℕ, ◌+◌, Bool, true, false, not, ◌&&◌, ◌||◌, Option, none, some, List, [], ◌∷◌, ◌==◌, ltb,
  if◌then◌else◌, Text, is_empty, text_eq, length, find_row, has_row,
}
use xlchat_project.RateWindow.{allow}
use xlchat_project.Database.{Db, IdentityKey}
use xlchat_project.Database.Prekeys.{
  has_no_keys, upsert_identity_key, upload_prekeys, prekey_count, ClaimedPrekey, claim_prekeys,
  get_identity_keys_by_user,
}
use xlchat_project.Handler.{
  ok, invalid_request, internal_error, cannot_send_to_self, rate_limited, account_not_found,
  key_bundle_unavailable, register_keys, fetch_keys, response_to, registered_keys, key_bundles,
  Bundle, respond, Conn, World, emit, reply,
}
use xlchat_project.Handler.Login.{Call}

abbrev pub max_prekeys_per_batch : ℕ
max_prekeys_per_batch = 100

abbrev pub max_prekeys_per_device : ℕ
max_prekeys_per_device = 500

-- The texts as Qt's `trimmed` returns them.
pub record KeysRequest : Type 0 where
  pub identity_pub : Text
  pub prekeys : List Text

-- `decoded_size` is the length of what QByteArray::fromBase64 returns, 0 on a decoding error.
module _ (decoded_size : Text → ℕ) where
  unfoldable pub are_keys : List Text → Bool
  are_keys [] = true
  are_keys (k ∷ ks) = decoded_size k == 32 && are_keys ks

  abbrev pub keys_registered : World → Call → ℕ → World
  keys_registered w c uploaded =
      emit
        (respond c.request_id (response_to register_keys) ok
          (registered_keys uploaded (prekey_count w.db w.conn.user w.conn.device)))
        w

  -- The batch of prekeys, once the identity key is stored.
  unfoldable pub upload_batch : World → Call → List Text → World
  unfolding are_keys
  upload_batch w c keys =
      let done = upload_prekeys w.db w.conn.user w.conn.device keys in
      if has_no_keys keys
      then keys_registered w c 0
      else if ltb max_prekeys_per_batch (length keys)
      then reply c.request_id register_keys invalid_request w
      else if ltb max_prekeys_per_device (prekey_count w.db w.conn.user w.conn.device + length keys)
      then reply c.request_id register_keys invalid_request w
      else if not (are_keys keys)
      then reply c.request_id register_keys invalid_request w
      else elim done.1 [
        | none ↦ reply c.request_id register_keys internal_error (record w { db = done.0 })
        | some n ↦ keys_registered (record w { db = done.0 }) c n
      ]

  unfoldable pub process_register_keys : World → Call → KeysRequest → World
  unfolding upload_batch
  process_register_keys w c r =
      let stored = upsert_identity_key w.db w.conn.user w.conn.device r.identity_pub in
      if is_empty r.identity_pub || not (decoded_size r.identity_pub == 32)
      then reply c.request_id register_keys invalid_request w
      else if not stored.1
      then reply c.request_id register_keys internal_error (record w { db = stored.0 })
      else upload_batch (record w { db = stored.0 }) c r.prekeys

-- Claimed prekeys of devices with an identity key that is not empty; (user, device) is unique.
unfoldable pub make_bundles : List IdentityKey → List ClaimedPrekey → List Bundle
make_bundles keys [] = []
make_bundles keys (c ∷ cs) =
    let rest = make_bundles keys cs in
    elim (find_row (λ k. text_eq k.device c.device) keys) [
      | none ↦ rest
      | some k ↦
          if is_empty k.identity_pub
          then rest
          else record {
            device = c.device;
            identity_pub = k.identity_pub;
            prekey_id = c.prekey_id;
            prekey_pub = c.prekey_pub;
          }
            ∷ rest
    ]

unfoldable pub has_bundles : List Bundle → Bool
has_bundles [] = false
has_bundles (b ∷ bs) = true

-- From the claim on. A claim that finds no prekey makes no bundle.
unfoldable pub claim_bundles : World → Call → ℕ → World
unfolding make_bundles has_bundles
claim_bundles w c target =
    let claimed = claim_prekeys w.db target c.now in
    let bundles = make_bundles (get_identity_keys_by_user claimed.0 target) claimed.1 in
    let w' : World = record w { db = claimed.0 } in
    if has_bundles bundles
    then emit (respond c.request_id (response_to fetch_keys) ok (key_bundles bundles)) w'
    else reply c.request_id fetch_keys key_bundle_unavailable w'

unfoldable pub process_fetch_keys : World → Call → ℕ → World
unfolding claim_bundles
process_fetch_keys w c target =
    let admitted = allow w.conn.fetch_keys_window c.now in
    let w' : World = record w { conn = record w.conn { fetch_keys_window = admitted.0 } } in
    if target == 0 || target == w.conn.user
    then reply c.request_id fetch_keys cannot_send_to_self w
    else if not admitted.1
    then reply c.request_id fetch_keys rate_limited w'
    else if not (w.db.available && has_row (λ d. d.user == target) w.db.devices)
    then reply c.request_id fetch_keys account_not_found w'
    else claim_bundles w' c target
