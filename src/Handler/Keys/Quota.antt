-- ===== src/Handler/Keys/Quota.antt =====
-- Key registration and the quota of unused prekeys.
use xlchat_project.Common.{
  ℕ, suc, ◌+◌, ◌≤◌, ◌≡◌, refl, Bool, ◌&&◌, ◌||◌, List, [], ◌∷◌, ◌++◌, Text, length, arith,
  count_rows, count_rows-append, delete_rows,
}
use xlchat_project.Database.{Db, Prekey, unused}
use xlchat_project.Database.Prekeys.{
  is_unused, is_claimed, owned_by, has_no_keys, insert_prekeys, upload_prekeys, prekey_count,
  purge_stale, upsert_identity_key,
}
use xlchat_project.Handler.{World}
use xlchat_project.Handler.Login.{Call}
use xlchat_project.Handler.Keys.{KeysRequest, upload_batch, process_register_keys}

abbrev stock : ℕ → Text → Db → ℕ
stock user device db = count_rows (λ p. owned_by user device p && is_unused p.status) db.prekeys

count_rows-delete_rows :
    (p q : Prekey → Bool) (rows : List Prekey)
    → count_rows p (delete_rows q rows) ≤ count_rows p rows
unfolding count_rows delete_rows
count_rows-delete_rows p q [] = omega arith
count_rows-delete_rows p q (x ∷ rows) = ground (arith, count_rows-delete_rows p q rows)

stock-insert_prekeys :
    (db : Db) (user : ℕ) (device : Text) (keys : List Text) (u : ℕ) (d : Text)
    → stock u d (insert_prekeys db user device keys).0 ≤ stock u d db + length keys
unfolding insert_prekeys count_rows is_unused
stock-insert_prekeys db user device [] u d = omega arith
stock-insert_prekeys db user device (key ∷ keys) u d =
    let row : Prekey = record {
      id = db.next_prekey;
      user = user;
      device = device;
      pub_key = key;
      status = unused;
    } in
    ground (
      arith,
      stock-insert_prekeys db user device keys u d,
      stock-insert_prekeys
          (record db { prekeys = db.prekeys ++ row ∷ []; next_prekey = suc db.next_prekey }) user
          device keys u d,
      count_rows-append (λ p. owned_by u d p && is_unused p.status) db.prekeys (row ∷ []),
    )

insert_prekeys_keeps_available :
    (db : Db) (user : ℕ) (device : Text) (keys : List Text)
    → (insert_prekeys db user device keys).0.available ≡ db.available
unfolding insert_prekeys
insert_prekeys_keeps_available db user device [] = refl
insert_prekeys_keeps_available db user device (key ∷ keys) =
    let row : Prekey = record {
      id = db.next_prekey;
      user = user;
      device = device;
      pub_key = key;
      status = unused;
    } in
    ground (
      arith,
      insert_prekeys_keeps_available db user device keys,
      insert_prekeys_keeps_available
          (record db { prekeys = db.prekeys ++ row ∷ []; next_prekey = suc db.next_prekey }) user
          device keys,
    )

stock-upsert_identity_key :
    (db : Db) (user : ℕ) (device key : Text) (u : ℕ) (d : Text)
    → (stock u d (upsert_identity_key db user device key).0 ≤ stock u d db)
      × ((upsert_identity_key db user device key).0.available ≡ db.available)
unfolding upsert_identity_key purge_stale
stock-upsert_identity_key db user device key u d = ground (
  arith,
  count_rows-delete_rows (λ p. owned_by u d p && is_unused p.status)
      (λ p. owned_by user device p && (is_unused p.status || is_claimed p.status)) db.prekeys,
)

-- A device that registers keys has at most 500 unused prekeys on record afterwards, if it had no more
-- before, whatever the request and its outcome.
pub process_register_keys_quota :
    (decoded_size : Text → ℕ) (w : World) (c : Call) (r : KeysRequest)
    → prekey_count w.db w.conn.user w.conn.device ≤ 500
    → prekey_count (process_register_keys decoded_size w c r).db w.conn.user w.conn.device ≤ 500
unfolding process_register_keys upload_batch upload_prekeys prekey_count has_no_keys
process_register_keys_quota decoded_size w c r h =
    let u = w.conn.user in
    let d = w.conn.device in
    let stored = (upsert_identity_key w.db u d r.identity_pub).0 in
    ground (
      arith,
      stock-upsert_identity_key w.db u d r.identity_pub u d,
      stock-insert_prekeys stored u d r.prekeys u d,
      insert_prekeys_keeps_available stored u d r.prekeys,
    )
