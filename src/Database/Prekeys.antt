-- ===== src/Database/Prekeys.antt =====
-- DatabaseManager.cpp: identity keys and one-time prekeys. The devices of a claim are visited in the
-- order of their first row; SQL's DISTINCT leaves the order open.
pub mod Claims
pub mod Once
use xlchat_project.Common.{
  ℕ, zero, suc, ◌+◌, Bool, true, false, not, ◌&&◌, ◌||◌, Option, none, some, List, [], ◌∷◌, ◌++◌,
  ◌==◌, leb, if◌then◌else◌, Text, text_eq, is_empty, has_row, find_row, select, count_rows,
  update_rows, delete_rows,
}
use xlchat_project.Database.{Db, IdentityKey, Prekey, PrekeyStatus, unused, claimed, used}

unfoldable pub is_unused : PrekeyStatus → Bool
is_unused unused = true
is_unused (claimed at) = false
is_unused used = false

unfoldable pub is_claimed : PrekeyStatus → Bool
is_claimed unused = false
is_claimed (claimed at) = true
is_claimed used = false

abbrev pub claim_seconds : ℕ
claim_seconds = 600

-- status = 'claimed' AND claimed_at <= datetime('now', '-600 seconds')
unfoldable pub is_overdue : ℕ → PrekeyStatus → Bool
is_overdue now unused = false
is_overdue now (claimed at) = leb (at + claim_seconds) now
is_overdue now used = false

abbrev pub owned_by : ℕ → Text → Prekey → Bool
owned_by user device p = p.user == user && text_eq p.device device

abbrev pub key_owned_by : ℕ → Text → IdentityKey → Bool
key_owned_by user device k = k.user == user && text_eq k.device device

abbrev pub set_status : PrekeyStatus → Prekey → Prekey
set_status s p = record p { status = s }

-- The loop of inserts; `none` is a failed one. user_id REFERENCES users(id)
unfoldable pub insert_prekeys : Db → ℕ → Text → List Text → Db × Option ℕ
insert_prekeys db user device [] = (db, some 0)
insert_prekeys db user device (key ∷ keys) =
    let skipped = insert_prekeys db user device keys in
    let inserted =
      insert_prekeys
        (record db {
          prekeys =
              db.prekeys
              ++ record {
                id = db.next_prekey;
                user = user;
                device = device;
                pub_key = key;
                status = unused;
              }
                ∷ [];
          next_prekey = suc db.next_prekey;
        })
        user device keys in
    if is_empty key
    then skipped
    else if not (has_row (λ u. u.id == user) db.users)
    then (db, none)
    else (inserted.0, elim inserted.1 [ none ↦ none | some n ↦ some (suc n) ])

unfoldable pub has_no_keys : List Text → Bool
has_no_keys [] = true
has_no_keys (k ∷ ks) = false

-- `none` is -1. A failure rolls back.
unfoldable pub upload_prekeys : Db → ℕ → Text → List Text → Db × Option ℕ
unfolding insert_prekeys has_no_keys
upload_prekeys db user device keys =
    let done = insert_prekeys db user device keys in
    if is_empty device || has_no_keys keys
    then (db, none)
    else if not db.available
    then (db, none)
    else elim done.1 [ none ↦ (db, none) | some n ↦ (done.0, some n) ]

unfoldable pub prekey_count : Db → ℕ → Text → ℕ
prekey_count db user device =
    if db.available
    then count_rows (λ p. owned_by user device p && is_unused p.status) db.prekeys
    else 0

-- SELECT DISTINCT device_id … WHERE user_id = ? AND status = 'unused'
unfoldable pub is_listed : Text → List Text → Bool
is_listed d [] = false
is_listed d (e ∷ es) = text_eq d e || is_listed d es

unfoldable pub stocked_devices : ℕ → List Prekey → List Text → List Text
unfolding is_listed
stocked_devices user [] seen = seen
stocked_devices user (p ∷ ps) seen =
    let known = stocked_devices user ps seen in
    let added = stocked_devices user ps (seen ++ p.device ∷ []) in
    if p.user == user && is_unused p.status && not (is_listed p.device seen) then added else known

pub record ClaimedPrekey : Type 0 where
  pub device : Text
  pub prekey_id : ℕ
  pub prekey_pub : Text

-- The conditional update that claims a prekey, of a device.
unfoldable pub claim_row : List Prekey → Text → ℕ → Prekey → List Prekey × Option ClaimedPrekey
unfolding is_unused
claim_row rows device now p =
    let updated =
      update_rows (λ q. q.id == p.id && is_unused q.status) (set_status (claimed now)) rows in
    let affected = count_rows (λ q. q.id == p.id && is_unused q.status) rows in
    if affected == 1
    then (updated, some (record { device = device; prekey_id = p.id; prekey_pub = p.pub_key }))
    else (updated, none)

-- The oldest unused prekey of one device is claimed.
unfoldable pub claim_device : List Prekey → ℕ → Text → ℕ → List Prekey × Option ClaimedPrekey
unfolding is_unused claim_row
claim_device rows user device now =
    elim (find_row (λ p. owned_by user device p && is_unused p.status) rows) [
      | none ↦ (rows, none)
      | some p ↦ claim_row rows device now p
    ]

unfoldable pub claim_devices : List Prekey → ℕ → List Text → ℕ → List Prekey × List ClaimedPrekey
unfolding claim_device
claim_devices rows user [] now = (rows, [])
claim_devices rows user (d ∷ ds) now =
    let first = claim_device rows user d now in
    let rest = claim_devices first.0 user ds now in
    elim first.1 [ none ↦ rest | some c ↦ (rest.0, c ∷ rest.1) ]

-- UPDATE prekeys SET status = 'unused', claimed_at = NULL WHERE …
unfoldable pub reclaim : ℕ → List Prekey → List Prekey
unfolding is_overdue
reclaim now rows = update_rows (λ p. is_overdue now p.status) (set_status unused) rows

unfoldable pub claim_prekeys : Db → ℕ → ℕ → Db × List ClaimedPrekey
unfolding reclaim stocked_devices claim_devices
claim_prekeys db user now =
    let rows = reclaim now db.prekeys in
    let done = claim_devices rows user (stocked_devices user rows []) now in
    if db.available then (record db { prekeys = done.0 }, done.1) else (db, [])

unfoldable pub validate_claimed_prekey : Db → ℕ → Text → ℕ → Bool
unfolding is_claimed
validate_claimed_prekey db user device id =
    db.available
    && has_row (λ p. p.id == id && owned_by user device p && is_claimed p.status) db.prekeys

unfoldable pub consume_rows : List Prekey → List ℕ → List Prekey × ℕ
unfolding is_claimed
consume_rows rows [] = (rows, 0)
consume_rows rows (id ∷ ids) =
    let updated = update_rows (λ p. p.id == id && is_claimed p.status) (set_status used) rows in
    let affected = count_rows (λ p. p.id == id && is_claimed p.status) rows in
    let rest = consume_rows updated ids in (rest.0, (if affected == 1 then 1 else 0) + rest.1)

unfoldable pub consume_prekeys : Db → List ℕ → Db × ℕ
unfolding consume_rows
consume_prekeys db ids =
    let done = consume_rows db.prekeys ids in
    if db.available then (record db { prekeys = done.0 }, done.1) else (db, 0)

-- What a new identity key of the device invalidates: the prekeys that are unused or claimed.
unfoldable pub purge_stale : List IdentityKey → List Prekey → ℕ → Text → Text → List Prekey
purge_stale keys rows user device key = elim (find_row (key_owned_by user device) keys) [
  | none ↦ rows
  | some k ↦
      if text_eq k.identity_pub key
      then rows
      else delete_rows (λ p. owned_by user device p && (is_unused p.status || is_claimed p.status))
          rows
]

-- INSERT … ON CONFLICT(user_id, device_id) DO UPDATE; user_id REFERENCES users(id). The purge comes
-- first and is not undone when the insert fails.
unfoldable pub upsert_identity_key : Db → ℕ → Text → Text → Db × Bool
unfolding purge_stale
upsert_identity_key db user device key =
    let kept = purge_stale db.identity_keys db.prekeys user device key in
    let row : IdentityKey = record { user = user; device = device; identity_pub = key } in
    if is_empty device || is_empty key
    then (db, false)
    else if not db.available
    then (db, false)
    else if not (has_row (λ u. u.id == user) db.users)
    then (record db { prekeys = kept }, false)
    else if has_row (key_owned_by user device) db.identity_keys
    then (
      record db {
        prekeys = kept;
        identity_keys =
            update_rows (key_owned_by user device) (λ k. record k { identity_pub = key })
              db.identity_keys;
      },
      true,
    )
    else (record db { prekeys = kept; identity_keys = db.identity_keys ++ row ∷ [] }, true)

unfoldable pub get_identity_keys_by_user : Db → ℕ → List IdentityKey
get_identity_keys_by_user db user =
    if db.available then select (λ k. k.user == user) db.identity_keys else []

unfoldable pub remove_device_keys : Db → ℕ → Text → Db × Bool
remove_device_keys db user device =
    if db.available
    then (
      record db {
        identity_keys = delete_rows (key_owned_by user device) db.identity_keys;
        prekeys = delete_rows (owned_by user device) db.prekeys;
      },
      true,
    )
    else (db, false)
