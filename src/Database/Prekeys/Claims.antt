-- ===== src/Database/Prekeys/Claims.antt =====
-- Prekeys that are held: used, or claimed within the time that their claim lasts.
use xlchat_project.Common.{
  ℕ, suc, ◌+◌, ◌≤◌, ◌<◌, ◌≡◌, ◌≢◌, refl, Bool, true, false, not, ◌&&◌, ◌||◌, Option, none, some,
  List, [], ◌∷◌, ◌++◌, ◌==◌, if◌then◌else◌, Text, find_row, update_rows, delete_rows, arith,
}
use xlchat_project.Database.{Db, Prekey, PrekeyStatus, unused, claimed, used}
use xlchat_project.Database.Prekeys.{
  is_unused, is_claimed, is_overdue, owned_by, set_status, insert_prekeys, upload_prekeys,
  ClaimedPrekey, claim_row, claim_device, claim_devices, stocked_devices, reclaim, claim_prekeys,
  consume_rows, consume_prekeys, purge_stale, upsert_identity_key, remove_device_keys,
}

unfoldable pub is_status_held : (ℕ → Bool) → PrekeyStatus → Bool
is_status_held lasting unused = false
is_status_held lasting (claimed at) = lasting at
is_status_held lasting used = true

-- The row, if it has this id, is used, or claimed at a time that `lasting` admits.
unfoldable pub is_held : ℕ → (ℕ → Bool) → Prekey → Bool
unfolding is_status_held
is_held k lasting p = if p.id == k then is_status_held lasting p.status else true

unfoldable pub are_held : ℕ → (ℕ → Bool) → List Prekey → Bool
unfolding is_held
are_held k lasting [] = true
are_held k lasting (p ∷ ps) = is_held k lasting p && are_held k lasting ps

unfoldable pub has_claim : ℕ → List ClaimedPrekey → Bool
has_claim k [] = false
has_claim k (c ∷ cs) = c.prekey_id == k || has_claim k cs

-- The operations on the tables of keys, each with its time.
pub data KeyCall : Type 0 where
  upload : ℕ → Text → List Text → KeyCall
  claim : ℕ → KeyCall
  consume : List ℕ → KeyCall
  upsert : ℕ → Text → Text → KeyCall
  remove : ℕ → Text → KeyCall

unfoldable pub call : KeyCall → ℕ → Db → Db
call (upload user device keys) now db = (upload_prekeys db user device keys).0
call (claim user) now db = (claim_prekeys db user now).0
call (consume ids) now db = (consume_prekeys db ids).0
call (upsert user device key) now db = (upsert_identity_key db user device key).0
call (remove user device) now db = (remove_device_keys db user device).0

unfoldable pub run : List (KeyCall × ℕ) → Db → Db
run [] db = db
run (c ∷ cs) db = run cs (call c.0 c.1 db)

-- Every call is made at most at `t`.
abbrev pub Until : ℕ → List (KeyCall × ℕ) → Type 0
Until t [] = Unit
Until t (c ∷ cs) = (c.1 ≤ t) × Until t cs

module _ (k : ℕ) (lasting : ℕ → Bool) where
  unfoldable is_other : Option Prekey → Bool
  is_other none = true
  is_other (some p) = not (p.id == k)

  unfoldable is_other_claim : Option ClaimedPrekey → Bool
  is_other_claim none = true
  is_other_claim (some c) = not (c.prekey_id == k)

  held_lasts :
      (now : ℕ) (s : PrekeyStatus)
      → ((at : ℕ) → lasting at ≡ true → now < at + 600)
      → is_status_held lasting s ≡ true
      → is_overdue now s ≡ false
  unfolding is_status_held is_overdue
  held_lasts now unused l h = refl
  held_lasts now (claimed at) l h = ground (arith, l at h)
  held_lasts now used l h = refl

  claim_status_held :
      (j now : ℕ) (rows : List Prekey)
      → are_held k lasting rows ≡ true
      → are_held k lasting
          (update_rows (λ q. q.id == j && is_unused q.status) (set_status (claimed now)) rows)
        ≡ true
  unfolding are_held is_held update_rows is_unused
  claim_status_held j now [] h = refl
  claim_status_held j now (p ∷ ps) h = ground (arith, claim_status_held j now ps)

  found_not_held :
      (user : ℕ) (device : Text) (rows : List Prekey)
      → are_held k lasting rows ≡ true
      → is_other (find_row (λ q. owned_by user device q && is_unused q.status) rows) ≡ true
  unfolding are_held is_held find_row is_unused is_other is_status_held
  found_not_held user device [] h = refl
  found_not_held user device (q ∷ qs) h = ground (arith, found_not_held user device qs)

  use_held :
      (j : ℕ) (rows : List Prekey)
      → are_held k lasting rows ≡ true
      → are_held k lasting
          (update_rows (λ q. q.id == j && is_claimed q.status) (set_status used) rows)
        ≡ true
  unfolding are_held is_held update_rows is_claimed
  use_held j [] h = refl
  use_held j (p ∷ ps) h = ground (arith, use_held j ps)

  delete_held :
      (q : Prekey → Bool) (rows : List Prekey)
      → are_held k lasting rows ≡ true
      → are_held k lasting (delete_rows q rows) ≡ true
  unfolding are_held delete_rows
  delete_held q [] h = refl
  delete_held q (p ∷ ps) h = ground (arith, delete_held q ps)

  reclaim_held :
      (now : ℕ) (rows : List Prekey)
      → ((at : ℕ) → lasting at ≡ true → now < at + 600)
      → are_held k lasting rows ≡ true
      → are_held k lasting (reclaim now rows) ≡ true
  unfolding are_held is_held reclaim update_rows is_overdue
  reclaim_held now [] l h = refl
  reclaim_held now (p ∷ ps) l h = ground (arith, reclaim_held now ps l, held_lasts now p.status l)

  snoc_held :
      (rows : List Prekey) (p : Prekey)
      → are_held k lasting rows ≡ true
      → p.id ≢ k
      → are_held k lasting (rows ++ p ∷ []) ≡ true
  unfolding are_held is_held
  snoc_held [] p h n = ground arith
  snoc_held (q ∷ qs) p h n = ground (arith, snoc_held qs p)

  insert_held :
      (db : Db) (user : ℕ) (device : Text) (keys : List Text)
      → are_held k lasting db.prekeys ≡ true
      → k < db.next_prekey
      → let done = (insert_prekeys db user device keys).0 in
        (are_held k lasting done.prekeys ≡ true) × (k < done.next_prekey)
  unfolding insert_prekeys
  insert_held db user device [] h b = (h, b)
  insert_held db user device (key ∷ keys) h b = ground (
    arith,
    insert_held db user device keys h b,
    insert_held
        (record db {
          prekeys =
              db.prekeys
              ++ record {
                id = db.next_prekey;
                user = user;
                device = device;
                pub_key = key;
                status = unused;
              }
                ∷ [];
          next_prekey = suc db.next_prekey;
        })
        user device keys,
    snoc_held db.prekeys (record {
      id = db.next_prekey;
      user = user;
      device = device;
      pub_key = key;
      status = unused;
    }),
  )

  claim_row_held :
      (rows : List Prekey) (device : Text) (now : ℕ) (p : Prekey)
      → are_held k lasting rows ≡ true
      → are_held k lasting (claim_row rows device now p).0 ≡ true
  unfolding claim_row
  claim_row_held rows device now p h = ground (arith, claim_status_held p.id now rows h)

  claim_device_held :
      (rows : List Prekey) (user : ℕ) (device : Text) (now : ℕ)
      → are_held k lasting rows ≡ true
      → are_held k lasting (claim_device rows user device now).0 ≡ true
  unfolding claim_device
  claim_device_held rows user device now h =
      elim (find_row (λ p. owned_by user device p && is_unused p.status) rows)
        as (λ o.
          are_held k lasting
            (elim o as (λ x. List Prekey × Option ClaimedPrekey) [
              | none ↦ (rows, none)
              | some p ↦ claim_row rows device now p
            ]).0
          ≡ true) [ none ↦ h | some p ↦ claim_row_held rows device now p h ]

  claim_device_other :
      (rows : List Prekey) (user : ℕ) (device : Text) (now : ℕ)
      → are_held k lasting rows ≡ true
      → is_other_claim (claim_device rows user device now).1 ≡ true
  unfolding claim_device claim_row is_other_claim is_other
  claim_device_other rows user device now h = ground (arith, found_not_held user device rows h)

  pub claim_devices_held :
      (user : ℕ) (devices : List Text) (now : ℕ) (rows : List Prekey)
      → are_held k lasting rows ≡ true
      → (are_held k lasting (claim_devices rows user devices now).0 ≡ true)
        × (has_claim k (claim_devices rows user devices now).1 ≡ false)
  unfolding claim_devices has_claim is_other_claim
  claim_devices_held user [] now rows h = (h, refl)
  claim_devices_held user (d ∷ ds) now rows h = ground (
    arith,
    claim_device_held rows user d now h,
    claim_device_other rows user d now h,
    claim_devices_held user ds now (claim_device rows user d now).0,
  )

  pub consume_rows_held :
      (ids : List ℕ) (rows : List Prekey)
      → are_held k lasting rows ≡ true
      → are_held k lasting (consume_rows rows ids).0 ≡ true
  unfolding consume_rows
  consume_rows_held [] rows h = h
  consume_rows_held (j ∷ ids) rows h = consume_rows_held ids _ (use_held j rows h)

  pub claim_prekeys_held :
      (db : Db) (user now : ℕ)
      → ((at : ℕ) → lasting at ≡ true → now < at + 600)
      → are_held k lasting db.prekeys ≡ true
      → (are_held k lasting (claim_prekeys db user now).0.prekeys ≡ true)
        × (has_claim k (claim_prekeys db user now).1 ≡ false)
  unfolding claim_prekeys has_claim
  claim_prekeys_held db user now l h =
      let rows = reclaim now db.prekeys in
      ground (
        arith,
        claim_devices_held user (stocked_devices user rows []) now rows
            (reclaim_held now db.prekeys l h),
      )

  claim_call_held :
      (db : Db) (user now : ℕ)
      → ((at : ℕ) → lasting at ≡ true → now < at + 600)
      → are_held k lasting db.prekeys ≡ true
      → k < db.next_prekey
      → (are_held k lasting (claim_prekeys db user now).0.prekeys ≡ true)
        × (k < (claim_prekeys db user now).0.next_prekey)
  unfolding claim_prekeys
  claim_call_held db user now l h b = ground (arith, claim_prekeys_held db user now l h)

  pub call_held :
      (c : KeyCall) (now : ℕ) (db : Db)
      → ((at : ℕ) → lasting at ≡ true → now < at + 600)
      → are_held k lasting db.prekeys ≡ true
      → k < db.next_prekey
      → (are_held k lasting (call c now db).prekeys ≡ true) × (k < (call c now db).next_prekey)
  unfolding call upload_prekeys consume_prekeys upsert_identity_key purge_stale remove_device_keys
  call_held (upload user device keys) now db l h b =
      ground (arith, insert_held db user device keys h b)
  call_held (claim user) now db l h b = claim_call_held db user now l h b
  call_held (consume ids) now db l h b = ground (arith, consume_rows_held ids db.prekeys h)
  call_held (upsert user device key) now db l h b = ground (
    arith,
    delete_held (λ p. owned_by user device p && (is_unused p.status || is_claimed p.status))
        db.prekeys h,
  )
  call_held (remove user device) now db l h b =
      ground (arith, delete_held (owned_by user device) db.prekeys h)

  pub run_held :
      (calls : List (KeyCall × ℕ)) (t : ℕ) (db : Db)
      → ((at now : ℕ) → lasting at ≡ true → now ≤ t → now < at + 600)
      → Until t calls
      → are_held k lasting db.prekeys ≡ true
      → k < db.next_prekey
      → are_held k lasting (run calls db).prekeys ≡ true
  unfolding run
  run_held [] t db l u h b = h
  run_held (c ∷ cs) t db l u h b =
      let next = call_held c.0 c.1 db (λ at e. l at c.1 e u.0) h b in
      run_held cs t _ l u.1 next.0 next.1
