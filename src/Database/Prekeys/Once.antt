-- ===== src/Database/Prekeys/Once.antt =====
-- A prekey is handed out once: not again while its claim lasts, and never after it was consumed.
use xlchat_project.Common.{
  ℕ, ◌+◌, ◌≤◌, ◌<◌, ◌≡◌, ◌≢◌, refl, inl, inr, Bool-cases, Option-cases, sym, ap, ◌∙◌, Bool, true,
  false, ◌&&◌, Option, none, some, List, [], ◌∷◌, ◌==◌, ltb, Text, has_row, find_row, count_rows,
  update_rows, arith, Rising, Rising-lt, member,
}
use xlchat_project.Database.{Db, Prekey, PrekeyStatus, unused, claimed, used}
use xlchat_project.Database.Prekeys.{
  is_unused, is_claimed, is_overdue, owned_by, set_status, ClaimedPrekey, claim_row, claim_device,
  claim_devices, stocked_devices, reclaim, claim_prekeys, validate_claimed_prekey, consume_rows,
  consume_prekeys,
}
use xlchat_project.Database.Prekeys.Claims.{
  is_status_held, is_held, are_held, has_claim, KeyCall, run, Until, run_held, claim_prekeys_held,
  claim_devices_held, consume_rows_held,
}

-- AUTOINCREMENT
abbrev pub PrekeysRise : ℕ → List Prekey → ℕ → Type 0
PrekeysRise lo rows hi = Rising (λ (p : Prekey). p.id) lo rows hi

module _ (f : Prekey → Bool) (s : PrekeyStatus) where
  update_rows-PrekeysRise :
      (lo hi : ℕ) (rows : List Prekey)
      → PrekeysRise lo rows hi
      → PrekeysRise lo (update_rows f (set_status s) rows) hi
  unfolding update_rows
  update_rows-PrekeysRise lo hi [] a = a
  update_rows-PrekeysRise lo hi (p ∷ ps) a = elim (Bool-cases (f p)) [
    | inl e ↦ rw e (a.0, update_rows-PrekeysRise p.id hi ps a.1)
    | inr e ↦ rw e (a.0, update_rows-PrekeysRise p.id hi ps a.1)
  ]

claim_row-PrekeysRise :
    (rows : List Prekey) (device : Text) (now hi : ℕ) (p : Prekey)
    → PrekeysRise 0 rows hi
    → PrekeysRise 0 (claim_row rows device now p).0 hi
unfolding claim_row
claim_row-PrekeysRise rows device now hi p a = ground (
  arith,
  update_rows-PrekeysRise (λ q. q.id == p.id && is_unused q.status) (claimed now) 0 hi rows a,
)

claim_device-PrekeysRise :
    (rows : List Prekey) (user : ℕ) (device : Text) (now hi : ℕ)
    → PrekeysRise 0 rows hi
    → PrekeysRise 0 (claim_device rows user device now).0 hi
unfolding claim_device
claim_device-PrekeysRise rows user device now hi a =
    elim (find_row (λ p. owned_by user device p && is_unused p.status) rows)
      as (λ o.
        PrekeysRise 0
          (elim o as (λ x. List Prekey × Option ClaimedPrekey) [
            | none ↦ (rows, none)
            | some p ↦ claim_row rows device now p
          ]).0
          hi) [ none ↦ a | some p ↦ claim_row-PrekeysRise rows device now hi p a ]

module _ (k : ℕ) (lasting : ℕ → Bool) (test : PrekeyStatus → Bool) (s : PrekeyStatus) where
  above_held :
      (lo hi : ℕ) (rows : List Prekey)
      → PrekeysRise lo rows hi
      → k ≤ lo
      → (are_held k lasting (update_rows (λ q. q.id == k && test q.status) (set_status s) rows)
          ≡ true)
        × (has_row (λ q. q.id == k && test q.status) rows ≡ false)
  unfolding are_held is_held update_rows has_row
  above_held lo hi [] a h = (refl, refl)
  above_held lo hi (q ∷ qs) a h = ground (arith, above_held q.id hi qs a.1)

  made_held :
      (lo hi : ℕ) (rows : List Prekey)
      → PrekeysRise lo rows hi
      → is_status_held lasting s ≡ true
      → has_row (λ q. q.id == k && test q.status) rows ≡ true
      → (are_held k lasting (update_rows (λ q. q.id == k && test q.status) (set_status s) rows)
          ≡ true)
        × (k < hi)
  unfolding are_held is_held update_rows has_row
  made_held lo hi [] a l h = ground arith
  made_held lo hi (q ∷ qs) a l h = ground (
    arith,
    made_held q.id hi qs a.1 l,
    above_held q.id hi qs a.1,
    Rising-lt (λ (p : Prekey). p.id) q.id hi qs a.1,
  )

  other_row :
      (j : ℕ) (t : PrekeyStatus → Bool) (u : PrekeyStatus) (rows : List Prekey)
      → j ≢ k
      → has_row (λ q. q.id == k && test q.status) rows ≡ true
      → has_row
          (λ q. q.id == k && test q.status)
          (update_rows (λ q. q.id == j && t q.status) (set_status u) rows)
        ≡ true
  unfolding update_rows has_row
  other_row j t u [] n h = h
  other_row j t u (q ∷ qs) n h = ground (arith, other_row j t u qs)

pub weaken_row :
    (f g : Prekey → Bool) (rows : List Prekey)
    → ((q : Prekey) → f q ≡ true → g q ≡ true)
    → has_row f rows ≡ true
    → has_row g rows ≡ true
unfolding has_row
weaken_row f g [] i h = h
weaken_row f g (q ∷ qs) i h = ground (arith, i q, weaken_row f g qs i)

count_one : (f : Prekey → Bool) (rows : List Prekey) → count_rows f rows ≡ 1 → has_row f rows ≡ true
unfolding count_rows has_row
count_one f [] h = ground arith
count_one f (q ∷ qs) h = ground (arith, count_one f qs)

pub consume_rows_holds :
    (k : ℕ) (lasting : ℕ → Bool) (ids : List ℕ) (rows : List Prekey) (hi : ℕ)
    → PrekeysRise 0 rows hi
    → has_row (λ q. q.id == k && is_claimed q.status) rows ≡ true
    → member k ids ≡ true
    → (are_held k lasting (consume_rows rows ids).0 ≡ true) × (k < hi)
unfolding consume_rows member is_status_held
consume_rows_holds k lasting [] rows hi a h m = ground arith
consume_rows_holds k lasting (j ∷ ids) rows hi a h m = elim (Bool-cases (j == k)) [
  | inl e ↦
      let same : j ≡ k = ground arith in
      let made = made_held k lasting is_claimed used 0 hi rows a refl h in
      rw same (consume_rows_held k lasting ids _ made.0, made.1)
  | inr e ↦
      consume_rows_holds k lasting ids _ hi
        (update_rows-PrekeysRise (λ p. p.id == j && is_claimed p.status) used 0 hi rows a)
        (other_row k lasting is_claimed used j is_claimed used rows (ground arith) h) (ground arith)
]

claim_device_found :
    (rows : List Prekey) (user : ℕ) (device : Text) (now : ℕ) (p : Prekey)
    → find_row (λ q. owned_by user device q && is_unused q.status) rows ≡ some p
    → claim_device rows user device now ≡ claim_row rows device now p
unfolding claim_device
claim_device_found rows user device now p e = ground (arith, e)

claim_device_empty :
    (rows : List Prekey) (user : ℕ) (device : Text) (now : ℕ)
    → find_row (λ q. owned_by user device q && is_unused q.status) rows ≡ none
    → (claim_device rows user device now).1 ≡ none
unfolding claim_device
claim_device_empty rows user device now e = ground (arith, e)

module _ (lasting : ℕ → Bool) (now hi : ℕ) where
  claim_row_holds :
      (rows : List Prekey) (device : Text) (p : Prekey) (c : ClaimedPrekey)
      → PrekeysRise 0 rows hi
      → lasting now ≡ true
      → (claim_row rows device now p).1 ≡ some c
      → (are_held c.prekey_id lasting (claim_row rows device now p).0 ≡ true) × (c.prekey_id < hi)
  unfolding claim_row is_status_held
  claim_row_holds rows device p c a l e = ground (
    arith,
    made_held p.id lasting is_unused (claimed now) 0 hi rows a l,
    count_one (λ q. q.id == p.id && is_unused q.status) rows,
  )

  claim_device_holds :
      (rows : List Prekey) (user : ℕ) (device : Text) (c : ClaimedPrekey)
      → PrekeysRise 0 rows hi
      → lasting now ≡ true
      → (claim_device rows user device now).1 ≡ some c
      → (are_held c.prekey_id lasting (claim_device rows user device now).0 ≡ true)
        × (c.prekey_id < hi)
  claim_device_holds rows user device c a l e =
      elim (Option-cases (find_row (λ p. owned_by user device p && is_unused p.status) rows)) [
        | inl n ↦ absurd (none_some (sym (claim_device_empty rows user device now n) ∙ e))
        | inr s ↦
            let same = claim_device_found rows user device now s.0 s.1 in
            rw same (claim_row_holds rows device s.0 c a l (ap (λ x. x.1) (sym same) ∙ e))
      ]
    where
      none_some : none ≡ some c → ⊥
      none_some k = cc

  claim_devices_holds :
      (k user : ℕ) (devices : List Text) (rows : List Prekey)
      → PrekeysRise 0 rows hi
      → lasting now ≡ true
      → has_claim k (claim_devices rows user devices now).1 ≡ true
      → (are_held k lasting (claim_devices rows user devices now).0 ≡ true) × (k < hi)
  unfolding claim_devices has_claim
  claim_devices_holds k user [] rows a l h = ground arith
  claim_devices_holds k user (d ∷ ds) rows a l h =
      elim (Option-cases (claim_device rows user d now).1) [
        | inl n ↦
            let rest =
              claim_devices_holds k user ds (claim_device rows user d now).0
                (claim_device-PrekeysRise rows user d now hi a) l in
            ground (arith, rest, n, h)
        | inr s ↦
            let first = claim_device_holds rows user d s.0 a l s.1 in
            let rest =
              claim_devices_holds k user ds (claim_device rows user d now).0
                (claim_device-PrekeysRise rows user d now hi a) l in
            ground (
              arith,
              rest,
              first,
              s.1,
              h,
              claim_devices_held k lasting user ds now (claim_device rows user d now).0,
            )
      ]

reclaim-PrekeysRise :
    (rows : List Prekey) (now hi : ℕ) → PrekeysRise 0 rows hi → PrekeysRise 0 (reclaim now rows) hi
unfolding reclaim
reclaim-PrekeysRise rows now hi a =
    update_rows-PrekeysRise (λ p. is_overdue now p.status) unused 0 hi rows a

claim_prekeys_holds :
    (db : Db) (user now k : ℕ) (lasting : ℕ → Bool)
    → PrekeysRise 0 db.prekeys db.next_prekey
    → lasting now ≡ true
    → has_claim k (claim_prekeys db user now).1 ≡ true
    → (are_held k lasting (claim_prekeys db user now).0.prekeys ≡ true)
      × (k < (claim_prekeys db user now).0.next_prekey)
unfolding claim_prekeys has_claim
claim_prekeys_holds db user now k lasting a l h =
    let rows = reclaim now db.prekeys in
    ground (
      arith,
      claim_devices_holds lasting now db.next_prekey k user (stocked_devices user rows []) rows
          (reclaim-PrekeysRise db.prekeys now db.next_prekey a) l,
      h,
    )

consume_prekeys_holds :
    (db : Db) (user k : ℕ) (device : Text) (lasting : ℕ → Bool) (ids : List ℕ)
    → PrekeysRise 0 db.prekeys db.next_prekey
    → validate_claimed_prekey db user device k ≡ true
    → member k ids ≡ true
    → (are_held k lasting (consume_prekeys db ids).0.prekeys ≡ true)
      × (k < (consume_prekeys db ids).0.next_prekey)
unfolding consume_prekeys validate_claimed_prekey
consume_prekeys_holds db user k device lasting ids a v m = ground (
  arith,
  consume_rows_holds k lasting ids db.prekeys db.next_prekey a
      (weaken_row (λ p. p.id == k && owned_by user device p && is_claimed p.status)
        (λ p. p.id == k && is_claimed p.status) db.prekeys (λ q e. ground (arith, e))
        (ground (arith, v)))
      m,
)

-- Where the ids of the table rise: a prekey that a claim handed out is not handed out again while the
-- claim lasts, 600 seconds, whatever is uploaded, claimed, consumed or removed until then, and by
-- whomever.
pub claim_prekeys_once :
    (db : Db) (user now k : ℕ) (calls : List (KeyCall × ℕ)) (again t : ℕ)
    → PrekeysRise 0 db.prekeys db.next_prekey
    → has_claim k (claim_prekeys db user now).1 ≡ true
    → Until t calls
    → t < now + 600
    → has_claim k (claim_prekeys (run calls (claim_prekeys db user now).0) again t).1 ≡ false
claim_prekeys_once db user now k calls again t a h u b =
    let lasting : ℕ → Bool = λ at. ltb t (at + 600) in
    let held = claim_prekeys_holds db user now k lasting a (ground (arith, b)) h in
    let later =
      run_held k lasting calls t (claim_prekeys db user now).0 (λ at n e le. ground (arith, e, le))
        u held.0 held.1 in
    (claim_prekeys_held k lasting _ again t (λ at e. ground (arith, e)) later).1

-- Where the ids of the table rise: a claimed prekey that is consumed is not handed out again at any
-- time, whatever is uploaded, claimed, consumed or removed until then.
pub consume_prekeys_once :
    (db : Db) (user k : ℕ) (device : Text) (ids : List ℕ) (calls : List (KeyCall × ℕ)) (again t : ℕ)
    → PrekeysRise 0 db.prekeys db.next_prekey
    → validate_claimed_prekey db user device k ≡ true
    → member k ids ≡ true
    → Until t calls
    → has_claim k (claim_prekeys (run calls (consume_prekeys db ids).0) again t).1 ≡ false
consume_prekeys_once db user k device ids calls again t a v m u =
    let lasting : ℕ → Bool = λ at. false in
    let held = consume_prekeys_holds db user k device lasting ids a v m in
    let later =
      run_held k lasting calls t (consume_prekeys db ids).0 (λ at n e le. ground (arith, e)) u
        held.0 held.1 in
    (claim_prekeys_held k lasting _ again t (λ at e. ground (arith, e)) later).1
