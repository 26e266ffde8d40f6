-- ===== src/Database/Receipts/Counts.antt =====
-- Receipts, counted by user.
use xlchat_project.Common.{
  ℕ, ◌≤◌, ◌≡◌, refl, Bool, true, ◌&&◌, none, some, List, [], ◌∷◌, ◌++◌, ◌==◌, if◌then◌else◌, Text,
  has_row, update_rows, member, member-set_insert, NoRepeat, set_insert-NoRepeat, subset_le, arith,
  Bool-cases, inl, inr,
}
use xlchat_project.Database.{Db, Receipt}
use xlchat_project.Database.Receipts.{
  is_receipt, stamp_receipt, coalesce, record_message_receipt, is_set, is_counted, users_of,
  receipt_user_count,
}

users_of-NoRepeat : (m : ℕ) (b : Bool) (rs : List Receipt) → NoRepeat (users_of m b rs)
unfolding users_of
users_of-NoRepeat m b [] = tt
users_of-NoRepeat m b (r ∷ rs) =
    ground (arith, users_of-NoRepeat m b rs, set_insert-NoRepeat r.user (users_of m b rs))

pub member-users_of :
    (m : ℕ) (b : Bool) (rs : List Receipt) (u : ℕ)
    → member u (users_of m b rs) ≡ has_row (λ r. is_counted m b r && r.user == u) rs
unfolding users_of has_row member
member-users_of m b [] u = refl
member-users_of m b (r ∷ rs) u =
    ground (arith, member-users_of m b rs u, member-set_insert r.user u (users_of m b rs))

stamp_counted :
    (m : ℕ) (b is_read : Bool) (now : ℕ) (r : Receipt)
    → is_counted m b r ≡ true
    → is_counted m b (stamp_receipt is_read now r) ≡ true
unfolding is_counted stamp_receipt coalesce is_set
stamp_counted m b is_read now r h = ground arith

row_kept :
    (m : ℕ) (b is_read : Bool) (now : ℕ) (q : Receipt → Bool) (rs : List Receipt) (u : ℕ)
    → has_row (λ r. is_counted m b r && r.user == u) rs ≡ true
    → has_row (λ r. is_counted m b r && r.user == u) (update_rows q (stamp_receipt is_read now) rs)
      ≡ true
unfolding has_row update_rows stamp_receipt
row_kept m b is_read now q [] u h = h
row_kept m b is_read now q (r ∷ rs) u h = elim (Bool-cases (q r)) [
  | inl e ↦ rw e (ground (arith, row_kept m b is_read now q rs u, stamp_counted m b is_read now r))
  | inr e ↦ rw e (ground (arith, row_kept m b is_read now q rs u))
]

row_added :
    (p : Receipt → Bool) (rs : List Receipt) (r : Receipt)
    → has_row p rs ≡ true
    → has_row p (rs ++ r ∷ []) ≡ true
unfolding has_row
row_added p [] r h = ground arith
row_added p (x ∷ rs) r h = ground (arith, row_added p rs r)

record_keeps :
    (db : Db) (message user : ℕ) (device : Text) (is_read : Bool) (now m : ℕ) (b : Bool) (u : ℕ)
    → has_row (λ r. is_counted m b r && r.user == u) db.receipts ≡ true
    → has_row
        (λ r. is_counted m b r && r.user == u)
        (record_message_receipt db message user device is_read now).0.receipts
      ≡ true
unfolding record_message_receipt
record_keeps db message user device is_read now m b u h = ground (
  arith,
  row_kept m b is_read now (is_receipt message user device) db.receipts u h,
  row_added (λ r. is_counted m b r && r.user == u) db.receipts
      (record {
        message = message;
        user = user;
        device = device;
        delivered_at = some now;
        read_at = if is_read then some now else none;
      })
      h,
)

record_keeps_available :
    (db : Db) (message user : ℕ) (device : Text) (is_read : Bool) (now : ℕ)
    → (record_message_receipt db message user device is_read now).0.available ≡ db.available
unfolding record_message_receipt
record_keeps_available db message user device is_read now = ground arith

-- No receipt takes another one back: whatever receipt is recorded, for every message at least as many
-- users have had it delivered, and have read it, as before.
pub record_message_receipt_monotone :
    (db : Db) (message user : ℕ) (device : Text) (is_read : Bool) (now m : ℕ) (b : Bool)
    → receipt_user_count db m b
      ≤ receipt_user_count (record_message_receipt db message user device is_read now).0 m b
unfolding receipt_user_count
record_message_receipt_monotone db message user device is_read now m b =
    let after = (record_message_receipt db message user device is_read now).0 in
    ground (
      arith,
      record_keeps_available db message user device is_read now,
      subset_le (users_of m b db.receipts) (users_of m b after.receipts)
          (users_of-NoRepeat m b db.receipts)
          (λ u h. ground (
            arith,
            h,
            member-users_of m b db.receipts u,
            member-users_of m b after.receipts u,
            record_keeps db message user device is_read now m b u,
          )),
    )
