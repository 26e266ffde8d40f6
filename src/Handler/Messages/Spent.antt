-- ===== src/Handler/Messages/Spent.antt =====
-- Prekeys that are spent stay so, whatever the server does.
use xlchat_project.Common.{
  ℕ, ◌<◌, ◌≡◌, refl, inl, inr, true, false, List, [], ◌∷◌, ◌==◌, ◌&&◌, Text, has_row, arith,
}
use xlchat_project.Database.{Db, Prekey}
use xlchat_project.Database.Prekeys.{validate_claimed_prekey, owned_by, is_claimed}
use xlchat_project.Database.Prekeys.Claims.{
  KeyCall, call, call_held, are_held, is_held, is_status_held, consume_rows_held,
}
use xlchat_project.Handler.{World}
use xlchat_project.Handler.Login.{Call}
use xlchat_project.Handler.Messages.{Format, SendRequest, process_send_message}
use xlchat_project.Handler.Messages.Consumption.{Consumes, process_send_message-Consumes}

-- Whatever row has this id is used, and new rows have higher ids.
abbrev pub IsSpent : ℕ → Db → Type 0
IsSpent k db = (are_held k (λ at. false) db.prekeys ≡ true) × (k < db.next_prekey)

spent_row :
    (k user : ℕ) (device : Text) (rows : List Prekey)
    → are_held k (λ at. false) rows ≡ true
    → has_row (λ p. p.id == k && owned_by user device p && is_claimed p.status) rows ≡ false
unfolding are_held is_held is_status_held has_row is_claimed
spent_row k user device [] h = refl
spent_row k user device (p ∷ rows) h = ground (arith, h, spent_row k user device rows)

pub spent_refused :
    (k user : ℕ) (device : Text) (db : Db)
    → IsSpent k db
    → validate_claimed_prekey db user device k ≡ false
unfolding validate_claimed_prekey
spent_refused k user device db h = ground (arith, spent_row k user device db.prekeys h.0)

Consumes-IsSpent : (k : ℕ) (db db' : Db) → Consumes db db' → IsSpent k db → IsSpent k db'
Consumes-IsSpent k db db' (n, inl e) h = ground (arith, n, e, h)
Consumes-IsSpent k db db' (n, inr (ids, e)) h =
    ground (arith, n, e, h, consume_rows_held k (λ at. false) ids db.prekeys h.0)

-- What the server may do between two requests: send a message of any connection, an operation on the
-- prekeys, or anything that does not touch them.
pub data Change (f : Format) : Db → Db → Type 0 where
  sends : (w : World) (c : Call) (r : SendRequest) → Change f w.db (process_send_message f w c r).db
  keys : (db : Db) (k : KeyCall) (now : ℕ) → Change f db (call k now db)
  elsewhere :
      (db later : Db)
      → later.prekeys ≡ db.prekeys
      → later.next_prekey ≡ db.next_prekey
      → Change f db later

pub data Changes (f : Format) (db : Db) : Db → Type 0 where
  here : Changes f db db
  next : {a b : Db} → Changes f db a → Change f a b → Changes f db b

Change-IsSpent : (f : Format) (k : ℕ) {a b : Db} → Change f a b → IsSpent k a → IsSpent k b
Change-IsSpent f k (sends w c r) h =
    Consumes-IsSpent k w.db (process_send_message f w c r).db
      (process_send_message-Consumes f w c r) h
Change-IsSpent f k (keys db call now) h =
    call_held k (λ at. false) call now db (λ at e. absurd (ground (arith, e))) h.0 h.1
Change-IsSpent f k (elsewhere db later e n) h = ground (arith, e, n, h)

pub Changes-IsSpent : (f : Format) (k : ℕ) {a b : Db} → IsSpent k a → Changes f a b → IsSpent k b
Changes-IsSpent f k h here = h
Changes-IsSpent f k h (next r s) = Change-IsSpent f k s (Changes-IsSpent f k h r)
