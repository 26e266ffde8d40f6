-- ===== src/Database/Events/Pruning.antt =====
-- Pruning the event stream: what is deleted, and the watermark that tells who missed something.
use xlchat_project.Common.{
  ℕ, suc, ◌≤◌, ◌<◌, ◌≡◌, refl, Bool, List, [], ◌∷◌, ◌++◌, arith, if◌then◌else◌, Text, select,
  delete_rows, has_row, take, zero, false, is_empty, codes,
}
use xlchat_project.Database.{Db, Event}
use xlchat_project.Database.Events.{
  append_sync_event, is_due, max_seq, is_stale, stale_cutoff, delete_stale, Appended, append_all,
}

-- The rows of the table ascend strictly by seq, from above `lo` to below `hi`.
abbrev pub Ascends : ℕ → List Event → ℕ → Type 0
Ascends lo [] hi = lo < hi
Ascends lo (e ∷ es) hi = (lo < e.seq) × Ascends e.seq es hi

-- The stream is in order, below its next seq, and so is the watermark.
pub record IsOrdered (db : Db) : Type 0 where
  pub ascending : Ascends 0 db.events db.next_seq
  pub watermark : db.pruned_below < db.next_seq

Ascends-weaken : (lo lo' hi : ℕ) (es : List Event) → lo' ≤ lo → Ascends lo es hi → Ascends lo' es hi
Ascends-weaken lo lo' hi [] h a = omega arith
Ascends-weaken lo lo' hi (e ∷ es) h a = (omega arith, a.1)

Ascends-snoc :
    (lo hi : ℕ) (es : List Event) (e : Event)
    → e.seq ≡ hi
    → Ascends lo es hi
    → Ascends lo (es ++ e ∷ []) (suc hi)
Ascends-snoc lo hi [] e h a = omega arith
Ascends-snoc lo hi (x ∷ es) e h a = (a.0, Ascends-snoc x.seq hi es e h a.1)

delete_rows-Ascends :
    (p : Event → Bool) (lo hi : ℕ) (es : List Event)
    → Ascends lo es hi
    → Ascends lo (delete_rows p es) hi
unfolding delete_rows
delete_rows-Ascends p lo hi [] a = a
delete_rows-Ascends p lo hi (e ∷ es) a =
    ground
      (arith, delete_rows-Ascends p e.seq hi es a.1, Ascends-weaken e.seq lo hi (delete_rows p es))

max_seq-lt :
    (p : Event → Bool) (lo hi : ℕ) (es : List Event) → Ascends lo es hi → max_seq (select p es) < hi
unfolding max_seq select
max_seq-lt p lo hi [] a = omega arith
max_seq-lt p lo hi (e ∷ es) a = ground (arith, max_seq-lt p e.seq hi es a.1, above e.seq hi es a.1)
  where
    above : (l h : ℕ) (xs : List Event) → Ascends l xs h → l < h
    above l h [] b = b
    above l h (x ∷ xs) b = omega (arith, above x.seq h xs b.1, b.0)

pub append_sync_event-IsOrdered :
    (db : Db) (user : ℕ) (event_type payload : Text) (now : ℕ)
    → IsOrdered db
    → IsOrdered (append_sync_event db user event_type payload now).0
unfolding append_sync_event
append_sync_event-IsOrdered db user t p now o = ground (
  arith,
  Ascends-snoc 0 db.next_seq db.events
      (record {
        seq = db.next_seq;
        user = user;
        event_type = t;
        payload = if is_empty p then codes "{}" else p;
        at = now;
      })
      refl o.ascending,
)

pub append_all-IsOrdered :
    (xs : List Appended) (db : Db) → IsOrdered db → IsOrdered (append_all xs db)
unfolding append_all
append_all-IsOrdered [] db o = o
append_all-IsOrdered (a ∷ xs) db o =
    append_all-IsOrdered xs _ (append_sync_event-IsOrdered db a.user a.event_type a.payload a.at o)

-- Rows that a deletion takes are not due, if the cursor is past all of them.
select_after_delete :
    (p : Event → Bool) (user after : ℕ) (es : List Event)
    → max_seq (select p es) ≤ after
    → select (is_due user after) (delete_rows p es) ≡ select (is_due user after) es
unfolding select delete_rows max_seq
select_after_delete p user after [] h = refl
select_after_delete p user after (e ∷ es) h = ground (arith, select_after_delete p user after es)

-- Two tables owe a user the same events, and take new ones alike.
pub record SameDue (user after : ℕ) (a b : Db) : Type 0 where
  pub due : select (is_due user after) a.events ≡ select (is_due user after) b.events
  pub next : a.next_seq ≡ b.next_seq
  pub users : a.users ≡ b.users
  pub available : a.available ≡ b.available

select-snoc :
    (p : Event → Bool) (xs : List Event) (e : Event)
    → select p (xs ++ e ∷ []) ≡ select p xs ++ select p (e ∷ [])
unfolding select
select-snoc p [] e = refl
select-snoc p (x ∷ xs) e = ground (arith, select-snoc p xs e)

append_sync_event-SameDue :
    (user after : ℕ) (a b : Db) (x : Appended)
    → SameDue user after a b
    → SameDue user after
        (append_sync_event a x.user x.event_type x.payload x.at).0
        (append_sync_event b x.user x.event_type x.payload x.at).0
unfolding append_sync_event
append_sync_event-SameDue user after a b x s =
    let row : Event = record {
      seq = b.next_seq;
      user = x.user;
      event_type = x.event_type;
      payload = if is_empty x.payload then codes "{}" else x.payload;
      at = x.at;
    } in
    ground (
      arith,
      s.due,
      s.next,
      s.users,
      s.available,
      select-snoc (is_due user after) a.events row,
      select-snoc (is_due user after) b.events row,
    )

pub append_all-SameDue :
    (user after : ℕ) (xs : List Appended) (a b : Db)
    → SameDue user after a b
    → SameDue user after (append_all xs a) (append_all xs b)
unfolding append_all
append_all-SameDue user after [] a b s = s
append_all-SameDue user after (x ∷ xs) a b s =
    append_all-SameDue user after xs _ _ (append_sync_event-SameDue user after a b x s)

pub append_all_watermark :
    (xs : List Appended) (db : Db)
    → ((append_all xs db).pruned_below ≡ db.pruned_below)
      × ((append_all xs db).available ≡ db.available)
unfolding append_all append_sync_event
append_all_watermark [] db = (refl, refl)
append_all_watermark (x ∷ xs) db =
    let k = append_all_watermark xs (append_sync_event db x.user x.event_type x.payload x.at).0 in
    ground (arith, k)

-- A deletion leaves what is due behind the last event that it takes.
pub delete_stale-SameDue :
    (db : Db) (days now user after : ℕ)
    → stale_cutoff db days now ≤ after
    → SameDue user after (delete_stale db days now).0 db
unfolding stale_cutoff delete_stale
delete_stale-SameDue db days now user after h =
    ground (arith, select_after_delete (is_stale days now) user after db.events)

pub no_stale_page :
    (p q : Event → Bool) (n : ℕ) (es : List Event)
    → has_row p (take n (select q (delete_rows p es))) ≡ false
unfolding has_row select delete_rows
no_stale_page p q zero [] = refl
no_stale_page p q (suc n) [] = refl
no_stale_page p q zero (e ∷ es) = refl
no_stale_page p q (suc n) (e ∷ es) =
    ground (arith, no_stale_page p q n es, no_stale_page p q (suc n) es)
