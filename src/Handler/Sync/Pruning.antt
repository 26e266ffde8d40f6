-- ===== src/Handler/Sync/Pruning.antt =====
-- What pruning does to a client that reads the event stream.
use xlchat_project.Common.{
  ℕ, ◌≤◌, ◌<◌, ◌≡◌, ◌⊎◌, ℤ, pos, Bool, true, List, [], ◌∷◌, length, leb, arith, select,
  if◌then◌else◌, false, has_row, delete_rows, ◌≢◌, inl, inr, ap, Bool-cases, ltb, ◌&&◌, ◌∙◌,
}
use xlchat_project.Database.{Db, Event}
use xlchat_project.Database.Events.{
  is_due, get_sync_events, pruned_below_seq, max_sync_event_seq, prune_sync_events, PruneRun,
  append_all, stale_cutoff, delete_stale, raise_watermark, is_stale,
}
use xlchat_project.Database.Events.Pruning.{
  SameDue, append_all-SameDue, append_all_watermark, delete_stale-SameDue, no_stale_page,
}
use xlchat_project.Database.Events.Paging.{last_seq}
use xlchat_project.Handler.{ok, sync_page, full_sync}
use xlchat_project.Handler.Sync.{page_limit, max, sync_from, sync_answer}

-- The tables with what others appended during the pruning, as if nothing had been pruned.
abbrev pub unpruned : Db → PruneRun → Db
unpruned db t = append_all t.before_update (append_all t.before_delete db)

abbrev deleted : Db → ℕ → PruneRun → Db
deleted db days t =
    append_all t.before_update (delete_stale (append_all t.before_delete db) days t.deleted_at).0

-- A pruning deletes nothing, or deletes and then raises the watermark, if its UPDATE is executed.
pruned_parts :
    (db : Db) (days : ℕ) (t : PruneRun)
    → let pruned = (prune_sync_events db days t).0 in
      (pruned ≡ unpruned db t)
      ⊎ (pruned ≡ (
          if t.updates
          then raise_watermark (deleted db days t) (stale_cutoff db days t.selected_at)
          else deleted db days t))
unfolding prune_sync_events
pruned_parts db days t = ground arith

same_answer :
    (a b : Db) (user after : ℕ) (limit : ℤ)
    → SameDue user after a b
    → a.pruned_below ≤ after
    → b.pruned_below ≤ after
    → sync_answer a user (pos after) limit ≡ sync_answer b user (pos after) limit
unfolding sync_answer sync_from get_sync_events pruned_below_seq
same_answer a b user after limit s h k = ground (arith, s.due, s.available)

no_answer :
    (a b : Db) (user after : ℕ) (limit : ℤ)
    → a.available ≡ false
    → b.available ≡ false
    → sync_answer a user (pos after) limit ≡ sync_answer b user (pos after) limit
unfolding sync_answer sync_from get_sync_events pruned_below_seq
no_answer a b user after limit x y = ground (arith, x, y)

told_to_sync :
    (db : Db) (user after : ℕ) (limit : ℤ)
    → 0 < after
    → db.available ≡ true
    → after < db.pruned_below
    → sync_answer db user (pos after) limit
      ≡ (ok, full_sync after (max (max_sync_event_seq db) (pruned_below_seq db)))
unfolding sync_answer sync_from pruned_below_seq
told_to_sync db user after limit h on b = ground arith

raise_watermark_lem :
    (db : Db) (cutoff user after : ℕ)
    → SameDue user after (raise_watermark db cutoff) db
      × ((db.available ≡ false) ⊎ (cutoff ≤ (raise_watermark db cutoff).pruned_below))
      × (db.pruned_below ≤ (raise_watermark db cutoff).pruned_below)
unfolding raise_watermark
raise_watermark_lem db cutoff user after = ground arith

-- What is left after the deletion owes a client the same, if its cursor is not below what was found.
deleted-SameDue :
    (db : Db) (days : ℕ) (t : PruneRun) (user after : ℕ)
    → stale_cutoff (append_all t.before_delete db) days t.deleted_at ≤ after
    → SameDue user after (deleted db days t) (unpruned db t)
deleted-SameDue db days t user after h =
    append_all-SameDue user after t.before_update _ _
      (delete_stale-SameDue (append_all t.before_delete db) days t.deleted_at user after h)

deleted_watermark :
    (db : Db) (days : ℕ) (t : PruneRun)
    → ((deleted db days t).pruned_below ≡ db.pruned_below)
      × ((deleted db days t).available ≡ db.available)
      × ((unpruned db t).pruned_below ≡ db.pruned_below)
      × ((unpruned db t).available ≡ db.available)
unfolding delete_stale
deleted_watermark db days t =
    let met = append_all t.before_delete db in
    ground (
      arith,
      append_all_watermark t.before_delete db,
      append_all_watermark t.before_update met,
      append_all_watermark t.before_update (delete_stale met days t.deleted_at).0,
    )

raised_answer :
    (db : Db) (days : ℕ) (t : PruneRun) (user after : ℕ) (limit : ℤ)
    → 0 < after
    → stale_cutoff (append_all t.before_delete db) days t.deleted_at
      ≡ stale_cutoff db days t.selected_at
    → let pruned = raise_watermark (deleted db days t) (stale_cutoff db days t.selected_at) in
      (sync_answer pruned user (pos after) limit
        ≡ (ok, full_sync after (max (max_sync_event_seq pruned) (pruned_below_seq pruned))))
      ⊎ (sync_answer pruned user (pos after) limit
          ≡ sync_answer (unpruned db t) user (pos after) limit)
raised_answer db days t user after limit h e =
    let cutoff = stale_cutoff db days t.selected_at in
    let pruned = raise_watermark (deleted db days t) cutoff in
    let k = deleted_watermark db days t in
    let w = raise_watermark_lem (deleted db days t) cutoff user after in
    elim (Bool-cases (deleted db days t).available) [
      | inl on ↦ elim (Bool-cases (ltb after pruned.pruned_below)) [
        | inl less ↦ inl (
            told_to_sync pruned user after limit h (ground (arith, on, w.0.available))
              (ground (arith, less)))
        | inr le ↦
            let below : stale_cutoff (append_all t.before_delete db) days t.deleted_at ≤ after =
              ground (arith, le, w, on, e) in
            inr (
              same_answer pruned (deleted db days t) user after limit w.0 (ground (arith, le))
                (ground (arith, le, w))
              ∙ same_answer (deleted db days t) (unpruned db t) user after limit
                  (deleted-SameDue db days t user after below) (ground (arith, le, w))
                  (ground (arith, le, w, k)))
      ]
      | inr off ↦ inr (
          no_answer pruned (unpruned db t) user after limit (ground (arith, off, w.0.available))
            (ground (arith, off, k)))
    ]

-- Where the UPDATE of the watermark is executed and the DELETE finds stale events up to the number that
-- the SELECT found, pruning is never silent, whatever events others append meanwhile: a client whose
-- cursor is not 0 is afterwards told to make a full sync, or gets the very answer that it would have
-- got if nothing had been pruned.
pub sync_answer-prune :
    (db : Db) (days : ℕ) (t : PruneRun) (user after : ℕ) (limit : ℤ)
    → 0 < after
    → t.updates ≡ true
    → stale_cutoff (append_all t.before_delete db) days t.deleted_at
      ≡ stale_cutoff db days t.selected_at
    → let pruned = (prune_sync_events db days t).0 in
      (sync_answer pruned user (pos after) limit
        ≡ (ok, full_sync after (max (max_sync_event_seq pruned) (pruned_below_seq pruned))))
      ⊎ (sync_answer pruned user (pos after) limit
          ≡ sync_answer (unpruned db t) user (pos after) limit)
sync_answer-prune db days t user after limit h u e = elim (pruned_parts db days t) [
  | inl p ↦ inr (ap (λ x. sync_answer x user (pos after) limit) p)
  | inr p ↦
      let q : (prune_sync_events db days t).0
          ≡ raise_watermark (deleted db days t) (stale_cutoff db days t.selected_at) =
        ground (arith, p, u) in
      rw q (raised_answer db days t user after limit h e)
]

page_after :
    (db : Db) (user after : ℕ) (limit : ℤ)
    → db.available ≡ true
    → db.pruned_below ≤ after
    → let events = get_sync_events db user after (page_limit limit) in
      sync_answer db user (pos after) limit
      ≡ (ok, sync_page events (last_seq after events) (leb (page_limit limit) (length events)))
unfolding sync_answer sync_from pruned_below_seq
page_after db user after limit on h = ground arith

row_due :
    (p q : Event → Bool) (es : List Event)
    → has_row (λ e. q e && p e) es ≡ true
    → has_row p (select q es) ≡ true
unfolding has_row select
row_due p q [] h = h
row_due p q (e ∷ es) h = ground (arith, row_due p q es)

unmarked_parts :
    (db : Db) (days : ℕ) (t : PruneRun) (after : ℕ)
    → db.available ≡ true
    → days ≢ 0
    → t.selects ≡ true
    → t.deletes ≡ true
    → t.before_delete ≡ []
    → t.before_update ≡ []
    → stale_cutoff db days t.selected_at ≢ 0
    → db.pruned_below ≤ after
    → (t.updates ≡ false) ⊎ (stale_cutoff db days t.selected_at ≤ after)
    → let pruned = (prune_sync_events db days t).0 in
      (pruned.available ≡ true)
      × (pruned.pruned_below ≤ after)
      × (pruned.events ≡ delete_rows (is_stale days t.deleted_at) db.events)
unfolding prune_sync_events
unmarked_parts db days t after on some_days s d b b' c w u = elim u [
  | inl x ↦ ground (arith, b, b', x)
  | inr x ↦ ground (arith, b, b', x)
]

-- Pruning can be silent. Where the database answers, the SELECT finds stale events and the DELETE
-- is executed, with nothing appended in between, but either the UPDATE is not executed, or the
-- watermark that the SELECT found is not above the cursor of a client, which was not below the old
-- watermark either: that client is afterwards answered with a page like any other, and the page
-- holds no event that the DELETE found stale, though one was due for it.
pub sync_answer-prune_silent :
    (db : Db) (days : ℕ) (t : PruneRun) (user after : ℕ) (limit : ℤ)
    → db.available ≡ true
    → days ≢ 0
    → t.selects ≡ true
    → t.deletes ≡ true
    → t.before_delete ≡ []
    → t.before_update ≡ []
    → stale_cutoff db days t.selected_at ≢ 0
    → db.pruned_below ≤ after
    → (t.updates ≡ false) ⊎ (stale_cutoff db days t.selected_at ≤ after)
    → has_row (λ e. is_due user after e && is_stale days t.deleted_at e) db.events ≡ true
    → (page : List Event) × (last : ℕ) × (more : Bool) × (sync_answer
          (prune_sync_events db days t).0
          user
          (pos after)
          limit
        ≡ (ok, sync_page page last more))
      × (has_row (is_stale days t.deleted_at) page ≡ false)
      × (has_row (is_stale days t.deleted_at) (select (is_due user after) db.events) ≡ true)
unfolding get_sync_events
sync_answer-prune_silent db days t user after limit on some_days s d b b' c w u owed =
    let pruned = (prune_sync_events db days t).0 in
    let k = unmarked_parts db days t after on some_days s d b b' c w u in
    let page = get_sync_events pruned user after (page_limit limit) in
    (
      page,
      last_seq after page,
      leb (page_limit limit) (length page),
      page_after pruned user after limit k.0 k.1,
      ground (
        arith,
        k,
        no_stale_page (is_stale days t.deleted_at) (is_due user after) (page_limit limit) db.events,
      ),
      row_due (is_stale days t.deleted_at) (is_due user after) db.events owed,
    )
