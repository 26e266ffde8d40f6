-- ===== src/Client/Sync/CatchUp.antt =====
-- A client that reads the server's event stream page by page, until it has caught up.
use xlchat_project.Common.{
  ℕ, zero, suc, ◌≤◌, ◌<◌, ◌≡◌, refl, sym, ◌∙◌, ap, subst, inl, inr, Bool-cases, leb→le, Bool, true,
  false, Option, none, List, [], ◌∷◌, ◌++◌, map, length, take, leb, arith, if◌then◌else◌, Text,
  select, length-append,
}
use xlchat_project.Database.{Db, Event}
use xlchat_project.Database.Events.{is_due, pruned_below_seq}
use xlchat_project.Database.Events.Pruning.{IsOrdered}
use xlchat_project.Database.Events.Paging.{last_seq, last_seq-ge, page-rest, short_page}
use xlchat_project.Ratchet.{Crypto}
use xlchat_project.Client.{Root}
use xlchat_project.Client.Sync.{ClientEvent, Client, sync_events_request, ingest_events}
use xlchat_project.Client.Sync.Exchange.{
  exchanges, exchanges_done, ingest-append, map-append, ingest_available, paged, exchange_page,
}

module _ (c : Crypto) (parse : Text → Option Root) (read : Event → ClientEvent) where
  last_seq-append :
      (after : ℕ) (xs ys : List Event) → last_seq after (xs ++ ys) ≡ last_seq (last_seq after xs) ys
  unfolding last_seq
  last_seq-append after [] ys = refl
  last_seq-append after (x ∷ xs) ys = last_seq-append x.seq xs ys

  -- The client has ingested these events, one after the other, and waits for nothing.
  abbrev pub CaughtUp : Client → ℕ → List Event → Client → Type 0
  CaughtUp k after due x =
      (x.wire ≡ none)
      × (x.kept ≡ ingest_events c parse k.user k.device k.kept (map read due))
      × (x.cursor ≡ last_seq after due)

  paged-CaughtUp :
      (k x : Client) (page rest : List Event)
      → CaughtUp
          (paged c parse read k page (last_seq k.cursor page))
          (last_seq k.cursor page)
          rest
          x
      → CaughtUp k k.cursor (page ++ rest) x
  paged-CaughtUp k x page rest (w, e, l) = (
    w,
    e
        ∙ sym (ingest-append c parse read k.user k.device k.kept (map read page) (map read rest))
        ∙ ap (ingest_events c parse k.user k.device k.kept)
            (sym (map-append c parse read page rest)),
    l ∙ sym (last_seq-append k.cursor page rest),
  )

  choose : (b : Bool) (x y : Client) → b ≡ true → (if b then x else y) ≡ x
  choose b x y h = ground arith

  choose_not : (b : Bool) (x y : Client) → b ≡ false → (if b then x else y) ≡ y
  choose_not b x y h = ground arith

  not_leb : (a b : ℕ) → leb a b ≡ false → b < a
  not_leb a b h = ground arith

  less_left :
      (n : ℕ) (page rest due : List Event)
      → page ++ rest ≡ due
      → leb 200 (length page) ≡ true
      → length due < suc n
      → length rest < n
  less_left n page rest due e f l =
      omega (arith, length-append page rest, ap length e, leb→le 200 (length page) f)

  nothing_left : (k : Client) (after : ℕ) → k.wire ≡ none → k.cursor ≡ after → CaughtUp k after [] k
  unfolding ingest_events last_seq
  nothing_left k after w e = (w, refl, e)

  catch_up_within :
      (n : ℕ) (db : Db) (k : Client)
      → IsOrdered db
      → db.available ≡ true
      → k.authenticated ≡ true
      → k.kept.store.available ≡ true
      → pruned_below_seq db ≤ k.cursor
      → length (select (is_due k.user k.cursor) db.events) < n
      → CaughtUp k k.cursor
          (select (is_due k.user k.cursor) db.events)
          (exchanges c parse read n db (sync_events_request k k.cursor))
  unfolding exchanges
  catch_up_within zero db k o a u v p h = absurd (omega arith)
  catch_up_within (suc n) db k o a u v p h =
      let due = select (is_due k.user k.cursor) db.events in
      let page = take 200 due in
      let last = last_seq k.cursor page in
      let next = paged c parse read k page last in
      let rest = select (is_due k.user last) db.events in
      let e = exchange_page c parse read db k o a u v p in
      let whole : page ++ rest ≡ due =
        page-rest k.user k.cursor 0 db.next_seq 200 db.events o.ascending in
      let forward = last_seq-ge k.user k.cursor 0 db.next_seq 200 db.events o.ascending in
      elim (Bool-cases (leb 200 (length page))) [
        | inl full ↦
            let there = ingest_available c parse read k.user k.device k.kept (map read page) ∙ v in
            let later =
              catch_up_within n db next o a u there (omega (arith, forward, p))
                (less_left n page rest due whole full h) in
            let x = exchanges c parse read n db (sync_events_request next last) in
            subst (λ (y : Client). CaughtUp k k.cursor due (exchanges c parse read n db y))
              (sym (e ∙ choose (leb 200 (length page)) (sync_events_request next last) next full))
              (subst (λ (es : List Event). CaughtUp k k.cursor es x) whole
                (paged-CaughtUp k x page rest later))
        | inr short ↦
            let none_left : rest ≡ [] =
              short_page k.user k.cursor 0 db.next_seq 200 db.events o.ascending
                (not_leb 200 (length page) short) in
            subst (λ (y : Client). CaughtUp k k.cursor due y)
              (sym (
                ap (exchanges c parse read n db) (
                  e ∙ choose_not (leb 200 (length page)) (sync_events_request next last) next short)
                ∙ exchanges_done c parse read n db next refl))
              (subst (λ (es : List Event). CaughtUp k k.cursor es next) whole
                (paged-CaughtUp k next page rest (
                  subst (λ (es : List Event). CaughtUp next last es next) (sym none_left)
                    (nothing_left next last refl refl))))
      ]

  -- A client that has signed in and opened its database, over a server whose database answers,
  -- has its events in order and has pruned none behind the cursor, catches up: after at most one
  -- exchange more than there are events due, it waits for nothing, has ingested each due event
  -- once, in their order, and its cursor is the last one's.
  pub exchanges_catch_up :
      (db : Db) (k : Client)
      → IsOrdered db
      → db.available ≡ true
      → k.authenticated ≡ true
      → k.kept.store.available ≡ true
      → pruned_below_seq db ≤ k.cursor
      → let due = select (is_due k.user k.cursor) db.events in
        let x = exchanges c parse read (suc (length due)) db (sync_events_request k k.cursor) in
        (x.wire ≡ none)
        × (x.kept ≡ ingest_events c parse k.user k.device k.kept (map read due))
        × (x.cursor ≡ last_seq k.cursor due)
  exchanges_catch_up db k o a u v p =
      catch_up_within (suc (length (select (is_due k.user k.cursor) db.events))) db k o a u v p
        (omega arith)
