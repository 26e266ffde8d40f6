-- ===== src/Client/Outbox/Laws.antt =====
-- What is sent again, and what leaves the outbox.
use xlchat_project.Common.{
  subst, sym, ◌<◌, ℕ, suc, ◌≤◌, ◌≡◌, refl, Bool-cases, inl, inr, Bool, true, false, ◌||◌, Option,
  some, Option-cases, List, [], ◌∷◌, ◌==◌, arith, Text, text_eq, text_eq_iff, select, ◌⊎◌,
  count_rows, count_rows-append,
}
use xlchat_project.Common.Dict.{Dict, nat_eq, lookup}
use xlchat_project.Ratchet.{Crypto}
use xlchat_project.Client.{Root}
use xlchat_project.Client.Store.{OutboxItem, clear_user_data}
use xlchat_project.Client.Sync.{remove_last}
use xlchat_project.Client.Outbox.{
  SendQueue, in_flight, send_item, fetch_group_keys, flush_groups, flush_group_messages, find_last,
  is_deterministic, is_ok_code, SendResponse, take_error, handle_send_message_response, expire,
}

-- How often a client id was sent.
abbrev pub times_sent : Text → SendQueue → ℕ
times_sent id o = count_rows (λ x. text_eq x id) o.sent

sent_more :
    (id : Text) (o : SendQueue) (i : OutboxItem) → times_sent id o ≤ times_sent id (send_item o i)
unfolding send_item
sent_more id o i = omega (arith, count_rows-append (λ x. text_eq x id) o.sent (i.client_id ∷ []))

sent_now :
    (o : SendQueue) (i : OutboxItem)
    → times_sent i.client_id (send_item o i) ≡ suc (times_sent i.client_id o)
unfolding send_item count_rows
sent_now o i = ground (
  arith,
  count_rows-append (λ x. text_eq x i.client_id) o.sent (i.client_id ∷ []),
  (text_eq_iff i.client_id i.client_id).1 refl,
)

pub list_cases : (xs : List ℕ) → (xs ≡ []) ⊎ ((x : ℕ) × (rest : List ℕ) × (xs ≡ x ∷ rest))
list_cases [] = inl refl
list_cases (x ∷ xs) = inr (x, xs, refl)

pub lookup-in_flight :
    (id : Text) (request : ℕ) (pending : Dict ℕ Text)
    → lookup request pending ≡ some id
    → in_flight id pending ≡ true
unfolding lookup in_flight
lookup-in_flight id request [] e = absurd cc
lookup-in_flight id request ((j, other) ∷ pending) e =
    ground (arith, lookup-in_flight id request pending, text_eq_iff other id)

-- A message to one user.
abbrev pub is_private : OutboxItem → Bool
is_private i = i.conversation == 0

send_other :
    (id : Text) (o : SendQueue) (i : OutboxItem)
    → text_eq i.client_id id ≡ false
    → times_sent id (send_item o i) ≡ times_sent id o
unfolding send_item count_rows
send_other id o i h =
    ground (arith, h, count_rows-append (λ x. text_eq x id) o.sent (i.client_id ∷ []))

module _ (has_key : ℕ → Bool) (encrypted : OutboxItem → Bool) where
  flush_groups_skips :
      (id : Text) (flying : Dict ℕ Text) (items : List OutboxItem) (o : SendQueue)
      → in_flight id flying ≡ true
      → times_sent id (flush_groups has_key encrypted flying items o) ≡ times_sent id o
  unfolding flush_groups fetch_group_keys
  flush_groups_skips id flying [] o h = refl
  flush_groups_skips id flying (i ∷ items) o h =
      let rest = flush_groups_skips id flying items o h in
      elim (Bool-cases (i.conversation == 0 || in_flight i.client_id flying)) [
        | inl a ↦ ground (arith, a, rest)
        | inr a ↦
            let other : text_eq i.client_id id ≡ false =
              ground (arith, a, h, text_eq_iff i.client_id id) in
            let sent = flush_groups_skips id flying items (send_item o i) h in
            ground (arith, a, rest, sent, send_other id o i other)
      ]

  -- Flushing the outbox never sends a group message again that is still unanswered.
  pub flush_group_messages_once :
      (id : Text) (o : SendQueue)
      → in_flight id o.pending ≡ true
      → times_sent id (flush_group_messages has_key encrypted o) ≡ times_sent id o
  unfolding flush_group_messages
  flush_group_messages_once id o h = ground (arith, flush_groups_skips id o.pending o.items o h)

  flush_groups_more :
      (id : Text) (flying : Dict ℕ Text) (items : List OutboxItem) (o : SendQueue)
      → times_sent id o ≤ times_sent id (flush_groups has_key encrypted flying items o)
  unfolding flush_groups fetch_group_keys
  flush_groups_more id flying [] o = omega arith
  flush_groups_more id flying (i ∷ items) o =
      let rest = flush_groups_more id flying items o in
      let sent = flush_groups_more id flying items (send_item o i) in
      ground (arith, rest, sent, sent_more id o i)

  flush_sends :
      (q : SendQueue) (i : OutboxItem) (rest : List OutboxItem)
      → q.items ≡ i ∷ rest
      → q.pending ≡ []
      → q.authenticated ≡ true
      → q.e2ee_ready ≡ true
      → (i.conversation == 0) ≡ false
      → has_key i.conversation ≡ true
      → encrypted i ≡ true
      → times_sent i.client_id q < times_sent i.client_id (flush_group_messages has_key encrypted q)
  unfolding flush_group_messages flush_groups in_flight
  flush_sends q i rest e p a r g k n =
      let more = flush_groups_more i.client_id [] rest (send_item q i) in
      let now = sent_now q i in
      let run : flush_group_messages has_key encrypted q
          ≡ flush_groups has_key encrypted [] rest (send_item q i) =
        ground (arith, e, p, a, r, g, k, n) in
      subst (λ (z : SendQueue). times_sent i.client_id q < times_sent i.client_id z) (sym run)
        (omega (arith, more, now))

  -- Messages outlive their user's session: it ends, its messages are deleted from the local database,
  -- but not from memory, and once another user is signed in, a flush sends the first of them, a group
  -- message that can be encrypted for a group of that user, as the other user's.
  pub expire_sends_for_next :
      (o : SendQueue) (i : OutboxItem) (rest : List OutboxItem) (other : ℕ)
      → o.items ≡ i ∷ rest
      → o.expired ≡ false
      → o.store.available ≡ true
      → (i.conversation == 0) ≡ false
      → has_key i.conversation ≡ true
      → encrypted i ≡ true
      → let next = record (expire o) { authenticated = true; e2ee_ready = true; user = other } in
        (next.store.outbox ≡ [])
        × (times_sent i.client_id o
            < times_sent i.client_id (flush_group_messages has_key encrypted next))
  unfolding expire clear_user_data
  expire_sends_for_next o i rest other e x a g k n =
      let next = record (expire o) { authenticated = true; e2ee_ready = true; user = other } in
      let kept : next.items ≡ i ∷ rest = ground (arith, x, e) in
      let nothing : next.pending ≡ [] = ground (arith, x) in
      let same : next.sent ≡ o.sent = ground (arith, x) in
      (
        ground (arith, x, a),
        subst
            (λ (ts : List Text).
              count_rows (λ t. text_eq t i.client_id) ts
              < times_sent i.client_id (flush_group_messages has_key encrypted next))
            same (flush_sends next i rest kept nothing refl refl g k n),
      )

remove_last-select :
    (id : Text) (i : OutboxItem) (items : List OutboxItem)
    → find_last id items ≡ some i
    → (i.conversation == 0) ≡ false
    → select is_private (remove_last id items) ≡ select is_private items
unfolding find_last remove_last select
remove_last-select id i [] e h = refl
remove_last-select id i (j ∷ items) e h = ground (arith, remove_last-select id i items)

-- An error never takes a private message out of the outbox; one that a retry may mend takes nothing
-- out, and schedules a flush.
pub handle_send_message_response_error :
    (c : Crypto) (parse : Text → Option Root) (flush : SendQueue → SendQueue) (o : SendQueue)
    (request : ℕ) (id : Text) (r : SendResponse)
    → lookup request o.pending ≡ some id
    → is_ok_code r.code ≡ false
    → let x = handle_send_message_response c parse flush o request r in
      (select is_private x.items ≡ select is_private o.items)
      × ((is_deterministic r.code ≡ true) ⊎ ((x.items ≡ o.items) × (x.flush_scheduled ≡ true)))
unfolding handle_send_message_response take_error
handle_send_message_response_error c parse flush o request id r e n =
    elim (Bool-cases (is_deterministic r.code)) [
      | inr d ↦ (ground (arith, e, n, d), inr (ground (arith, e, n, d), ground (arith, e, n, d)))
      | inl d ↦ elim (Option-cases (find_last id o.items)) [
        | inl f ↦ (ground (arith, e, n, d, f), inl d)
        | inr (i, f) ↦ (ground (arith, e, n, d, f, remove_last-select id i o.items f), inl d)
      ]
    ]
