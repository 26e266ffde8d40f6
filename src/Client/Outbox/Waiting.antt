-- ===== src/Client/Outbox/Waiting.antt =====
-- A request that waits for its answer, and what keeps it waiting.
use xlchat_project.Common.{
  ℕ, ◌≤◌, ◌<◌, ◌≡◌, ◌≢◌, ap, ◌∙◌, inl, inr, Bool, true, false, ◌||◌, not, Option, some,
  Option-cases, ◌&&◌, List, [], ◌∷◌, ◌++◌, ◌==◌, Text, text_eq, text_eq_iff, Bool-cases,
  if◌then◌else◌, count_rows, count_rows-append, arith,
}
use xlchat_project.Common.Dict.{Dict, nat_eq, lookup, lookup-insert, lookup-remove, remove}
use xlchat_project.Handler.{ErrorCode}
use xlchat_project.Ratchet.{Crypto}
use xlchat_project.Client.{Root}
use xlchat_project.Client.Store.{OutboxItem}
use xlchat_project.Client.Outbox.{
  SendQueue, in_flight, send_item, fetch_group_keys, flush_groups, flush_group_messages,
  ends_session, SendResponse, take_ack, take_error, take_distribution_ack, is_ok_code,
  is_deterministic, has_text, acked_id, find_last, handle_send_message_response,
  handle_error_response, free_group_slot, free_fetch_slot, free_register_slot, drain_heal_queue,
}
use xlchat_project.Client.Sync.{holds_item}
use xlchat_project.Client.Outbox.Private.{send_first, send_distribution}
use xlchat_project.Client.Outbox.Laws.{times_sent, lookup-in_flight, list_cases}

pub error_keeps :
    (request : ℕ) (code : ErrorCode) (o : SendQueue)
    → ends_session code ≡ false
    → let x = handle_error_response o request code in
      (x.items ≡ o.items) × (x.pending ≡ o.pending) × (x.sent ≡ o.sent)
unfolding handle_error_response free_group_slot free_fetch_slot free_register_slot drain_heal_queue
    fetch_group_keys
error_keeps request code o s = elim (list_cases o.heal_queue) [
  | inl h ↦ (ground (arith, s, h), ground (arith, s, h), ground (arith, s, h))
  | inr (g, queue, h) ↦ (ground (arith, s, h), ground (arith, s, h), ground (arith, s, h))
]

error_moves :
    (request : ℕ) (code : ErrorCode) (o : SendQueue)
    → ends_session code ≡ false
    → o.next_id ≤ (handle_error_response o request code).next_id
unfolding handle_error_response free_group_slot free_fetch_slot free_register_slot drain_heal_queue
    fetch_group_keys
error_moves request code o s = elim (list_cases o.heal_queue) [
  | inl h ↦ ground (arith, s, h)
  | inr (g, queue, h) ↦ ground (arith, s, h)
]

-- The request waits, and its message was sent `n` times.
pub record IsWaiting (request : ℕ) (id : Text) (n : ℕ) (o : SendQueue) : Type 0 where
  pub waits : lookup request o.pending ≡ some id
  pub past : request < o.next_id
  pub count : times_sent id o ≡ n

module _ (request : ℕ) (id : Text) (n : ℕ) where
  other_id :
      (flying : Dict ℕ Text) (x : Text)
      → lookup request flying ≡ some id
      → in_flight x flying ≡ false
      → text_eq x id ≡ false
  other_id flying x e h = ground (arith, h, lookup-in_flight id request flying e, text_eq_iff x id)

  either :
      (b : Bool) (x y : SendQueue)
      → IsWaiting request id n x
      → IsWaiting request id n y
      → IsWaiting request id n (if b then x else y)
  either true x y v w = v
  either false x y v w = w

  send_item-IsWaiting :
      (o : SendQueue) (i : OutboxItem)
      → text_eq i.client_id id ≡ false
      → IsWaiting request id n o
      → IsWaiting request id n (send_item o i)
  unfolding send_item count_rows
  send_item-IsWaiting o i h w = record {
    waits = ground (arith, w.waits, w.past, lookup-insert o.next_id request i.client_id o.pending);
    past = omega (arith, w.past);
    count =
        ground (arith, h, w.count, count_rows-append (λ x. text_eq x id) o.sent (i.client_id ∷ []));
  }

  fetch_group_keys-IsWaiting :
      (o : SendQueue) (g : ℕ)
      → IsWaiting request id n o
      → IsWaiting request id n (fetch_group_keys o g)
  unfolding fetch_group_keys
  fetch_group_keys-IsWaiting o g w = ground (arith, w.waits, w.past, w.count)

  module _ (has_key : ℕ → Bool) (encrypted : OutboxItem → Bool) where
    either_item :
        (b : Bool) (flying : Dict ℕ Text) (items : List OutboxItem) (o : SendQueue) (i : OutboxItem)
        → IsWaiting request id n (flush_groups has_key encrypted flying items (send_item o i))
        → IsWaiting request id n (flush_groups has_key encrypted flying items o)
        → IsWaiting request id n
            (flush_groups has_key encrypted flying items (if b then send_item o i else o))
    either_item true flying items o i x y = x
    either_item false flying items o i x y = y

    flush_groups-IsWaiting :
        (flying : Dict ℕ Text) (items : List OutboxItem) (o : SendQueue)
        → lookup request flying ≡ some id
        → IsWaiting request id n o
        → IsWaiting request id n (flush_groups has_key encrypted flying items o)
    unfolding flush_groups
    flush_groups-IsWaiting flying [] o e w = w
    flush_groups-IsWaiting flying (i ∷ items) o e w =
        let skipped = flush_groups-IsWaiting flying items o e w in
        elim (Bool-cases (i.conversation == 0 || in_flight i.client_id flying)) [
          | inl a ↦ rw a skipped
          | inr a ↦
              let other = other_id flying i.client_id e (ground (arith, a)) in
              let sent =
                flush_groups-IsWaiting flying items (send_item o i) e
                  (send_item-IsWaiting o i other w) in
              let fetched = fetch_group_keys-IsWaiting o i.conversation w in
              rw a (
                either (has_key i.conversation) _ _
                  (either_item (encrypted i) flying items o i sent skipped)
                  (either (o.pending_fetch_group == 0) _ _ fetched skipped))
        ]

    pub flush-IsWaiting :
        (o : SendQueue)
        → IsWaiting request id n o
        → IsWaiting request id n (flush_group_messages has_key encrypted o)
    unfolding flush_group_messages
    flush-IsWaiting o w =
        either (o.authenticated && o.e2ee_ready) _ _
          (flush_groups-IsWaiting o.pending o.items o w.waits w) w

  pub send_first-IsWaiting :
      (encrypted : OutboxItem → Bool) (target : ℕ) (flying : Dict ℕ Text)
      (passed items : List OutboxItem) (o : SendQueue)
      → lookup request flying ≡ some id
      → IsWaiting request id n o
      → IsWaiting request id n (send_first encrypted target flying passed items o)
  unfolding send_first
  send_first-IsWaiting encrypted target flying passed [] o e w = w
  send_first-IsWaiting encrypted target flying passed (i ∷ items) o e w =
      elim (Bool-cases (not (i.to_user == target) || in_flight i.client_id flying)) [
        | inl a ↦ rw a (send_first-IsWaiting encrypted target flying (passed ++ i ∷ []) items o e w)
        | inr a ↦
            let other = other_id flying i.client_id e (ground (arith, a)) in
            rw a (
              either (encrypted i) _ _ (send_item-IsWaiting o i other w)
                (record { waits = w.waits; past = w.past; count = w.count }))
      ]

  pub send_distribution-IsWaiting :
      (o : SendQueue) (x : Text)
      → text_eq x id ≡ false
      → IsWaiting request id n o
      → IsWaiting request id n (send_distribution o x)
  unfolding send_distribution count_rows
  send_distribution-IsWaiting o x h w = record {
    waits = ground (arith, w.waits, w.past, lookup-insert o.next_id request x o.pending);
    past = omega (arith, w.past);
    count = ground (arith, h, w.count, count_rows-append (λ y. text_eq y id) o.sent (x ∷ []));
  }

  pub handle_error_response-IsWaiting :
      (o : SendQueue) (other : ℕ) (code : ErrorCode)
      → ends_session code ≡ false
      → IsWaiting request id n o
      → IsWaiting request id n (handle_error_response o other code)
  handle_error_response-IsWaiting o other code s w =
      let k = error_keeps other code o s in
      record {
        waits = ap (λ p. lookup request p) k.1 ∙ w.waits;
        past = omega (arith, error_moves other code o s, w.past);
        count = ap (count_rows (λ x. text_eq x id)) k.2 ∙ w.count;
      }

  module _ (c : Crypto) (parse : Text → Option Root) where
    take_distribution_ack-IsWaiting :
        (o : SendQueue) (x : Text)
        → IsWaiting request id n o
        → IsWaiting request id n (take_distribution_ack c parse o x)
    unfolding take_distribution_ack
    take_distribution_ack-IsWaiting o x w =
        either (holds_item x o.items) _ _
          (record { waits = w.waits; past = w.past; count = w.count })
          (record { waits = w.waits; past = w.past; count = w.count })

    take_ack-IsWaiting :
        (o : SendQueue) (x : Text) (r : SendResponse)
        → IsWaiting request id n o
        → IsWaiting request id n (take_ack c parse o x r)
    unfolding take_ack
    take_ack-IsWaiting o x r w = record { waits = w.waits; past = w.past; count = w.count }

    take_error-IsWaiting :
        (o : SendQueue) (x : Text) (code : ErrorCode)
        → IsWaiting request id n o
        → IsWaiting request id n (take_error c parse o x code)
    unfolding take_error
    take_error-IsWaiting o x code w = elim (Bool-cases (is_deterministic code)) [
      | inl d ↦ elim (Option-cases (find_last x o.items)) [
        | inl e ↦ rw (d, e) w
        | inr (i, e) ↦
            rw (d, e)
              (either (i.conversation == 0) _ _ w
                (record { waits = w.waits; past = w.past; count = w.count }))
      ]
      | inr d ↦ rw d (record { waits = w.waits; past = w.past; count = w.count })
    ]

    pub answer-IsWaiting :
        (send : SendQueue → SendQueue) (o : SendQueue) (other : ℕ) (r : SendResponse)
        → ((x : SendQueue) → IsWaiting request id n x → IsWaiting request id n (send x))
        → other ≢ request
        → IsWaiting request id n o
        → IsWaiting request id n (handle_send_message_response c parse send o other r)
    unfolding handle_send_message_response
    answer-IsWaiting send o other r f ne w = elim (Option-cases (lookup other o.pending)) [
      | inl e ↦ rw (e, handle_send_message_response) w
      | inr (x, e) ↦
          let erased = record o { pending = remove other o.pending } in
          let left : IsWaiting request id n erased = record {
            waits = ground (arith, w.waits, ne, lookup-remove other request o.pending);
            past = w.past;
            count = w.count;
          } in
          rw (e, handle_send_message_response)
            (either (is_ok_code r.code) _ _
              (either (has_text (acked_id r x) o.distributions) _ _
                (f _ (take_distribution_ack-IsWaiting erased (acked_id r x) left))
                (take_ack-IsWaiting erased (acked_id r x) r left))
              (take_error-IsWaiting erased x r.code left))
    ]
