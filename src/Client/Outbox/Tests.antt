-- ===== src/Client/Outbox/Tests.antt =====
-- An outbox with a message under way.
use xlchat_project.Common.{◌≡◌, ◌<◌, refl, true, false, some, List, [], ◌∷◌, text_eq, arith}
use xlchat_project.Common.Dict.{nat_eq, lookup}
use xlchat_project.Handler.{replay_rejected}
use xlchat_project.Client.Examples.{empty_store, plain_crypto, parse}
use xlchat_project.Client.Store.{OutboxItem}
use xlchat_project.Client.Outbox.{SendQueue, flush_group_messages, handle_error_response}
use xlchat_project.Client.Outbox.{expire}
use xlchat_project.Client.Outbox.Blocked.{OutboxStep, take_steps, handle_error_response_blocks}
use xlchat_project.Client.Outbox.Laws.{expire_sends_for_next, times_sent}

abbrev item : OutboxItem
item = record { client_id = 1 ∷ []; to_user = 0; conversation = 3; content = 104 ∷ [] }

abbrev outbox : SendQueue
outbox = record {
  authenticated = true;
  e2ee_ready = true;
  user = 1;
  store = empty_store;
  items = item ∷ record item { client_id = 2 ∷ []; conversation = 0; to_user = 5 } ∷ [];
  pending = (9, 1 ∷ []) ∷ [];
  next_id = 10;
  pending_fetch_group = 0;
  fetch_group_target = 0;
  flush_scheduled = false;
  heal_queue = [];
  pending_fetch = 0;
  fetch_target = 0;
  pending_register = 0;
  bootstrap_pending = false;
  expired = false;
  distributions = [];
  sent = (1 ∷ []) ∷ [];
}

-- After the refusal: a flush, the keys of user 5, a distribution, and the answer to request 10.
abbrev later_steps : List OutboxStep
later_steps =
    OutboxStep.flush (λ g. true) (λ i. true)
    ∷ OutboxStep.keys_arrive (λ i. true) 5
    ∷ OutboxStep.distribute (7 ∷ [])
    ∷ OutboxStep.refuse 10 replay_rejected
    ∷ OutboxStep.flush (λ g. true) (λ i. true)
    ∷ []

handle_error_response_blocks_example :
    let x = handle_error_response outbox 9 replay_rejected in
    let later = take_steps plain_crypto parse (λ t. t) x later_steps in
    (x.items ≡ outbox.items)
    × (lookup 9 later.pending ≡ some (1 ∷ []))
    × (times_sent (1 ∷ []) later ≡ times_sent (1 ∷ []) outbox)
unfolding lookup text_eq
handle_error_response_blocks_example =
    handle_error_response_blocks plain_crypto parse (λ t. t) (1 ∷ []) 9 replay_rejected outbox
      later_steps refl (omega arith) refl (tt, (tt, (refl, (refl, (tt, tt)))))

expire_sends_for_next_example :
    let next = record (expire outbox) { authenticated = true; e2ee_ready = true; user = 7 } in
    (next.store.outbox ≡ [])
    × (times_sent (1 ∷ []) outbox
        < times_sent (1 ∷ []) (flush_group_messages (λ g. true) (λ i. true) next))
expire_sends_for_next_example =
    expire_sends_for_next (λ g. true) (λ i. true) outbox item
      (record item { client_id = 2 ∷ []; conversation = 0; to_user = 5 } ∷ []) 7 refl refl refl refl
      refl refl
