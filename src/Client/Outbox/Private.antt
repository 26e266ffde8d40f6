-- ===== src/Client/Outbox/Private.antt =====
-- NetworkManager.cpp: the other requests that carry messages. handleFetchKeysResponse sends the first
-- message that waits for the user whose keys have come, handleFetchGroupKeysResponse a distribution
-- under a new UUID. Whether encryptForUser gives a text for an item is an argument.
use xlchat_project.Common.{ℕ, suc, Bool, not, ◌||◌, List, [], ◌∷◌, ◌++◌, ◌==◌, if◌then◌else◌, Text}
use xlchat_project.Common.Dict.{Dict, nat_eq, insert}
use xlchat_project.Client.Store.{OutboxItem}
use xlchat_project.Client.Store.Queue.{remove_outbox_item}
use xlchat_project.Client.Outbox.{SendQueue, in_flight, send_item}

unfoldable pub send_fetch_keys : SendQueue → ℕ → SendQueue
send_fetch_keys o target = record o {
  next_id = suc o.next_id;
  pending_fetch = o.next_id;
  fetch_target = target;
}

module _ (encrypted : OutboxItem → Bool) (target : ℕ) (flying : Dict ℕ Text) where
  -- The loop over the outbox; `passed` are the items before.
  unfoldable pub send_first : List OutboxItem → List OutboxItem → SendQueue → SendQueue
  unfolding in_flight send_item
  send_first passed [] o = o
  send_first passed (i ∷ items) o =
      let rest = send_first (passed ++ i ∷ []) items o in
      if not (i.to_user == target) || in_flight i.client_id flying
      then rest
      else if encrypted i
      then send_item o i
      else record o { items = passed ++ items; store = (remove_outbox_item o.store i.client_id).0 }

unfoldable pub send_to_user : (OutboxItem → Bool) → ℕ → SendQueue → SendQueue
unfolding send_first
send_to_user encrypted target o = send_first encrypted target o.pending [] o.items o

unfoldable pub send_distribution : SendQueue → Text → SendQueue
send_distribution o id = record o {
  pending = insert o.next_id id o.pending;
  next_id = suc o.next_id;
  distributions = id ∷ o.distributions;
  sent = o.sent ++ id ∷ [];
}
