-- ===== src/Client/Outbox/Blocked.antt =====
-- A send_message request that only a packet of type Error answers.
use xlchat_project.Common.{
  ℕ, ◌<◌, ◌≡◌, ◌≢◌, refl, Bool, true, false, ◌||◌, Option, some, List, [], ◌∷◌, ◌==◌, Text, text_eq,
  is_empty, if◌then◌else◌, arith,
}
use xlchat_project.Common.Dict.{nat_eq, lookup}
use xlchat_project.Handler.{ErrorCode}
use xlchat_project.Ratchet.{Crypto}
use xlchat_project.Client.{Root}
use xlchat_project.Client.Store.{OutboxItem}
use xlchat_project.Client.Outbox.{
  SendQueue, flush_group_messages, ends_session, SendResponse, handle_send_message_response,
  handle_error_response, queue_group_message,
}
use xlchat_project.Client.Outbox.Private.{send_fetch_keys, send_to_user, send_distribution}
use xlchat_project.Client.Outbox.Laws.{times_sent}
use xlchat_project.Client.Outbox.Waiting.{
  IsWaiting, error_keeps, flush-IsWaiting, send_first-IsWaiting, send_distribution-IsWaiting,
  handle_error_response-IsWaiting, answer-IsWaiting,
}

-- What happens on a connection while the session lasts.
pub data OutboxStep : Type 0 where
  flush : (ℕ → Bool) → (OutboxItem → Bool) → OutboxStep
  fetch_keys : ℕ → OutboxStep
  keys_arrive : (OutboxItem → Bool) → ℕ → OutboxStep
  distribute : Text → OutboxStep
  queue : Text → ℕ → Text → Option (List ℕ) → OutboxStep
  answer : ℕ → SendResponse → (ℕ → Bool) → (OutboxItem → Bool) → OutboxStep
  refuse : ℕ → ErrorCode → OutboxStep

module _ (c : Crypto) (parse : Text → Option Root) (trimmed : Text → Text) where
  unfoldable pub take_step : SendQueue → OutboxStep → SendQueue
  take_step o (flush has_key encrypted) = flush_group_messages has_key encrypted o
  take_step o (fetch_keys target) = send_fetch_keys o target
  take_step o (keys_arrive encrypted target) = send_to_user encrypted target o
  take_step o (distribute id) = send_distribution o id
  take_step o (queue id conversation content random) =
      queue_group_message c trimmed o id conversation content random
  take_step o (answer request r has_key encrypted) =
      handle_send_message_response c parse (flush_group_messages has_key encrypted) o request r
  take_step o (refuse request code) = handle_error_response o request code

  unfoldable pub take_steps : SendQueue → List OutboxStep → SendQueue
  take_steps o [] = o
  take_steps o (s ∷ steps) = take_steps (take_step o s) steps

-- No step answers the request, none distributes a key under its message's id, and none ends the
-- session.
abbrev pub IsOther : ℕ → Text → OutboxStep → Type 0
IsOther request id (flush has_key encrypted) = Unit
IsOther request id (fetch_keys target) = Unit
IsOther request id (keys_arrive encrypted target) = Unit
IsOther request id (distribute other) = text_eq other id ≡ false
IsOther request id (queue other conversation content random) = Unit
IsOther request id (answer other r has_key encrypted) = other ≢ request
IsOther request id (refuse other code) = ends_session code ≡ false

abbrev pub AllOther : ℕ → Text → List OutboxStep → Type 0
AllOther request id [] = Unit
AllOther request id (s ∷ steps) = IsOther request id s × AllOther request id steps

module _ (c : Crypto) (parse : Text → Option Root) (trimmed : Text → Text) (request : ℕ) (id : Text)
    (n : ℕ) where
  queue-IsWaiting :
      (o : SendQueue) (x : Text) (conversation : ℕ) (content : Text) (random : Option (List ℕ))
      → IsWaiting request id n o
      → IsWaiting request id n (queue_group_message c trimmed o x conversation content random)
  unfolding queue_group_message
  queue-IsWaiting o x conversation content random w =
      either (conversation == 0 || is_empty (trimmed content)) _ _ w
        (record { waits = w.waits; past = w.past; count = w.count })
    where
      either :
          (b : Bool) (x y : SendQueue)
          → IsWaiting request id n x
          → IsWaiting request id n y
          → IsWaiting request id n (if b then x else y)
      either true x y v w = v
      either false x y v w = w

  take_step-IsWaiting :
      (o : SendQueue) (s : OutboxStep)
      → IsOther request id s
      → IsWaiting request id n o
      → IsWaiting request id n (take_step c parse trimmed o s)
  unfolding take_step send_fetch_keys send_to_user
  take_step-IsWaiting o (flush has_key encrypted) h w =
      flush-IsWaiting request id n has_key encrypted o w
  take_step-IsWaiting o (fetch_keys target) h w = record {
    waits = w.waits;
    past = omega (arith, w.past);
    count = w.count;
  }
  take_step-IsWaiting o (keys_arrive encrypted target) h w =
      send_first-IsWaiting request id n encrypted target o.pending [] o.items o w.waits w
  take_step-IsWaiting o (distribute other) h w =
      send_distribution-IsWaiting request id n o other h w
  take_step-IsWaiting o (queue other conversation content random) h w =
      queue-IsWaiting o other conversation content random w
  take_step-IsWaiting o (answer other r has_key encrypted) h w =
      answer-IsWaiting request id n c parse (flush_group_messages has_key encrypted) o other r
        (flush-IsWaiting request id n has_key encrypted) h w
  take_step-IsWaiting o (refuse other code) h w =
      handle_error_response-IsWaiting request id n o other code h w

  take_steps-IsWaiting :
      (o : SendQueue) (steps : List OutboxStep)
      → AllOther request id steps
      → IsWaiting request id n o
      → IsWaiting request id n (take_steps c parse trimmed o steps)
  unfolding take_steps
  take_steps-IsWaiting o [] h w = w
  take_steps-IsWaiting o (s ∷ steps) h w =
      take_steps-IsWaiting (take_step c parse trimmed o s) steps h.1 (take_step-IsWaiting o s h.0 w)

-- A waiting request to send a message that is answered by an Error packet, for another reason than
-- its session, blocks the message. The error leaves the outbox as it was, but as long as no other
-- answer to the request comes and the session and the connection last, nothing that the client
-- does sends the message again: no flush of its outbox, no keys that arrive, no new message and no
-- answer to another request; the request stays counted as unanswered. (Request ids rise, and the
-- UUIDs of key distributions are others than the message's.)
pub handle_error_response_blocks :
    (c : Crypto) (parse : Text → Option Root) (trimmed : Text → Text) (id : Text) (request : ℕ)
    (code : ErrorCode) (o : SendQueue) (steps : List OutboxStep)
    → lookup request o.pending ≡ some id
    → request < o.next_id
    → ends_session code ≡ false
    → AllOther request id steps
    → let x = handle_error_response o request code in
      let later = take_steps c parse trimmed x steps in
      (x.items ≡ o.items)
      × (lookup request later.pending ≡ some id)
      × (times_sent id later ≡ times_sent id o)
handle_error_response_blocks c parse trimmed id request code o steps e l s h =
    let n = times_sent id o in
    let w : IsWaiting request id n o = record { waits = e; past = l; count = refl } in
    let later =
      take_steps-IsWaiting c parse trimmed request id n (handle_error_response o request code) steps
        h (handle_error_response-IsWaiting request id n o request code s w) in
    ((error_keeps request code o s).0, later.waits, later.count)
