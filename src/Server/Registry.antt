-- ===== src/Server/Registry.antt =====
-- Chat-Server/core/Server.cpp: who is online, and where messages go. Connections reach these slots
-- by queued signals, so each runs to its end before the next. A handler object is its number.
pub mod Routing
pub mod Finished
pub mod Relogin
pub mod Runs
mod Tests
use xlchat_project.Common.{
  ℕ, ◌≡◌, Bool, true, false, Option, none, some, List, [], ◌∷◌, ◌==◌, if◌then◌else◌, not, is_empty,
  member, set_insert, set_remove, length, map,
}
use xlchat_project.Common.Dict.{Dict, nat_eq, lookup, insert, remove, retain}

pub record Registry : Type 0 where
  -- m_onlineSessions: user to set of sessions
  pub online : Dict ℕ (List ℕ)
  -- m_sessionHandlers: session to handler
  pub handlers : Dict ℕ ℕ
  -- m_handlerUsers: handler to user
  pub users : Dict ℕ ℕ

abbrev pub or_empty : Option (List ℕ) → List ℕ
or_empty none = []
or_empty (some xs) = xs

-- `m_onlineSessions[userId]` reads an absent user as the empty set.
abbrev pub sessions : Registry → ℕ → List ℕ
sessions r user = or_empty (lookup user r.online)

unfoldable pub start : Registry
start = record { online = []; handlers = []; users = [] }

unfoldable pub on_user_logged_in : Registry → ℕ → ℕ → ℕ → Registry
on_user_logged_in r handler user session = record {
  online = insert user (set_insert session (sessions r user)) r.online;
  handlers = insert session handler r.handlers;
  users = insert handler user r.users;
}

-- `m_onlineSessions[userId] = set`, and the user goes when the set is empty.
unfoldable pub put_sessions : ℕ → List ℕ → Dict ℕ (List ℕ) → Dict ℕ (List ℕ)
put_sessions user [] online = remove user online
put_sessions user (s ∷ ss) online = insert user (s ∷ ss) online

-- Session 0 stands for all sessions of the user.
unfoldable pub on_user_logged_out : Registry → ℕ → ℕ → Registry
unfolding put_sessions
on_user_logged_out r user session =
    if session == 0
    then record r { online = remove user r.online; users = retain (λ _ u. not (u == user)) r.users }
    else record r {
      online = put_sessions user (set_remove session (sessions r user)) r.online;
      handlers = remove session r.handlers;
    }

-- The loop over m_sessionHandlers takes the finished handler's sessions out of its user's set.
unfoldable pub unlink : ℕ → Dict ℕ ℕ → List ℕ → List ℕ
unlink handler [] set = set
unlink handler ((s, h) ∷ m) set = unlink handler m (if h == handler then set_remove s set else set)

unfoldable pub unlink_all : Registry → ℕ → ℕ → Registry
unfolding unlink put_sessions
unlink_all r handler user = record r {
  online = put_sessions user (unlink handler r.handlers (sessions r user)) r.online;
  handlers = retain (λ _ h. not (h == handler)) r.handlers;
}

abbrev pub is_online : Registry → ℕ → Bool
is_online r user = elim (lookup user r.online) [ none ↦ false | some ss ↦ true ]

unfoldable pub on_handler_finished : Registry → ℕ → Registry
unfolding unlink_all
on_handler_finished r handler = elim (lookup handler r.users) [
  | none ↦ r
  | some user ↦
      let r' = record r { users = remove handler r.users } in
      if is_online r' user then unlink_all r' handler user else r'
]

unfoldable pub online_user_count : Registry → ℕ
online_user_count r = length r.online

unfoldable pub online_user_ids : Registry → List ℕ
online_user_ids r = map (λ e. e.0) r.online

unfoldable pub handlers_of : Registry → List ℕ → List ℕ
handlers_of r [] = []
handlers_of r (s ∷ ss) = elim (lookup s r.handlers) [
  | none ↦ handlers_of r ss
  | some h ↦ h ∷ handlers_of r ss
]

-- The handlers whose `sendRawData` is called with the packet.
unfoldable pub on_message_for_user : Registry → ℕ → List ℕ
unfolding handlers_of
on_message_for_user r user = elim (lookup user r.online) [ none ↦ [] | some ss ↦ handlers_of r ss ]

-- The handler whose `disconnectClient` is called, if any.
unfoldable pub on_session_terminated : Registry → ℕ → Option ℕ
on_session_terminated r session = lookup session r.handlers
