-- ===== src/Handler/Sessions/Laws.antt =====
-- Logout, renewal and termination: which sessions they end.
use xlchat_project.Common.{
  ℕ, ◌+◌, ◌≤◌, ◌<◌, ◌≡◌, ◌≢◌, refl, ◌∙◌, Bool, true, false, not, none, some, List, [], ◌∷◌, ◌==◌,
  Text, text_eq, text_eq_iff, is_empty, arith, Option-cases, Bool-cases, inl, inr, has_row, select,
  find_row, All, All-select, find_row-All, Rising-lt, Rising-found, delete_one, find_row-append,
}
use xlchat_project.Database.{Db, Session}
use xlchat_project.Database.Accounts.{
  create_session, get_session_by_id, delete_session, newest_first, get_sessions_by_user_id,
  session_ttl,
}
use xlchat_project.Database.Accounts.Ids.{
  SessionsRise, create_session_found, create_session_succeeds, delete_session_gone,
  delete_session-SessionsRise,
}
use xlchat_project.Handler.{Conn, World}
use xlchat_project.Handler.Session.{validate_session}
use xlchat_project.Handler.Login.{Call, Passwords}
use xlchat_project.Handler.Login.Access.{accepts_own, validate_found}
use xlchat_project.Handler.Sessions.{
  process_logout, replace_session, process_token_renew, TerminateRequest, is_target,
  process_terminate_session,
}

module _ (hash : Text → Text) where
  validate_missing :
      (db : Db) (c : Conn) (is_renew : Bool) (token : Text) (now : ℕ)
      → get_session_by_id db c.session ≡ none
      → validate_session hash db c is_renew token now ≡ false
  unfolding validate_session
  validate_missing db c is_renew token now e = ground arith

  -- After a logout over a database that answers no request is accepted any more, on this connection
  -- or on any other that holds the same session.
  pub process_logout_ends :
      (w : World) (c : Call) (other : Conn) (is_renew : Bool) (token : Text) (later : ℕ)
      → w.db.available ≡ true
      → other.session ≡ w.conn.session
      → (validate_session hash (process_logout w c).db other is_renew token later ≡ false)
        × (validate_session hash
              (process_logout w c).db
              (process_logout w c).conn
              is_renew
              token
              later
            ≡ false)
  unfolding process_logout
  process_logout_ends w c other is_renew token later on same = (
    validate_missing (delete_session w.db w.conn.session).0 other is_renew token later
        (rw same (delete_session_gone w.db w.conn.session on)),
    unfold validate_session in refl,
  )

delete_session_keeps :
    (db : Db) (id : ℕ)
    → ((delete_session db id).0.available ≡ db.available)
      × ((delete_session db id).0.users ≡ db.users)
      × ((delete_session db id).0.next_session ≡ db.next_session)
unfolding delete_session
delete_session_keeps db id = ground arith

other_session :
    (db : Db) (user : ℕ) (d t : Text) (now id : ℕ)
    → get_session_by_id db id ≡ none
    → id < db.next_session
    → get_session_by_id (create_session db user d t now).0 id ≡ none
unfolding create_session get_session_by_id find_row
other_session db user d t now id e h = ground (
  arith,
  find_row-append (λ (s : Session). s.id == id) db.sessions
      (record {
        id = db.next_session;
        user = user;
        device = d;
        token_hash = t;
        expires_at = some (now + session_ttl);
      }
        ∷ []),
)

module _ (p : Passwords) where
  renewed :
      (w : World) (c : Call) (supplied : Text) (s : Session) (id : ℕ)
      → is_empty supplied ≡ false
      → get_session_by_id w.db w.conn.session ≡ some s
      → p.hash_token supplied ≡ s.token_hash
      → (create_session
          (delete_session w.db w.conn.session).0
          w.conn.user
          w.conn.device
          (p.hash_token c.token)
          c.now).1
        ≡ some id
      → let w' = process_token_renew p w c supplied in
        (w'.conn ≡ record w.conn { session = id })
        × (w'.db
            ≡ (create_session
                (delete_session w.db w.conn.session).0
                w.conn.user
                w.conn.device
                (p.hash_token c.token)
                c.now).0)
  unfolding process_token_renew
  renewed w c supplied s id ne e h k =
      rw (ne, e, (text_eq_iff (p.hash_token supplied) s.token_hash).1 h)
        (rw (k, replace_session) (refl, refl))

  -- A renewal with the session's own token ends the old session, for every connection that holds it
  -- and whatever token it presents, and opens a new one that is accepted with the returned token for
  -- the seven days to come. The conditions are those of a healthy database: it answers, its session
  -- ids rise and the current one is below the next, the connection's user exists, and the new random
  -- token is not empty and its hash is not taken.
  pub process_token_renew_replaces :
      (w : World) (c : Call) (supplied : Text) (s : Session)
      → (other : Conn) (is_renew : Bool) (token : Text) (later : ℕ) → SessionsRise w.db
      → w.db.available ≡ true
      → w.conn.session < w.db.next_session
      → w.conn.user ≢ 0
      → has_row (λ u. u.id == w.conn.user) w.db.users ≡ true
      → is_empty supplied ≡ false
      → get_session_by_id w.db w.conn.session ≡ some s
      → p.hash_token supplied ≡ s.token_hash
      → has_row
          (λ s. text_eq s.token_hash (p.hash_token c.token))
          (delete_session w.db w.conn.session).0.sessions
        ≡ false
      → is_empty c.token ≡ false
      → other.session ≡ w.conn.session
      → later ≤ c.now + session_ttl
      → let w' = process_token_renew p w c supplied in
        (validate_session p.hash_token w'.db other is_renew token later ≡ false)
        × (validate_session p.hash_token w'.db w'.conn false c.token later ≡ true)
  process_token_renew_replaces w c supplied s other is_renew token later rise on below ne known
        some_token e h new fresh same soon =
      let d = (delete_session w.db w.conn.session).0 in
      let k = delete_session_keeps w.db w.conn.session in
      let t = p.hash_token c.token in
      let id = d.next_session in
      let rise' = delete_session-SessionsRise w.db w.conn.session rise in
      let made =
        create_session_succeeds d w.conn.user w.conn.device t c.now (k.0 ∙ on) (rw k.1 known) new in
      let r = renewed w c supplied s id some_token e h made in
      let found = create_session_found d w.conn.user w.conn.device t c.now id rise' made in
      (
        validate_missing p.hash_token (process_token_renew p w c supplied).db other is_renew token
            later
            (rw (r.1, same)
              (other_session d w.conn.user w.conn.device t c.now w.conn.session
                (delete_session_gone w.db w.conn.session on) (omega (arith, below, k.2)))),
        rw r.0 (
            validate_found p.hash_token (process_token_renew p w c supplied).db
              (record w.conn { session = id })
              (record {
                id = id;
                user = w.conn.user;
                device = w.conn.device;
                token_hash = t;
                expires_at = some (c.now + session_ttl);
              })
              false c.token later
              (omega (arith, Rising-lt (λ (s : Session). s.id) 0 id d.sessions rise')) ne
              (rw r.1 found)
              (accepts_own p.hash_token id w.conn.user w.conn.device c.token (c.now + session_ttl)
                later fresh soon)),
      )

-- The sessions listed for a user are that user's, and each is the one found under its id.
abbrev IsOwn : Db → ℕ → Session → Type 0
IsOwn db user s =
    (find_row (λ (t : Session). t.id == s.id) db.sessions ≡ some s) × ((s.user == user) ≡ true)

newest_first-All {ℓ} :
    (P : Session → Type ℓ) (ss out : List Session)
    → All P ss
    → All P out
    → All P (newest_first ss out)
unfolding newest_first
newest_first-All P [] out h k = k
newest_first-All P (s ∷ ss) out h k = newest_first-All P ss (s ∷ out) h.1 (h.0, k)

get_sessions-IsOwn :
    (db : Db) (user : ℕ) → SessionsRise db → All (IsOwn db user) (get_sessions_by_user_id db user)
unfolding get_sessions_by_user_id
get_sessions-IsOwn db user rise = elim (Bool-cases db.available) [
  | inl on ↦ rw on (
      newest_first-All (IsOwn db user) (select (λ s. s.user == user) db.sessions) []
        (All-select _ (λ s. s.user == user) db.sessions
          (Rising-found (λ (s : Session). s.id) 0 db.next_session db.sessions db.sessions
            (λ k h. refl) rise))
        tt)
  | inr off ↦ rw off tt
]

-- No termination request touches a session of another user, where the session ids of the table rise.
pub process_terminate_session_others :
    (w : World) (c : Call) (r : TerminateRequest)
    → SessionsRise w.db
    → select (λ s. not (s.user == w.conn.user)) (process_terminate_session w c r).db.sessions
      ≡ select (λ s. not (s.user == w.conn.user)) w.db.sessions
unfolding process_terminate_session delete_session
process_terminate_session_others w c r rise =
    elim (Option-cases (find_row (is_target r) (get_sessions_by_user_id w.db w.conn.user))) [
      | inl e ↦ ground (arith, e)
      | inr (s, e) ↦
          let own : IsOwn w.db w.conn.user s =
            find_row-All (IsOwn w.db w.conn.user) (is_target r)
              (get_sessions_by_user_id w.db w.conn.user) s
              (get_sessions-IsOwn w.db w.conn.user rise) e in
          ground (
            arith,
            e,
            delete_one (λ (s : Session). s.id) (λ s. not (s.user == w.conn.user)) 0
                w.db.next_session s w.db.sessions rise own.0 (ground (arith, own.1)),
          )
    ]

-- A request that names the connection's own device ends the current session, if that is the newest
-- of its user: the test against it looks only at the session id of the request.
pub process_terminate_session_current :
    (w : World) (c : Call) (r : TerminateRequest) (s : Session) (rest : List Session)
    → w.db.available ≡ true
    → w.conn.session ≢ 0
    → r.user_id ≡ none
    → r.session_id ≡ 0
    → is_empty r.device_id ≡ false
    → r.device_id ≡ w.conn.device
    → get_sessions_by_user_id w.db w.conn.user ≡ s ∷ rest
    → s.id ≡ w.conn.session
    → s.device ≡ w.conn.device
    → get_session_by_id (process_terminate_session w c r).db w.conn.session ≡ none
unfolding process_terminate_session find_row
process_terminate_session_current w c r s rest on ne u z d same e id dev =
    ground (arith, text_eq_iff s.device r.device_id, delete_session_gone w.db w.conn.session on)
