-- ===== src/Server/Registry/Routing.antt =====
-- The registry stays consistent while each connection serves one user, and then messages reach the
-- connections of their user and no others.
use xlchat_project.Common.{
  ℕ, ◌≡◌, ◌≢◌, ap, ◌∙◌, true, false, none, some, List, [], ◌∷◌, ◌==◌, if◌then◌else◌, not, ◌&&◌,
  ◌||◌, member, set_insert, set_remove, member-set_insert, member-set_remove, arith, inl, inr,
  Option-cases, Bool-cases, All,
}
use xlchat_project.Common.Dict.{
  Dict, nat_eq, lookup, lookup-insert, lookup-remove, Distinct, insert-Distinct, remove-Distinct,
}
use xlchat_project.Server.Registry.{
  Registry, start, sessions, on_user_logged_in, put_sessions, on_user_logged_out, handlers_of,
  on_message_for_user, or_empty,
}

pub record IsConsistent (r : Registry) : Type 0 where
  -- A session with a handler is a session of the user whom that handler serves.
  pub owned :
      (s h : ℕ)
      → lookup s r.handlers ≡ some h
      → (u : ℕ) × (lookup h r.users ≡ some u) × (member s (sessions r u) ≡ true)
  -- No session is that of two users.
  pub disjoint :
      (s u v : ℕ) → member s (sessions r u) ≡ true → member s (sessions r v) ≡ true → u ≡ v
  pub distinct : Distinct r.handlers

pub start-IsConsistent : IsConsistent start
unfolding start lookup member
start-IsConsistent = record { owned = λ s h e. cc; disjoint = λ s u v e f. cc; distinct = tt }

pub sessions-login :
    (r : Registry) (handler user session other : ℕ)
    → sessions (on_user_logged_in r handler user session) other
      ≡ (if user == other then set_insert session (sessions r user) else sessions r other)
unfolding on_user_logged_in
sessions-login r handler user session other =
    ground (arith, lookup-insert user other (set_insert session (sessions r user)) r.online)

pub sessions-put :
    (user other : ℕ) (set : List ℕ) (online : Dict ℕ (List ℕ))
    → or_empty (lookup other (put_sessions user set online))
      ≡ (if user == other then set else or_empty (lookup other online))
unfolding put_sessions
sessions-put user other [] online = ground (arith, lookup-remove user other online)
sessions-put user other (s ∷ ss) online = ground (arith, lookup-insert user other (s ∷ ss) online)

-- What a login may assume: the session is new to the registry, and the connection serves no one
-- else.
pub record IsFreshLogin (r : Registry) (handler user session : ℕ) : Type 0 where
  pub unowned : lookup session r.handlers ≡ none
  pub unlisted : (u : ℕ) → member session (sessions r u) ≡ false
  pub own : (u : ℕ) → lookup handler r.users ≡ some u → u ≡ user

pub handlers-login :
    (r : Registry) (handler user session s : ℕ)
    → lookup s (on_user_logged_in r handler user session).handlers
      ≡ (if session == s then some handler else lookup s r.handlers)
unfolding on_user_logged_in
handlers-login r handler user session s = lookup-insert session s handler r.handlers

pub users-login :
    (r : Registry) (handler user session h : ℕ)
    → lookup h (on_user_logged_in r handler user session).users
      ≡ (if handler == h then some user else lookup h r.users)
unfolding on_user_logged_in
users-login r handler user session h = lookup-insert handler h user r.users

pub member-login :
    (r : Registry) (handler user session u s : ℕ)
    → member s (sessions (on_user_logged_in r handler user session) u)
      ≡ ((user == u && session == s) || member s (sessions r u))
member-login r handler user session u s =
    ground (
      arith,
      sessions-login r handler user session u,
      member-set_insert session s (sessions r user),
    )

module _ (r : Registry) (handler user session : ℕ) (c : IsConsistent r)
    (f : IsFreshLogin r handler user session) where
  login_owned :
      (s h : ℕ)
      → lookup s (on_user_logged_in r handler user session).handlers ≡ some h
      → (u : ℕ) × (lookup h (on_user_logged_in r handler user session).users ≡ some u)
        × (member s (sessions (on_user_logged_in r handler user session) u) ≡ true)
  login_owned s h e = elim (Bool-cases (session == s)) [
    | inl new ↦ (
      user,
      ground (arith, handlers-login r handler user session s, users-login r handler user session h),
      ground (arith, member-login r handler user session user s),
    )
    | inr old ↦
        let o = c.owned s h (ground (arith, handlers-login r handler user session s)) in
        (
          o.0,
          ground (arith, o.1, users-login r handler user session h, f.own o.0),
          ground (arith, o.2, member-login r handler user session o.0 s),
        )
  ]

  login_disjoint :
      (s u v : ℕ)
      → member s (sessions (on_user_logged_in r handler user session) u) ≡ true
      → member s (sessions (on_user_logged_in r handler user session) v) ≡ true
      → u ≡ v
  login_disjoint s u v hu hv = ground (
    arith,
    member-login r handler user session u s,
    member-login r handler user session v s,
    f.unlisted u,
    f.unlisted v,
    c.disjoint s u v,
  )

  -- A login whose session is new to the registry, from a connection that serves no other user, keeps
  -- a consistent registry consistent.
  pub on_user_logged_in-IsConsistent : IsConsistent (on_user_logged_in r handler user session)
  unfolding on_user_logged_in
  on_user_logged_in-IsConsistent = record {
    owned = login_owned;
    disjoint = login_disjoint;
    distinct = insert-Distinct session handler r.handlers c.distinct;
  }

pub member-logout :
    (r : Registry) (user session u s : ℕ)
    → session ≢ 0
    → member s (sessions (on_user_logged_out r user session) u)
      ≡ (not (user == u && session == s) && member s (sessions r u))
unfolding on_user_logged_out
member-logout r user session u s ne = ground (
  arith,
  sessions-put user u (set_remove session (sessions r user)) r.online,
  member-set_remove session s (sessions r user),
)

pub handlers-logout :
    (r : Registry) (user session s : ℕ)
    → session ≢ 0
    → (lookup s (on_user_logged_out r user session).handlers
        ≡ (if session == s then none else lookup s r.handlers))
      × ((on_user_logged_out r user session).users ≡ r.users)
unfolding on_user_logged_out
handlers-logout r user session s ne = ground (arith, lookup-remove session s r.handlers)

logout-Distinct :
    (r : Registry) (user session : ℕ)
    → Distinct r.handlers
    → Distinct (on_user_logged_out r user session).handlers
unfolding on_user_logged_out
logout-Distinct r user session d = ground (arith, remove-Distinct session r.handlers d)

-- A logout of any session of any user, with an id that is not 0, keeps the registry consistent.
pub on_user_logged_out-IsConsistent :
    (r : Registry) (user session : ℕ)
    → session ≢ 0
    → IsConsistent r
    → IsConsistent (on_user_logged_out r user session)
on_user_logged_out-IsConsistent r user session ne c = record {
  owned = λ s h e.
      let k = handlers-logout r user session s ne in
      let o = c.owned s h (ground (arith, k.0)) in
      (o.0, rw k.1 o.1, ground (arith, o.2, k.0, member-logout r user session o.0 s ne));
  disjoint = λ s u v hu hv. ground (
    arith,
    member-logout r user session u s ne,
    member-logout r user session v s ne,
    c.disjoint s u v,
  );
  distinct = logout-Distinct r user session c.distinct;
}

pub message_for_user_lem :
    (r : Registry) (user : ℕ) → on_message_for_user r user ≡ handlers_of r (sessions r user)
unfolding on_message_for_user
message_for_user_lem r user = ground arith

own_handlers :
    (r : Registry) (user : ℕ) (ss : List ℕ)
    → IsConsistent r
    → All (λ s. member s (sessions r user) ≡ true) ss
    → All (λ h. lookup h r.users ≡ some user) (handlers_of r ss)
unfolding handlers_of
own_handlers r user [] c h = tt
own_handlers r user (s ∷ ss) c (hs, hss) = elim (Option-cases (lookup s r.handlers)) [
  | inl e ↦ rw (e, handlers_of) (own_handlers r user ss c hss)
  | inr (h, e) ↦
      let o = c.owned s h e in
      let same : o.0 ≡ user = c.disjoint s o.0 user o.2 hs in
      rw (e, handlers_of) ((o.1 ∙ ap some same, own_handlers r user ss c hss))
]

All-member-cons :
    (x : ℕ) (xs ys : List ℕ)
    → All (λ s. member s ys ≡ true) xs
    → All (λ s. member s (x ∷ ys) ≡ true) xs
unfolding member
All-member-cons x [] ys h = tt
All-member-cons x (y ∷ xs) ys h = (ground arith, All-member-cons x xs ys h.1)

All-member : (xs : List ℕ) → All (λ s. member s xs ≡ true) xs
unfolding member
All-member [] = tt
All-member (x ∷ xs) = (ground arith, All-member-cons x xs xs (All-member xs))

-- In a consistent registry a message for a user goes to connections that serve that user only.
pub on_message_for_user-own :
    (r : Registry) (user : ℕ)
    → IsConsistent r
    → All (λ h. lookup h r.users ≡ some user) (on_message_for_user r user)
on_message_for_user-own r user c =
    rw message_for_user_lem (own_handlers r user (sessions r user) c (All-member _))

pub member-handlers_of :
    (r : Registry) (s h : ℕ) (ss : List ℕ)
    → lookup s r.handlers ≡ some h
    → member s ss ≡ true
    → member h (handlers_of r ss) ≡ true
unfolding handlers_of member
member-handlers_of r s h [] e m = cc
member-handlers_of r s h (x ∷ ss) e m = ground (arith, member-handlers_of r s h ss e)

-- After a login the user's messages reach the new connection; in the same registry they still reach
-- every connection of the user whose session is another one. (The registry need not be consistent.)
pub on_message_for_user-login :
    (r : Registry) (handler user session s h : ℕ)
    → member s (sessions r user) ≡ true
    → lookup s r.handlers ≡ some h
    → s ≢ session
    → let r' = on_user_logged_in r handler user session in
      (member handler (on_message_for_user r' user) ≡ true)
      × (member h (on_message_for_user r' user) ≡ true)
on_message_for_user-login r handler user session s h m e ne =
    let r' = on_user_logged_in r handler user session in
    rw message_for_user_lem (
      member-handlers_of r' session handler (sessions r' user)
          (ground (arith, handlers-login r handler user session session))
          (ground (arith, member-login r handler user session user session)),
      member-handlers_of r' s h (sessions r' user)
          (ground (arith, handlers-login r handler user session s))
          (ground (arith, m, member-login r handler user session user s)),
    )
