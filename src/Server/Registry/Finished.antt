-- ===== src/Server/Registry/Finished.antt =====
-- A connection that ends leaves no trace in a consistent registry.
use xlchat_project.Common.{
  ℕ, ◌≡◌, ◌≢◌, refl, Bool, true, false, Option, none, some, List, [], ◌∷◌, ◌==◌, if◌then◌else◌, not,
  ◌&&◌, member, set_remove, member-set_remove, arith, inl, inr, Option-cases, Bool-cases, ◌∙◌,
}
use xlchat_project.Common.Dict.{
  Dict, nat_eq, lookup, remove, lookup-remove, lookup-retain, Distinct, retain-Distinct,
}
use xlchat_project.Server.Registry.{
  Registry, sessions, unlink, unlink_all, is_online, on_handler_finished,
}
use xlchat_project.Server.Registry.Routing.{IsConsistent, sessions-put}

-- A session leads to the handler.
abbrev pub points_to : Option ℕ → ℕ → Bool
points_to none h = false
points_to (some g) h = g == h

member-unlink :
    (handler s : ℕ) (m : Dict ℕ ℕ) (set : List ℕ)
    → Distinct m
    → member s (unlink handler m set) ≡ (member s set && not (points_to (lookup s m) handler))
unfolding unlink lookup
member-unlink handler s [] set d = ground arith
member-unlink handler s ((j, h) ∷ m) set d = ground (
  arith,
  member-unlink handler s m (if h == handler then set_remove j set else set) d.1,
  member-set_remove j s set,
)

handlers-unlink_all :
    (r : Registry) (handler user s : ℕ)
    → Distinct r.handlers
    → lookup s (unlink_all r handler user).handlers
      ≡ (if points_to (lookup s r.handlers) handler then none else lookup s r.handlers)
unfolding unlink_all
handlers-unlink_all r handler user s d =
    ground (arith, lookup-retain (λ _ h. not (h == handler)) s r.handlers d)

member-unlink_all :
    (r : Registry) (handler user u s : ℕ)
    → Distinct r.handlers
    → member s (sessions (unlink_all r handler user) u)
      ≡ (member s (sessions r u) && not (user == u && points_to (lookup s r.handlers) handler))
unfolding unlink_all
member-unlink_all r handler user u s d = ground (
  arith,
  sessions-put user u (unlink handler r.handlers (sessions r user)) r.online,
  member-unlink handler s r.handlers (sessions r user) d,
)

-- The case of a connection that serves a user, with its entry in `users` gone already.
record IsUnlinked (r r' : Registry) (handler : ℕ) : Type 0 where
  linked :
      (s : ℕ)
      → lookup s r'.handlers
        ≡ (if points_to (lookup s r.handlers) handler then none else lookup s r.handlers)
  listed :
      (u s : ℕ)
      → points_to (lookup s r.handlers) handler ≡ false
      → member s (sessions r' u) ≡ member s (sessions r u)
  fewer : (u s : ℕ) → member s (sessions r' u) ≡ true → member s (sessions r u) ≡ true
  serving : (h : ℕ) → h ≢ handler → lookup h r'.users ≡ lookup h r.users
  keys : Distinct r'.handlers

no_session :
    (r : Registry) (handler user s : ℕ)
    → IsConsistent r
    → lookup handler r.users ≡ some user
    → is_online r user ≡ false
    → points_to (lookup s r.handlers) handler ≡ false
unfolding member
no_session r handler user s c e off = elim (Option-cases (lookup s r.handlers)) [
  | inl n ↦ rw n
  | inr (h, n) ↦ let o = c.owned s h n in ground (arith, o.1, o.2, n)
]

no_user :
    (r : Registry) (handler s : ℕ)
    → IsConsistent r
    → lookup handler r.users ≡ none
    → points_to (lookup s r.handlers) handler ≡ false
no_user r handler s c e = elim (Option-cases (lookup s r.handlers)) [
  | inl n ↦ rw n
  | inr (h, n) ↦ let o = c.owned s h n in ground (arith, o.1, n)
]

finished-none :
    (r : Registry) (handler : ℕ)
    → IsConsistent r
    → lookup handler r.users ≡ none
    → IsUnlinked r r handler
finished-none r handler c e = record {
  linked = λ s. ground (arith, no_user r handler s c e);
  listed = λ u s h. refl;
  fewer = λ u s h. h;
  serving = λ h ne. refl;
  keys = c.distinct;
}

finished-offline :
    (r : Registry) (handler user : ℕ)
    → IsConsistent r
    → lookup handler r.users ≡ some user
    → is_online r user ≡ false
    → IsUnlinked r (record r { users = remove handler r.users }) handler
finished-offline r handler user c e off = record {
  linked = λ s. ground (arith, no_session r handler user s c e off);
  listed = λ u s h. refl;
  fewer = λ u s h. h;
  serving = λ h ne. ground (arith, lookup-remove handler h r.users);
  keys = c.distinct;
}

unlink_all-keys :
    (r : Registry) (handler user : ℕ)
    → Distinct r.handlers
    → Distinct (unlink_all r handler user).handlers × ((unlink_all r handler user).users ≡ r.users)
unfolding unlink_all
unlink_all-keys r handler user d = (retain-Distinct _ r.handlers d, refl)

finished-online :
    (r : Registry) (handler user : ℕ)
    → IsConsistent r
    → IsUnlinked r (unlink_all (record r { users = remove handler r.users }) handler user) handler
finished-online r handler user c =
    let q : Registry = record r { users = remove handler r.users } in
    let k = unlink_all-keys q handler user c.distinct in
    record {
      linked = λ s. handlers-unlink_all q handler user s c.distinct;
      listed = λ u s h. ground (arith, member-unlink_all q handler user u s c.distinct);
      fewer = λ u s h. ground (arith, member-unlink_all q handler user u s c.distinct);
      serving = λ h ne. rw k.1 (ground (arith, lookup-remove handler h r.users));
      keys = k.0;
    }

finished-IsUnlinked :
    (r : Registry) (handler : ℕ)
    → IsConsistent r
    → IsUnlinked r (on_handler_finished r handler) handler
unfolding on_handler_finished
finished-IsUnlinked r handler c = elim (Option-cases (lookup handler r.users)) [
  | inl e ↦ rw (e, on_handler_finished) (finished-none r handler c e)
  | inr (user, e) ↦ elim (Bool-cases (is_online r user)) [
    | inl on ↦ rw (e, on_handler_finished) (rw on (finished-online r handler user c))
    | inr off ↦ rw (e, on_handler_finished) (rw off (finished-offline r handler user c e off))
  ]
]

-- The end of a connection keeps a consistent registry consistent.
pub on_handler_finished-IsConsistent :
    (r : Registry) (handler : ℕ) → IsConsistent r → IsConsistent (on_handler_finished r handler)
on_handler_finished-IsConsistent r handler c =
    let f = finished-IsUnlinked r handler c in
    record {
      owned = λ s h e.
          let o = c.owned s h (ground (arith, f.linked s)) in
          (
            o.0,
            f.serving h (λ same. ground (arith, f.linked s)) ∙ o.1,
            f.listed o.0 s (ground (arith, f.linked s)) ∙ o.2,
          );
      disjoint = λ s u v hu hv. c.disjoint s u v (f.fewer u s hu) (f.fewer v s hv);
      distinct = f.keys;
    }

-- After the end of a connection of a consistent registry no session leads to its handler, which is
-- about to be deleted, and every other session leads where it did.
pub on_handler_finished_unlinks :
    (r : Registry) (handler s : ℕ)
    → IsConsistent r
    → lookup s (on_handler_finished r handler).handlers
      ≡ (if points_to (lookup s r.handlers) handler then none else lookup s r.handlers)
on_handler_finished_unlinks r handler s c = (finished-IsUnlinked r handler c).linked s
