-- ===== src/Handler/Groups/Owners/Inviting.antt =====
-- processInviteGroupMembersRequest and the rows of conversation_members.
use xlchat_project.Common.{
  ℕ, ◌≤◌, ◌≡◌, ◌⊎◌, inl, inr, sym, ap, ◌∙◌, Bool-cases, Text, codes, length, true, false, not, ◌&&◌,
  List, [], ◌∷◌, ◌==◌, ltb, has_row, count_rows, count_rows-append, set_insert, arith,
}
use xlchat_project.Database.{Db, plain_member, Member, new_member}
use xlchat_project.Database.Groups.{
  is_in, is_member_row, insert_member, is_conversation_member, add_members, add_group_members,
}
use xlchat_project.Database.Groups.Membership.{
  is_owner, insert_member-size, insert_member-owners, insert_member-rows,
}
use xlchat_project.Database.Groups.{get_group_member_ids}
use xlchat_project.Handler.{World}
use xlchat_project.Handler.Login.{Call}
use xlchat_project.Handler.Notes.{Note}
use xlchat_project.Handler.Groups.{
  Vetted, refused, accepted, vet, invite, process_invite_group_members,
}
use xlchat_project.Handler.Groups.Owners.Requests.{IsLed, by_rows, tell_group_same}
use xlchat_project.Handler.Groups.Owners.{owners, headcount, rows, is_known, strays, Led}

insert_member-strays :
    (db : Db) (conversation id now g : ℕ)
    → (id == 0) ≡ false
    → let done = (insert_member db conversation id plain_member now).0 in
      (done.users ≡ db.users) × (strays g done.users done.members ≡ strays g db.users db.members)
unfolding insert_member count_rows
insert_member-strays db conversation id now g h = ground (
  arith,
  h,
  count_rows-append (λ m. is_in g m && not (is_known db.users m && ltb 0 m.user)) db.members
      (new_member conversation id plain_member now ∷ []),
)

module _ (conversation now g u : ℕ) where
  -- An empty group is not the one that is added to.
  add_members-owners :
      (ids : List ℕ) (db : Db) (seen : List ℕ)
      → (owners g db.members ≡ 1) ⊎ ((headcount g db.members ≡ 0) × ((conversation == g) ≡ false))
      → rows g u db.members ≤ 1
      → strays g db.users db.members ≡ 0
      → let done = (add_members ids db conversation seen now).0 in
        ((owners g done.members ≡ 1) ⊎ (headcount g done.members ≡ 0))
        × (rows g u done.members ≤ 1)
        × (strays g done.users done.members ≡ 0)
        × (done.users ≡ db.users)
  unfolding add_members is_owner
  add_members-owners [] db seen o r s = ground (arith, o, r, s)
  add_members-owners (id ∷ ids) db seen o r s = ground (
    arith,
    o,
    r,
    s,
    add_members-owners ids db seen o r s,
    add_members-owners ids db (set_insert id seen) o r s,
    insert_member-size db conversation id plain_member now g,
    insert_member-owners db conversation id plain_member now g,
    insert_member-rows db conversation id plain_member now g u r,
    insert_member-strays db conversation id now g,
    add_members-owners ids (insert_member db conversation id plain_member now).0
        (set_insert id seen),
  )

module _ (json : Note → Text) (c : Call) where
  invite_rows :
      (w : World) (group : ℕ) (v : Vetted)
      → let done = invite json w c group v in
        ((done.db.members ≡ w.db.members) × (done.db.users ≡ w.db.users))
        ⊎ ((ids : List ℕ) × (done.db.members ≡ (add_group_members w.db group ids c.now).0.members)
            × (done.db.users ≡ (add_group_members w.db group ids c.now).0.users))
  unfolding invite
  invite_rows w group (refused code) = ground arith
  invite_rows w group (accepted []) = ground arith
  invite_rows w group (accepted (id ∷ ids)) =
      let added = add_group_members w.db group (id ∷ ids) c.now in
      let told =
        tell_group_same json c group (Note.members_added w.conn.user (id ∷ ids))
          (codes "member_added") id (record w { db = added.0 }) in
      inr (id ∷ ids, ground (arith, told), ground (arith, told))

has_count :
    (group user : ℕ) (ms : List Member)
    → has_row (is_member_row group user) ms ≡ true
    → 1 ≤ headcount group ms
unfolding has_row count_rows
has_count group user [] h = ground (arith, h)
has_count group user (m ∷ ms) h = ground (arith, h, has_count group user ms)

member_counted :
    (db : Db) (group user g : ℕ)
    → is_conversation_member db group user ≡ true
    → headcount g db.members ≡ 0
    → (group == g) ≡ false
unfolding is_conversation_member
member_counted db group user g h z = elim (Bool-cases (group == g)) [
  | inl e ↦
      let same : g ≡ group = ground (arith, e) in
      absurd (
        omega (
          arith,
          sym (ap (λ k. headcount k db.members) same) ∙ z,
          has_count group user db.members (ground (arith, h)),
        ))
  | inr e ↦ e
]

added-IsLed :
    (db : Db) (group user g now : ℕ) (ids : List ℕ)
    → is_conversation_member db group user ≡ true
    → Led g db.users db.members
    → let done = (add_group_members db group ids now).0 in Led g done.users done.members
unfolding add_group_members
added-IsLed db group user g now ids h l =
    let start : (owners g db.members ≡ 1)
        ⊎ ((headcount g db.members ≡ 0) × ((group == g) ≡ false)) =
      ground (arith, l.led, member_counted db group user g h) in
    let facts = λ (u : ℕ). add_members-owners group now g u ids db [] start (l.unique u) l.known in
    record { led = (facts 0).0; unique = λ u. (facts u).1; known = (facts 0).2 }

process_invite_rows :
    (json : Note → Text) (c : Call) (w : World) (group : ℕ) (users : List ℕ)
    → let done = process_invite_group_members json w c group users in
      (done.db ≡ w.db)
      ⊎ ((is_conversation_member w.db group w.conn.user ≡ true)
          × ((v : Vetted) × (done ≡ invite json w c group v)))
unfolding process_invite_group_members
process_invite_rows json c w group users =
    let v = vet users w.db group w.conn.user [] (length (get_group_member_ids w.db group)) in
    let done = process_invite_group_members json w c group users in
    let step : (done.db ≡ w.db)
        ⊎ ((is_conversation_member w.db group w.conn.user ≡ true)
            × (done ≡ invite json w c group v)) =
      ground arith in
    elim step [ inl e ↦ inl e | inr e ↦ inr (e.0, (v, e.1)) ]

pub process_invite_group_members-IsLed :
    (json : Note → Text) (c : Call) (w : World) (group : ℕ) (users : List ℕ) (g : ℕ)
    → IsLed g w
    → IsLed g (process_invite_group_members json w c group users)
process_invite_group_members-IsLed json c w group users g h =
    let done = process_invite_group_members json w c group users in
    elim (process_invite_rows json c w group users) [
      | inl e ↦ by_rows {g = g} done (ap (λ d. d.users) e) (ap (λ d. d.members) e) h
      | inr (i, (v, e)) ↦ elim (invite_rows json c w group v) [
        | inl (m, u) ↦
            by_rows {g = g} done (ap (λ x. x.db.users) e ∙ u) (ap (λ x. x.db.members) e ∙ m) h
        | inr (ids, m, u) ↦
            by_rows {g = g} done (ap (λ x. x.db.users) e ∙ u) (ap (λ x. x.db.members) e ∙ m)
              (added-IsLed w.db group w.conn.user g c.now ids i h)
      ]
    ]
