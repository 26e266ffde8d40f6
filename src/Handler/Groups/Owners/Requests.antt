-- ===== src/Handler/Groups/Owners/Requests.antt =====
-- processLeaveGroupRequest and the rows of conversation_members.
use xlchat_project.Common.{
  ℕ, ◌<◌, ◌≡◌, ◌⊎◌, inl, inr, subst, sym, true, false, List, Text, update_rows, delete_rows, ◌==◌,
  ltb, if◌then◌else◌, Bool-cases, Option-cases, find_row, some, arith, codes,
}
use xlchat_project.Database.{User, owner, Member}
use xlchat_project.Database.Groups.{
  is_member_row, remove_group_member, update_member_role, group_role, get_group_members,
}
use xlchat_project.Database.Groups.Membership.{is_owner}
use xlchat_project.Handler.{World}
use xlchat_project.Handler.Login.{Call}
use xlchat_project.Handler.Notes.{Note, owner_transferred, member_left, post_group_system_message}
use xlchat_project.Handler.Notes.Frame.{
  SameGroups, post_group_system_message_same, notify_group_changed_same,
}
use xlchat_project.Handler.Groups.{
  first_other, tell_group, is_owner_role, hand_over, leave, process_leave_group,
}
use xlchat_project.Handler.Groups.Owners.{owning_found, Led, first_other-count}
use xlchat_project.Handler.Groups.Owners.Leaving.{Led-leave, Led-last, Led-handed, successor_found}

-- In a database.
abbrev pub IsLed : ℕ → World → Type 0
IsLed g w = Led g w.db.users w.db.members

-- From the rows and users that a request leaves.
pub by_rows :
    {g : ℕ} (done : World) {users : List User} {xs : List Member}
    → done.db.users ≡ users
    → done.db.members ≡ xs
    → Led g users xs
    → IsLed g done
by_rows {g} done {users} {xs} s e l =
    subst (λ us. Led g us done.db.members) (sym s) (subst (λ ys. Led g users ys) (sym e) l)

same-IsLed : (g : ℕ) (v w : World) → SameGroups v w → IsLed g w → IsLed g v
same-IsLed g v w s h = by_rows {g = g} v s.1 s.0 h

module _ (json : Note → Text) (c : Call) where
  pub tell_group_same :
      (group : ℕ) (content : Note) (change : Text) (target : ℕ) (w : World)
      → SameGroups (tell_group json group content change target c w) w
  unfolding tell_group
  tell_group_same group content change target w =
      let posted = post_group_system_message json group w.conn.user content c.now w in
      ground (
        arith,
        notify_group_changed_same json group change w.conn.user target c.now posted,
        post_group_system_message_same json group w.conn.user content c.now w,
      )

  -- Only the leaver's row goes.
  leave_rows :
      (w : World) (group : ℕ)
      → let left = leave json w c group in
        (left.db.members ≡ (remove_group_member w.db group w.conn.user).0.members)
        × (left.db.users ≡ w.db.users)
  unfolding leave remove_group_member
  leave_rows w group =
      let left = remove_group_member w.db group w.conn.user in
      ground (
        arith,
        tell_group_same group (member_left w.conn.user) (codes "member_left") w.conn.user
            (record w { db = left.0 }),
      )

  hand_over_rows :
      (w : World) (group : ℕ)
      → let heir = first_other w.conn.user (get_group_members w.db group) in
        SameGroups
          (hand_over json w c group)
          (if ltb 0 heir then record w { db = (update_member_role w.db group heir owner).0 } else w)
  unfolding hand_over
  hand_over_rows w group =
      let heir = first_other w.conn.user (get_group_members w.db group) in
      ground (
        arith,
        tell_group_same group (owner_transferred w.conn.user heir) (codes "owner_transferred") heir
            (record w { db = (update_member_role w.db group heir owner).0 }),
      )

  -- The rows after the request: unchanged, or without the leaver's, whose group the heir owns.
  process_leave_group_rows :
      (w : World) (group : ℕ)
      → let user = w.conn.user in
        let heir = first_other user (get_group_members w.db group) in
        let done = process_leave_group json w c group in
        let ms = w.db.members in
        (done.db.users ≡ w.db.users)
        × ((done.db.members ≡ ms)
            ⊎ ((m : Member) × (find_row (is_member_row group user) ms ≡ some m)
                × (w.db.available ≡ true)
                × (((is_owner m.role ≡ false)
                      × (done.db.members ≡ delete_rows (is_member_row group user) ms))
                    ⊎ ((is_owner m.role ≡ true)
                        × (heir ≡ 0)
                        × (done.db.members ≡ delete_rows (is_member_row group user) ms))
                    ⊎ ((is_owner m.role ≡ true)
                        × (0 < heir)
                        × (done.db.members
                            ≡ delete_rows (is_member_row group user) (
                                update_rows
                                  (is_member_row group heir)
                                  (λ x. record x { role = owner })
                                  ms))))))
  unfolding process_leave_group remove_group_member update_member_role group_role is_owner_role
      is_owner
  process_leave_group_rows w group =
      let passed = hand_over json w c group in
      elim (Option-cases (find_row (is_member_row group w.conn.user) w.db.members)) [
        | inl e ↦ ground (arith, e)
        | inr (m, e) ↦
            ground (arith, e, hand_over_rows w group, leave_rows w group, leave_rows passed group)
      ]

  -- In the group itself.
  leave-own :
      (w : World) (group : ℕ) → IsLed group w → IsLed group (process_leave_group json w c group)
  unfolding get_group_members
  leave-own w group h =
      let user = w.conn.user in
      let ms = w.db.members in
      let users = w.db.users in
      let done = process_leave_group json w c group in
      let heir = first_other user (get_group_members w.db group) in
      let facts = process_leave_group_rows w group in
      let found = successor_found users group user ms h.known in
      elim facts.1 [
        | inl e ↦ by_rows {g = group} done facts.0 e h
        | inr (m, f, a, inl (o, e)) ↦ by_rows {g = group} done facts.0 e (
            Led-leave group group user users ms h
              (ground (arith, owning_found group user ms m f (h.unique user), o)))
        | inr (m, f, a, inr (inl (o, z, e))) ↦
            by_rows {g = group} done facts.0 e
              (Led-last group group user users ms h (ground (arith, found, z, a)))
        | inr (m, f, a, inr (inr (o, z, e))) ↦ by_rows {g = group} done facts.0 e (
            Led-handed group group user heir (ground (arith, found, z, a)) users ms h
              (ground (arith, owning_found group user ms m f (h.unique user), o))
              (ground (arith, found, z, a, h.unique heir)))
      ]

  leave-other :
      (w : World) (group g : ℕ)
      → (g == group) ≡ false
      → IsLed g w
      → IsLed g (process_leave_group json w c group)
  leave-other w group g apart h =
      let user = w.conn.user in
      let ms = w.db.members in
      let users = w.db.users in
      let done = process_leave_group json w c group in
      let heir = first_other user (get_group_members w.db group) in
      let facts = process_leave_group_rows w group in
      elim facts.1 [
        | inl e ↦ by_rows {g = g} done facts.0 e h
        | inr (m, f, a, inl (o, e)) ↦
            by_rows {g = g} done facts.0 e
              (Led-leave g group user users ms h (ground (arith, apart)))
        | inr (m, f, a, inr (inl (o, z, e))) ↦
            by_rows {g = g} done facts.0 e
              (Led-leave g group user users ms h (ground (arith, apart)))
        | inr (m, f, a, inr (inr (o, z, e))) ↦ by_rows {g = g} done facts.0 e (
            Led-handed g group user heir
              (ground (arith, z, first_other-count user (get_group_members w.db group))) users ms h
              (ground (arith, apart)) (ground (arith, apart)))
      ]

-- In every group.
pub process_leave_group-IsLed :
    (json : Note → Text) (c : Call) (w : World) (group g : ℕ)
    → IsLed g w
    → IsLed g (process_leave_group json w c group)
process_leave_group-IsLed json c w group g h = elim (Bool-cases (g == group)) [
  | inl e ↦
      let same : g ≡ group = ground (arith, e) in
      subst (λ k. IsLed k w → IsLed k (process_leave_group json w c group)) (sym same)
        (leave-own json c w group) h
  | inr e ↦ leave-other json c w group g e h
]
