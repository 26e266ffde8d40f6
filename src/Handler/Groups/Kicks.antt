-- ===== src/Handler/Groups/Kicks.antt =====
-- Who may remove whom from a group, and what it does to the groups' owners.
use xlchat_project.Common.{
  ℕ, ◌≡◌, ◌⊎◌, inl, inr, refl, true, false, ◌==◌, Bool-cases, Option-cases, find_row, delete_rows,
  some, Text, sym, subst, codes, arith,
}
use xlchat_project.Database.{Role, owner, admin, plain_member, Member}
use xlchat_project.Database.Groups.{is_member_row, remove_group_member, group_role}
use xlchat_project.Database.Groups.Membership.{is_owner}
use xlchat_project.Handler.{World}
use xlchat_project.Handler.Login.{Call}
use xlchat_project.Handler.Notes.{Note, member_removed}
use xlchat_project.Handler.Groups.{may_kick, kick, process_kick_group_member}
use xlchat_project.Handler.Groups.Owners.{owning_found}
use xlchat_project.Handler.Groups.Owners.Leaving.{Led-leave}
use xlchat_project.Handler.Groups.Owners.Requests.{IsLed, by_rows, tell_group_same}

no_owner_kicked : (mine : Role) (r : Role) → may_kick (some mine) r ≡ true → is_owner r ≡ false
unfolding may_kick is_owner
no_owner_kicked owner owner h = cc
no_owner_kicked owner admin h = refl
no_owner_kicked owner plain_member h = refl
no_owner_kicked admin owner h = cc
no_owner_kicked admin admin h = cc
no_owner_kicked admin plain_member h = refl
no_owner_kicked plain_member r h = cc

module _ (json : Note → Text) (c : Call) where
  kick_rows :
      (w : World) (group target : ℕ)
      → let done = kick json w c group target in
        (done.db.members ≡ (remove_group_member w.db group target).0.members)
        × (done.db.users ≡ w.db.users)
  unfolding kick remove_group_member
  kick_rows w group target =
      let removed = remove_group_member w.db group target in
      ground (
        arith,
        tell_group_same json c group (member_removed w.conn.user target) (codes "member_removed")
            target (record w { db = removed.0 }),
      )

-- A request to remove a member changes no row of conversation_members, or removes the target's rows in
-- that group and no other. The latter it does only if the requester and the target both have a role in
-- the group, and the requester's is above the target's.
pub process_kick_group_member-rows :
    (json : Note → Text) (c : Call) (w : World) (group target : ℕ)
    → let done = process_kick_group_member json w c group target in
      (done.db.users ≡ w.db.users)
      × ((done.db.members ≡ w.db.members)
          ⊎ ((mine : Role) × (theirs : Role) × (group_role w.db group w.conn.user ≡ some mine)
              × (group_role w.db group target ≡ some theirs)
              × (may_kick (some mine) theirs ≡ true)
              × (done.db.members ≡ delete_rows (is_member_row group target) w.db.members)))
unfolding process_kick_group_member remove_group_member may_kick
process_kick_group_member-rows json c w group target =
    elim (Option-cases (group_role w.db group target)) [
      | inl e ↦ ground (arith, e)
      | inr (r, e) ↦ elim (Option-cases (group_role w.db group w.conn.user)) [
        | inl f ↦ ground (arith, e, f)
        | inr (m, f) ↦ ground (arith, e, f, kick_rows json c w group target)
      ]
    ]

role_row :
    (w : World) (group user : ℕ) (r : Role)
    → group_role w.db group user ≡ some r
    → (m : Member) × (find_row (is_member_row group user) w.db.members ≡ some m) × (m.role ≡ r)
unfolding group_role
role_row w group user r h = elim (Option-cases (find_row (is_member_row group user) w.db.members)) [
  | inl e ↦ ground (arith, e)
  | inr (m, e) ↦ (m, e, ground (arith, e))
]

-- Removing members never takes a group its owner: what `IsLed` says of a group holds after the request
-- if it held before.
pub process_kick_group_member-IsLed :
    (json : Note → Text) (c : Call) (w : World) (group target g : ℕ)
    → IsLed g w
    → IsLed g (process_kick_group_member json w c group target)
process_kick_group_member-IsLed json c w group target g h =
    let facts = process_kick_group_member-rows json c w group target in
    let done = process_kick_group_member json w c group target in
    elim facts.1 [
      | inl e ↦ by_rows {g = g} done facts.0 e h
      | inr (mine, theirs, _, t, k, e) ↦ by_rows {g = g} done facts.0 e (
          Led-leave g group target w.db.users w.db.members h (elim (Bool-cases (g == group)) [
            | inl s ↦
                let row = role_row w group target theirs t in
                let same : g ≡ group = ground (arith, s) in
                let found =
                  subst (λ n. find_row (is_member_row n target) w.db.members ≡ some row.0)
                    (sym same) row.1 in
                ground (
                  arith,
                  s,
                  owning_found g target w.db.members row.0 found (h.unique target),
                  row.2,
                  no_owner_kicked mine theirs k,
                )
            | inr s ↦ ground (arith, s)
          ]))
    ]
