-- ===== src/Database/Groups/Additions.antt =====
-- Adding members to a group: the bounds, and who is a member afterwards.
use xlchat_project.Common.{
  ℕ, ◌+◌, ◌≤◌, ◌<◌, ◌≡◌, refl, ap, Bool, true, not, ◌&&◌, ◌||◌, List, [], ◌∷◌, ◌++◌, ◌==◌, length,
  has_row, member, set_insert, member-set_insert, arith,
}
use xlchat_project.Database.{Db, plain_member, Member, new_member}
use xlchat_project.Database.Groups.{
  is_member_row, insert_member, is_conversation_member, add_members, add_group_members,
}
use xlchat_project.Database.Groups.Membership.{
  is_owner, group_size, owner_count, row_count, insert_member-size, insert_member-owners,
  insert_member-rows,
}

module _ (conversation now c user : ℕ) where
  add_members_bounds :
      (ids : List ℕ) (db : Db) (seen : List ℕ)
      → group_size c db ≤ 200
      → row_count c user db ≤ 1
      → let done = (add_members ids db conversation seen now).0 in
        (group_size c done ≤ 200)
        × (row_count c user done ≤ 1)
        × (owner_count c done ≡ owner_count c db)
  unfolding add_members is_owner
  add_members_bounds [] db seen a b = (a, b, refl)
  add_members_bounds (id ∷ ids) db seen a b = ground (
    arith,
    add_members_bounds ids db seen a b,
    add_members_bounds ids db (set_insert id seen) a b,
    insert_member-size db conversation id plain_member now conversation,
    insert_member-size db conversation id plain_member now c,
    insert_member-owners db conversation id plain_member now c,
    insert_member-rows db conversation id plain_member now c user,
    add_members_bounds ids (insert_member db conversation id plain_member now).0
        (set_insert id seen),
  )

-- Adding members keeps the bounds of every group: at most 200 members, no user twice, and as many
-- owners as before. This holds for a failed addition too.
pub add_group_members_bounds :
    (db : Db) (conversation : ℕ) (ids : List ℕ) (now c user : ℕ)
    → group_size c db ≤ 200
    → row_count c user db ≤ 1
    → let done = (add_group_members db conversation ids now).0 in
      (group_size c done ≤ 200)
      × (row_count c user done ≤ 1)
      × (owner_count c done ≡ owner_count c db)
unfolding add_group_members
add_group_members_bounds db conversation ids now c user g r =
    add_members_bounds conversation now c user ids db [] g r

-- What is a member row stays one.
keeps_row :
    (p : Member → Bool) (ms : List Member) (m : Member)
    → has_row p ms ≡ true
    → has_row p (ms ++ m ∷ []) ≡ true
unfolding has_row
keeps_row p [] m h = ground arith
keeps_row p (x ∷ ms) m h = ground (arith, keeps_row p ms m)

new_row :
    (p : Member → Bool) (ms : List Member) (m : Member)
    → p m ≡ true
    → has_row p (ms ++ m ∷ []) ≡ true
unfolding has_row
new_row p [] m h = ground arith
new_row p (x ∷ ms) m h = ground (arith, new_row p ms m h)

module _ (conversation now : ℕ) where
  insert_member_in :
      (db : Db) (user u : ℕ)
      → (has_row (is_member_row conversation u) db.members
          || (insert_member db conversation user plain_member now).1 && user == u)
        ≡ true
      → has_row
          (is_member_row conversation u)
          (insert_member db conversation user plain_member now).0.members
        ≡ true
  unfolding insert_member
  insert_member_in db user u h = ground (
    arith,
    keeps_row (is_member_row conversation u) db.members
        (new_member conversation user plain_member now),
    new_row (is_member_row conversation u) db.members
        (new_member conversation user plain_member now),
  )

  add_members_keep :
      (ids : List ℕ) (u : ℕ) (db : Db) (seen : List ℕ)
      → has_row (is_member_row conversation u) db.members ≡ true
      → has_row (is_member_row conversation u) (add_members ids db conversation seen now).0.members
        ≡ true
  unfolding add_members
  add_members_keep [] u db seen h = h
  add_members_keep (id ∷ ids) u db seen h = ground (
    arith,
    add_members_keep ids u db seen h,
    add_members_keep ids u db (set_insert id seen) h,
    insert_member_in db id u,
    add_members_keep ids u (insert_member db conversation id plain_member now).0
        (set_insert id seen),
  )

  same_row :
      (u v : ℕ) (ms : List Member)
      → u ≡ v
      → has_row (is_member_row conversation u) ms ≡ has_row (is_member_row conversation v) ms
  same_row u v ms e = ap (λ w. has_row (is_member_row conversation w) ms) e

  -- The users in `seen` are members already.
  add_members_all :
      (ids : List ℕ) (u : ℕ) (db : Db) (seen : List ℕ)
      → (not (member u seen) || has_row (is_member_row conversation u) db.members) ≡ true
      → group_size conversation db + length ids ≤ 200
      → (add_members ids db conversation seen now).1 ≡ true
      → member u ids ≡ true
      → 0 < u
      → has_row (is_member_row conversation u) (add_members ids db conversation seen now).0.members
        ≡ true
  unfolding add_members member is_conversation_member
  add_members_all [] u db seen s b e m n = ground arith
  add_members_all (id ∷ ids) u db seen s b e m n = ground (
    arith,
    member-set_insert id u seen,
    same_row u id db.members,
    insert_member-size db conversation id plain_member now conversation,
    insert_member_in db id u,
    add_members_keep ids u db seen,
    add_members_keep ids u db (set_insert id seen),
    add_members_keep ids u (insert_member db conversation id plain_member now).0
        (set_insert id seen),
    add_members_all ids u db seen,
    add_members_all ids u db (set_insert id seen),
    add_members_all ids u (insert_member db conversation id plain_member now).0
        (set_insert id seen),
  )

-- If the addition succeeds and there was room for all, every user that was named is a member of the
-- group afterwards, and so is everyone that was one before. (An id of 0 is no user.)
pub add_group_members_complete :
    (db : Db) (conversation : ℕ) (ids : List ℕ) (now user : ℕ)
    → group_size conversation db + length ids ≤ 200
    → (add_group_members db conversation ids now).1 ≡ true
    → 0 < user
    → (member user ids || has_row (is_member_row conversation user) db.members) ≡ true
    → has_row
        (is_member_row conversation user)
        (add_group_members db conversation ids now).0.members
      ≡ true
unfolding add_group_members member
add_group_members_complete db conversation ids now user room e n h = ground (
  arith,
  add_members_all conversation now ids user db [],
  add_members_keep conversation now ids user db [],
)
