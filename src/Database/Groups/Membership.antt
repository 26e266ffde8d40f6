-- ===== src/Database/Groups/Membership.antt =====
-- Each group has one owner when it is made, at most 200 members, and each user at most once.
use xlchat_project.Common.{
  ℕ, ◌+◌, ◌≤◌, ◌≡◌, refl, Bool, true, false, ◌&&◌, some, List, [], ◌∷◌, ◌==◌, length, if◌then◌else◌,
  Text, has_row, count_rows, count_rows-append, set_insert, arith,
}
use xlchat_project.Database.{Db, Role, owner, admin, plain_member, Member, new_member}
use xlchat_project.Database.Groups.{
  is_in, is_member_row, insert_member, insert_initial, insert_group, create_group,
}

unfoldable pub is_owner : Role → Bool
is_owner owner = true
is_owner admin = false
is_owner plain_member = false

abbrev pub group_size : ℕ → Db → ℕ
group_size conversation db = count_rows (is_in conversation) db.members

abbrev pub owner_count : ℕ → Db → ℕ
owner_count conversation db = count_rows (λ m. is_in conversation m && is_owner m.role) db.members

abbrev pub row_count : ℕ → ℕ → Db → ℕ
row_count conversation user db = count_rows (is_member_row conversation user) db.members

no_row_of :
    (conversation user c u : ℕ) (ms : List Member)
    → has_row (is_member_row conversation user) ms ≡ false
    → conversation ≡ c
    → user ≡ u
    → count_rows (is_member_row c u) ms ≡ 0
unfolding has_row count_rows
no_row_of conversation user c u [] h e f = refl
no_row_of conversation user c u (m ∷ ms) h e f = ground (arith, no_row_of conversation user c u ms)

module _ (db : Db) (conversation user : ℕ) (role : Role) (now : ℕ) where
  pub insert_member-size :
      (c : ℕ)
      → let done = insert_member db conversation user role now in
        group_size c done.0 ≡ group_size c db + (if done.1 && conversation == c then 1 else 0)
  unfolding insert_member count_rows
  insert_member-size c =
      ground
        (arith, count_rows-append (is_in c) db.members (new_member conversation user role now ∷ []))

  pub insert_member-owners :
      (c : ℕ)
      → let done = insert_member db conversation user role now in
        owner_count c done.0
        ≡ owner_count c db + (if done.1 && (conversation == c && is_owner role) then 1 else 0)
  unfolding insert_member count_rows
  insert_member-owners c = ground (
    arith,
    count_rows-append (λ m. is_in c m && is_owner m.role) db.members
        (new_member conversation user role now ∷ []),
  )

  pub insert_member-rows :
      (c u : ℕ)
      → row_count c u db ≤ 1
      → row_count c u (insert_member db conversation user role now).0 ≤ 1
  unfolding insert_member count_rows
  insert_member-rows c u h = ground (
    arith,
    no_row_of conversation user c u db.members,
    count_rows-append (is_member_row c u) db.members (new_member conversation user role now ∷ []),
  )

insert_initial_size :
    (ids : List ℕ) (db : Db) (conversation : ℕ) (added : List ℕ) (now : ℕ)
    → group_size conversation db ≤ length added
    → length added ≤ 200
    → group_size conversation (insert_initial ids db conversation added now).0 ≤ 200
unfolding insert_initial set_insert
insert_initial_size [] db conversation added now h b = omega (arith, h, b)
insert_initial_size (id ∷ ids) db conversation added now h b = ground (
  arith,
  insert_initial_size ids db conversation added now h b,
  insert_member-size db conversation id plain_member now conversation,
  insert_initial_size ids (insert_member db conversation id plain_member now).0 conversation
      (set_insert id added) now,
)

insert_initial_owners :
    (ids : List ℕ) (db : Db) (conversation : ℕ) (added : List ℕ) (now c : ℕ)
    → owner_count c (insert_initial ids db conversation added now).0 ≡ owner_count c db
unfolding insert_initial is_owner
insert_initial_owners [] db conversation added now c = refl
insert_initial_owners (id ∷ ids) db conversation added now c = ground (
  arith,
  insert_initial_owners ids db conversation added now c,
  insert_member-owners db conversation id plain_member now c,
  insert_initial_owners ids (insert_member db conversation id plain_member now).0 conversation
      (set_insert id added) now c,
)

insert_initial_rows :
    (ids : List ℕ) (db : Db) (conversation : ℕ) (added : List ℕ) (now c u : ℕ)
    → row_count c u db ≤ 1
    → row_count c u (insert_initial ids db conversation added now).0 ≤ 1
unfolding insert_initial
insert_initial_rows [] db conversation added now c u h = h
insert_initial_rows (id ∷ ids) db conversation added now c u h = ground (
  arith,
  insert_initial_rows ids db conversation added now c u h,
  insert_member-rows db conversation id plain_member now c u h,
  insert_initial_rows ids (insert_member db conversation id plain_member now).0 conversation
      (set_insert id added) now c u,
)

no_rows_of :
    (c u : ℕ) (ms : List Member)
    → count_rows (is_in c) ms ≡ 0
    → (count_rows (λ m. is_in c m && is_owner m.role) ms ≡ 0)
      × (count_rows (is_member_row c u) ms ≡ 0)
unfolding count_rows
no_rows_of c u [] h = (refl, refl)
no_rows_of c u (m ∷ ms) h = ground (arith, no_rows_of c u ms)

-- A new group has exactly one owner and at most 200 members, whatever ids are asked for, and no user
-- is twice in it, provided that no row of the table names a conversation that does not exist yet.
pub create_group_members :
    (trim : Text → Text) (db : Db) (creator : ℕ) (name : Text) (ids : List ℕ) (now id user : ℕ)
    → group_size db.next_conversation db ≡ 0
    → (create_group trim db creator name ids now).1 ≡ some id
    → let made = (create_group trim db creator name ids now).0 in
      (owner_count id made ≡ 1) × (group_size id made ≤ 200) × (row_count id user made ≤ 1)
unfolding create_group is_owner
create_group_members trim db creator name ids now id user g e =
    let new = db.next_conversation in
    let start = insert_group trim db name in
    let owned = (insert_member start new creator owner now).0 in
    ground (
      arith,
      no_rows_of new user db.members g,
      insert_member-size start new creator owner now new,
      insert_member-owners start new creator owner now new,
      insert_member-rows start new creator owner now new user,
      insert_initial_size ids owned new (creator ∷ []) now,
      insert_initial_owners ids owned new (creator ∷ []) now new,
      insert_initial_rows ids owned new (creator ∷ []) now new user,
    )
