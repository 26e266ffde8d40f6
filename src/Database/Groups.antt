-- ===== src/Database/Groups.antt =====
-- DatabaseManager.cpp: groups and their members. Ids are natural numbers: an id that is not above 0
-- is 0. The transaction of `create_group` gives back the old database on failure.
pub mod Membership
pub mod Additions
use xlchat_project.Common.{
  ℕ, zero, suc, ◌+◌, Bool, true, false, not, ◌&&◌, ◌||◌, Option, none, some, List, [], ◌∷◌, ◌++◌,
  ◌==◌, leb, ltb, length, if◌then◌else◌, Text, is_empty, has_row, find_row, select, map, count_rows,
  update_rows, delete_rows, member, set_insert,
}
use xlchat_project.Database.{Db, Conversation, group, Role, owner, plain_member, Member, new_member}

abbrev pub max_group_members : ℕ
max_group_members = 200

abbrev pub is_in : ℕ → Member → Bool
is_in conversation m = m.conversation == conversation

abbrev pub is_member_row : ℕ → ℕ → Member → Bool
is_member_row conversation user m = m.conversation == conversation && m.user == user

-- The foreign keys of conversation_members, and UNIQUE(conversation_id, user_id).
unfoldable pub insert_member : Db → ℕ → ℕ → Role → ℕ → Db × Bool
insert_member db conversation user role now =
    if not db.available
    then (db, false)
    else if not (has_row (λ c. c.id == conversation) db.conversations)
    then (db, false)
    else if not (has_row (λ u. u.id == user) db.users)
    then (db, false)
    else if has_row (is_member_row conversation user) db.members
    then (db, false)
    else (record db { members = db.members ++ (new_member conversation user role now) ∷ [] }, true)

unfoldable pub is_conversation_member : Db → ℕ → ℕ → Bool
is_conversation_member db conversation user =
    db.available && has_row (is_member_row conversation user) db.members

-- The loop over the initial members, with the set `added`.
unfoldable pub insert_initial : List ℕ → Db → ℕ → List ℕ → ℕ → Db × Bool
insert_initial [] db conversation added now = (db, true)
insert_initial (id ∷ ids) db conversation added now =
    let skipped = insert_initial ids db conversation added now in
    let inserted = insert_member db conversation id plain_member now in
    let rest = insert_initial ids inserted.0 conversation (set_insert id added) now in
    if leb max_group_members (length added)
    then (db, true)
    else if id == 0 || member id added
    then skipped
    else if not inserted.1
    then inserted
    else rest

-- `trim` is QString::trimmed.
module _ (trim : Text → Text) where
  -- INSERT INTO conversations (type, name) VALUES ('group', ?)
  unfoldable pub insert_group : Db → Text → Db
  insert_group db name = record db {
    conversations =
        db.conversations
        ++ record { id = db.next_conversation; type = group; name = trim name } ∷ [];
    next_conversation = suc db.next_conversation;
  }

  unfoldable pub create_group : Db → ℕ → Text → List ℕ → ℕ → Db × Option ℕ
  unfolding insert_group
  create_group db creator name ids now =
      let id = db.next_conversation in
      let owned = insert_member (insert_group db name) id creator owner now in
      let filled = insert_initial ids owned.0 id (creator ∷ []) now in
      if creator == 0 || is_empty (trim name)
      then (db, none)
      else if not db.available
      then (db, none)
      else if not owned.1
      then (db, none)
      else if not filled.1
      then (db, none)
      else (filled.0, some id)

-- The loop of `add_group_members`, with the set `seen`. There is no transaction: what was added
-- before a failure stays.
unfoldable pub add_members : List ℕ → Db → ℕ → List ℕ → ℕ → Db × Bool
unfolding is_conversation_member
add_members [] db conversation seen now = (db, true)
add_members (id ∷ ids) db conversation seen now =
    let skipped = add_members ids db conversation seen now in
    let known = add_members ids db conversation (set_insert id seen) now in
    let inserted = insert_member db conversation id plain_member now in
    let rest = add_members ids inserted.0 conversation (set_insert id seen) now in
    if id == 0 || member id seen
    then skipped
    else if is_conversation_member db conversation id
    then known
    else if not db.available
    then (db, false)
    else if leb max_group_members (count_rows (is_in conversation) db.members)
    then (db, true)
    else if not inserted.1
    then inserted
    else rest

unfoldable pub add_group_members : Db → ℕ → List ℕ → ℕ → Db × Bool
unfolding add_members
add_group_members db conversation ids now = add_members ids db conversation [] now

unfoldable pub remove_group_member : Db → ℕ → ℕ → Db × Bool
remove_group_member db conversation user =
    if db.available
    then (
      record db { members = delete_rows (is_member_row conversation user) db.members },
      has_row (is_member_row conversation user) db.members,
    )
    else (db, false)

-- A role is one of the three that the method's whitelist admits.
unfoldable pub update_member_role : Db → ℕ → ℕ → Role → Db × Bool
update_member_role db conversation user role =
    if db.available
    then (
      record db {
        members =
            update_rows (is_member_row conversation user) (λ m. record m { role = role })
              db.members;
      },
      has_row (is_member_row conversation user) db.members,
    )
    else (db, false)

unfoldable pub group_role : Db → ℕ → ℕ → Option Role
group_role db conversation user =
    if db.available
    then elim (find_row (is_member_row conversation user) db.members) [
      | none ↦ none
      | some m ↦ some m.role
    ]
    else none

-- ORDER BY joined_at, user_id
unfoldable pub comes_before : Member → Member → Bool
comes_before m n = ltb m.joined_at n.joined_at || (m.joined_at == n.joined_at && leb m.user n.user)

unfoldable pub put_in_order : Member → List Member → List Member
unfolding comes_before
put_in_order m [] = m ∷ []
put_in_order m (n ∷ ns) =
    let rest = put_in_order m ns in if comes_before m n then m ∷ n ∷ ns else n ∷ rest

unfoldable pub in_order : List Member → List Member
unfolding put_in_order
in_order [] = []
in_order (m ∷ ms) = put_in_order m (in_order ms)

-- `getConversationMemberIds` is the same query.
unfoldable pub get_group_member_ids : Db → ℕ → List ℕ
unfolding in_order
get_group_member_ids db conversation =
    if db.available
    then map (λ m. m.user) (in_order (select (is_in conversation) db.members))
    else []

-- JOIN users
unfoldable pub get_group_members : Db → ℕ → List Member
unfolding in_order
get_group_members db conversation =
    if db.available
    then in_order
        (select (λ m. is_in conversation m && has_row (λ u. u.id == m.user) db.users) db.members)
    else []
