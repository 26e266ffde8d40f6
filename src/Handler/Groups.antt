-- ===== src/Handler/Groups.antt =====
-- RequestHandler.cpp: the requests that make, change and read groups. `json` prints a note, `trim` is
-- QString::trimmed; an id that a request lacks, or that is not above 0, is 0.
pub mod Owners
pub mod Kicks
pub mod Serve
mod Tests
use xlchat_project.Common.{
  ℕ, ◌+◌, Bool, true, false, not, ◌&&◌, ◌||◌, Option, none, some, List, [], ◌∷◌, ◌==◌, ltb, length,
  if◌then◌else◌, Text, codes, is_empty, member, set_insert,
}
use xlchat_project.Database.{
  Db, Conversation, ConversationType, direct, Role, owner, admin, plain_member, Member,
}
use xlchat_project.Database.Accounts.{username_by_id}
use xlchat_project.Database.Groups.{
  max_group_members, is_conversation_member, add_group_members, remove_group_member,
  update_member_role, group_role, get_group_member_ids, get_group_members,
}
use xlchat_project.Database.Messages.{get_conversation}
use xlchat_project.Handler.{
  ErrorCode, ok, invalid_request, account_not_found, conversation_not_found, permission_denied,
  group_limit_exceeded, member_already_exists, member_not_found, not_group_owner, internal_error,
  create_group, invite_group_members, leave_group, kick_group_member, get_group_info, response_to,
  group_made, group_left, member_kicked, group_details, Reply, respond, World, emit, reply,
}
use xlchat_project.Handler.Login.{Call}
use xlchat_project.Handler.Notes.{
  Note, group_created, owner_transferred, member_left, member_removed, post_group_system_message,
  notify_group_changed,
}

abbrev pub max_group_name_length : ℕ
max_group_name_length = 64

abbrev pub max_invite_batch : ℕ
max_invite_batch = 100

unfoldable pub is_group : Option Conversation → Bool
is_group none = false
is_group (some c) = elim c.type [ direct ↦ false | ConversationType.group ↦ true ]

-- Ids that are not positive, one's own and repeated ones are skipped.
unfoldable pub clean_ids : List ℕ → ℕ → List ℕ → List ℕ
unfolding member set_insert
clean_ids [] self seen = []
clean_ids (id ∷ ids) self seen =
    let skipped = clean_ids ids self seen in
    let rest = clean_ids ids self (set_insert id seen) in
    if id == 0 || (id == self || member id seen) then skipped else id ∷ rest

unfoldable pub all_known : Db → List ℕ → Bool
all_known db [] = true
all_known db (id ∷ ids) = not (is_empty (username_by_id db id)) && all_known db ids

-- The outcome of the checks of an invitation.
pub data Vetted : Type 0 where
  refused : ErrorCode → Vetted
  accepted : List ℕ → Vetted

unfoldable pub with_id : ℕ → Vetted → Vetted
with_id id (refused code) = refused code
with_id id (accepted ids) = accepted (id ∷ ids)

-- `count` is the number of members with those that are accepted already.
unfoldable pub vet : List ℕ → Db → ℕ → ℕ → List ℕ → ℕ → Vetted
unfolding with_id set_insert member
vet [] db conversation self seen count = accepted []
vet (id ∷ ids) db conversation self seen count =
    let skipped = vet ids db conversation self seen count in
    let rest = vet ids db conversation self (set_insert id seen) (count + 1) in
    if id == 0 || (id == self || member id seen)
    then skipped
    else if is_empty (username_by_id db id)
    then refused account_not_found
    else if is_conversation_member db conversation id
    then refused member_already_exists
    else if ltb max_group_members (count + 1)
    then refused group_limit_exceeded
    else with_id id rest

-- The first member of the list that is not the user; 0 without one.
unfoldable pub first_other : ℕ → List Member → ℕ
first_other user [] = 0
first_other user (m ∷ ms) =
    let rest = first_other user ms in if m.user == user then rest else m.user

unfoldable pub is_owner_role : Option Role → Bool
is_owner_role none = false
is_owner_role (some owner) = true
is_owner_role (some admin) = false
is_owner_role (some plain_member) = false

-- owner over admin over member: whom a role may remove
unfoldable pub may_kick : Option Role → Role → Bool
may_kick none target = false
may_kick (some owner) owner = false
may_kick (some owner) admin = true
may_kick (some owner) plain_member = true
may_kick (some admin) owner = false
may_kick (some admin) admin = false
may_kick (some admin) plain_member = true
may_kick (some plain_member) target = false

pub record CreateRequest : Type 0 where
  pub name : Text
  pub members : List ℕ

module _ (json : Note → Text) where
  -- What every change of a group is followed by: the system message and the notice.
  unfoldable pub tell_group : ℕ → Note → Text → ℕ → Call → World → World
  unfolding post_group_system_message notify_group_changed
  tell_group conversation content change target c w =
      notify_group_changed json conversation change w.conn.user target c.now
        (post_group_system_message json conversation w.conn.user content c.now w)

  module _ (trim : Text → Text) where
    unfoldable pub group_created_with : World → Call → Text → Db × Option ℕ → World
    unfolding tell_group
    group_created_with w c name (db, none) =
        reply c.request_id create_group internal_error (record w { db = db })
    group_created_with w c name (db, some id) =
        let told =
          tell_group id (group_created w.conn.user name) (codes "group_created") 0 c
            (record w { db = db }) in
        emit
          (respond c.request_id (response_to create_group) ok
            (group_made id (length (get_group_member_ids told.db id))))
          told

    unfoldable pub process_create_group : World → Call → CreateRequest → World
    unfolding group_created_with clean_ids all_known
    process_create_group w c r =
        let name = trim r.name in
        let ids = clean_ids r.members w.conn.user [] in
        let made =
          group_created_with w c name
            (xlchat_project.Database.Groups.create_group trim w.db w.conn.user name ids c.now) in
        if is_empty name || ltb max_group_name_length (length name)
        then reply c.request_id create_group invalid_request w
        else if ltb max_invite_batch (length r.members)
        then reply c.request_id create_group group_limit_exceeded w
        else if ltb max_group_members (length ids + 1)
        then reply c.request_id create_group group_limit_exceeded w
        else if not (all_known w.db ids)
        then reply c.request_id create_group account_not_found w
        else made

  -- From the list of those to add on.
  unfoldable pub invite : World → Call → ℕ → Vetted → World
  unfolding tell_group
  invite w c conversation (refused code) = reply c.request_id invite_group_members code w
  invite w c conversation (accepted []) = reply c.request_id invite_group_members invalid_request w
  invite w c conversation (accepted (id ∷ ids)) =
      let added = add_group_members w.db conversation (id ∷ ids) c.now in
      let told =
        tell_group conversation (Note.members_added w.conn.user (id ∷ ids)) (codes "member_added")
          id c (record w { db = added.0 }) in
      if added.1
      then emit
          (respond c.request_id (response_to invite_group_members) ok (
            Reply.members_added conversation (id ∷ ids)
              (length (get_group_member_ids told.db conversation))))
          told
      else reply c.request_id invite_group_members internal_error (record w { db = added.0 })

  unfoldable pub process_invite_group_members : World → Call → ℕ → List ℕ → World
  unfolding invite vet is_group
  process_invite_group_members w c conversation users =
      let done = invite w c conversation (
        vet users w.db conversation w.conn.user []
          (length (get_group_member_ids w.db conversation))) in
      if conversation == 0
      then reply c.request_id invite_group_members invalid_request w
      else if not (is_group (get_conversation w.db conversation))
      then reply c.request_id invite_group_members conversation_not_found w
      else if not (is_conversation_member w.db conversation w.conn.user)
      then reply c.request_id invite_group_members permission_denied w
      else if length users == 0
      then reply c.request_id invite_group_members invalid_request w
      else if ltb max_invite_batch (length users)
      then reply c.request_id invite_group_members group_limit_exceeded w
      else done

  -- An owner with other members in the group makes the first of them its owner.
  unfoldable pub hand_over : World → Call → ℕ → World
  unfolding first_other tell_group
  hand_over w c conversation =
      let successor = first_other w.conn.user (get_group_members w.db conversation) in
      let given : World = record w {
        db = (update_member_role w.db conversation successor owner).0;
      } in
      let told =
        tell_group conversation (owner_transferred w.conn.user successor)
          (codes "owner_transferred") successor c given in
      if ltb 0 successor then told else w

  unfoldable pub leave : World → Call → ℕ → World
  unfolding tell_group
  leave w c conversation =
      let left = remove_group_member w.db conversation w.conn.user in
      let told =
        tell_group conversation (member_left w.conn.user) (codes "member_left") w.conn.user c
          (record w { db = left.0 }) in
      if left.1
      then emit (respond c.request_id (response_to leave_group) ok (group_left conversation)) told
      else reply c.request_id leave_group internal_error (record w { db = left.0 })

  unfoldable pub process_leave_group : World → Call → ℕ → World
  unfolding is_group is_owner_role hand_over leave
  process_leave_group w c conversation =
      let role = group_role w.db conversation w.conn.user in
      let passed = if is_owner_role role then hand_over w c conversation else w in
      let done = leave passed c conversation in
      if conversation == 0
      then reply c.request_id leave_group invalid_request w
      else if not (is_group (get_conversation w.db conversation))
      then reply c.request_id leave_group conversation_not_found w
      else elim role [ none ↦ reply c.request_id leave_group member_not_found w | some r ↦ done ]

  unfoldable pub kick : World → Call → ℕ → ℕ → World
  unfolding tell_group
  kick w c conversation target =
      let removed = remove_group_member w.db conversation target in
      let told =
        tell_group conversation (member_removed w.conn.user target) (codes "member_removed") target
          c (record w { db = removed.0 }) in
      if removed.1
      then emit
          (respond c.request_id (response_to kick_group_member) ok
            (member_kicked conversation target))
          told
      else reply c.request_id kick_group_member internal_error (record w { db = removed.0 })

  unfoldable pub process_kick_group_member : World → Call → ℕ → ℕ → World
  unfolding is_group may_kick kick
  process_kick_group_member w c conversation target =
      let done = kick w c conversation target in
      if conversation == 0 || target == 0
      then reply c.request_id kick_group_member invalid_request w
      else if not (is_group (get_conversation w.db conversation))
      then reply c.request_id kick_group_member conversation_not_found w
      else if target == w.conn.user
      then reply c.request_id kick_group_member invalid_request w
      else elim (group_role w.db conversation target) [
        | none ↦ reply c.request_id kick_group_member member_not_found w
        | some r ↦
            if may_kick (group_role w.db conversation w.conn.user) r
            then done
            else reply c.request_id kick_group_member not_group_owner w
      ]

unfoldable pub process_get_group_info : World → Call → ℕ → World
unfolding is_group
process_get_group_info w c conversation =
    if conversation == 0
    then reply c.request_id get_group_info invalid_request w
    else elim (get_conversation w.db conversation) [
      | none ↦ reply c.request_id get_group_info conversation_not_found w
      | some g ↦
          if not (is_group (some g))
          then reply c.request_id get_group_info conversation_not_found w
          else elim (group_role w.db conversation w.conn.user) [
            | none ↦ reply c.request_id get_group_info permission_denied w
            | some r ↦
                emit
                  (respond c.request_id (response_to get_group_info) ok
                    (group_details conversation g.name r (get_group_members w.db conversation)))
                  w
          ]
    ]
