-- ===== src/Handler/Groups/Serve.antt =====
-- The requests that change who is in an existing group.
use xlchat_project.Common.{ℕ, List, Text}
use xlchat_project.Handler.{World}
use xlchat_project.Handler.Login.{Call}
use xlchat_project.Handler.Notes.{Note}
use xlchat_project.Handler.Groups.{
  process_invite_group_members, process_leave_group, process_kick_group_member,
}

-- Each with the group that it names.
pub data GroupChange : Type 0 where
  inviting : ℕ → List ℕ → GroupChange
  leaving : ℕ → GroupChange
  kicking : ℕ → ℕ → GroupChange

unfoldable pub change_group : (Note → Text) → World → Call → GroupChange → World
change_group json w c (inviting group users) = process_invite_group_members json w c group users
change_group json w c (leaving group) = process_leave_group json w c group
change_group json w c (kicking group target) = process_kick_group_member json w c group target
