-- ===== src/Handler/Outsiders/Tests.antt =====
-- User 3 is in no conversation.
use xlchat_project.Common.{refl, has_row}
use xlchat_project.Database.Groups.{is_conversation_member}
use xlchat_project.Handler.Outsiders.{leave_from, conversation_of, serve, Refused, serve_outsider}
use xlchat_project.Handler.Rooms.{at, call, format}

serve_outsider_example : Refused (at 3) (serve format (at 3) call (leave_from 7))
unfolding is_conversation_member has_row conversation_of
serve_outsider_example = serve_outsider format (at 3) call (leave_from 7) refl refl
