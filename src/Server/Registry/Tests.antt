-- ===== src/Server/Registry/Tests.antt =====
-- The registry with two users: user 1 on connections 100 and 101, user 2 on connection 200.
use xlchat_project.Common.{
  ◌≡◌, refl, true, some, none, if◌then◌else◌, All, arith, member, set_insert,
}
use xlchat_project.Common.Dict.{nat_eq, lookup, insert, remove}
use xlchat_project.Server.Registry.{
  Registry, start, on_user_logged_in, on_handler_finished, on_message_for_user,
}
use xlchat_project.Server.Registry.Routing.{
  IsConsistent, start-IsConsistent, IsFreshLogin, on_user_logged_in-IsConsistent,
}
use xlchat_project.Server.Registry.Finished.{points_to, on_handler_finished_unlinks}
use xlchat_project.Server.Registry.Runs.{Reached, message_for_own_user}
use xlchat_project.Server.Registry.Relogin.{relogin, relogin_dangles}

abbrev one : Registry
one = on_user_logged_in start 100 1 10

abbrev two : Registry
two = on_user_logged_in one 200 2 20

one-IsConsistent : IsConsistent one
unfolding start lookup member
one-IsConsistent =
    on_user_logged_in-IsConsistent start 100 1 10 start-IsConsistent
      (record { unowned = refl; unlisted = λ u. refl; own = λ u e. cc })

second-IsFresh : IsFreshLogin one 200 2 20
unfolding start on_user_logged_in lookup member insert set_insert remove
second-IsFresh = record {
  unowned = refl;
  unlisted = λ u. ground arith;
  own = λ u e. ground (arith, e);
}

two-IsConsistent : IsConsistent two
two-IsConsistent = on_user_logged_in-IsConsistent one 200 2 20 one-IsConsistent second-IsFresh

on_handler_finished_unlinks_example :
    lookup 10 (on_handler_finished two 100).handlers
    ≡ (if points_to (lookup 10 two.handlers) 100 then none else lookup 10 two.handlers)
on_handler_finished_unlinks_example = on_handler_finished_unlinks two 100 10 two-IsConsistent

two-Reached : Reached two
unfolding start lookup member
two-Reached = Reached.logged_in 200 2 20 second-IsFresh (
    Reached.logged_in 100 1 10 (record { unowned = refl; unlisted = λ u. refl; own = λ u e. cc })
      Reached.at_start)

message_for_own_user_example : All (λ h. lookup h two.users ≡ some 1) (on_message_for_user two 1)
message_for_own_user_example = message_for_own_user two 1 two-Reached

relogin_dangles_example : member 100 (on_message_for_user (relogin one 100 1 11 2 20) 1) ≡ true
unfolding start on_user_logged_in lookup insert set_insert remove
relogin_dangles_example =
    relogin_dangles one 100 1 11 2 20 (omega arith) (omega arith) (omega arith) refl
