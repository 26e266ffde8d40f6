-- ===== src/Handler/Tests.antt =====
-- Login, logout, renewal, termination and key registration on concrete requests.
use xlchat_project.Common.{
  ◌≤◌, ◌≡◌, refl, true, false, none, [], ◌∷◌, arith, text_eq, has_row, find_row, count_rows,
  delete_rows, select,
}
use xlchat_project.Database.{LoginAttempt}
use xlchat_project.Database.Accounts.{
  get_user_by_username, get_session_by_id, get_sessions_by_user_id, newest_first, delete_session,
  recent_failed_login_count, recent_failed_login_count_for_user,
}
use xlchat_project.Handler.{new_conn}
use xlchat_project.Handler.Session.{validate_session, check_rate_limit}
use xlchat_project.Handler.Login.{admit, finish_login, process_login}
use xlchat_project.Handler.Login.Lockout.{failures}
use xlchat_project.Handler.Login.Concurrent.{Flight, Logins, Step, Run, failures-Run}
use xlchat_project.Handler.Login.Access.{process_login_opens}
use xlchat_project.Handler.Sessions.{
  process_token_renew, TerminateRequest, process_terminate_session,
}
use xlchat_project.Handler.Sessions.Laws.{
  process_token_renew_replaces, process_terminate_session_current,
}
use xlchat_project.Handler.Keys.{KeysRequest}
use xlchat_project.Handler.Examples.{
  hash, passwords, phone, alice, session, db, guest, member_conn, alices, now, right, wrong,
}

process_login_opens_example :
    ((process_login passwords guest now right).conn.user ≡ 1)
    × ((process_login passwords guest now right).conn.session ≡ 2)
    × (validate_session hash
          (process_login passwords guest now right).db
          (process_login passwords guest now right).conn
          false
          (110 ∷ [])
          600000
        ≡ true)
unfolding get_user_by_username find_row text_eq check_rate_limit recent_failed_login_count
    recent_failed_login_count_for_user count_rows has_row
process_login_opens_example =
    process_login_opens passwords guest now right alice 600000 (omega arith, omega arith) refl refl
      refl refl refl refl (omega arith) refl (omega arith)

abbrev failure : LoginAttempt
failure = record { user = 1; ip = 50 ∷ []; success = false; at = 900 }

-- A user with four recent failures, and two connections that are let through to a wrong password.
abbrev idle : Logins
idle = record {
  db = record db { login_audit = failure ∷ failure ∷ failure ∷ failure ∷ [] };
  now = 1000;
  flying = [];
}

abbrev attempt : Flight
attempt = record { request = wrong; admission = admit idle.db now wrong }

abbrev one_failed : Logins
one_failed = record idle {
  db =
      (finish_login passwords (record { db = idle.db; conn = new_conn; sent = [] }) now wrong
        attempt.admission).db;
  flying = attempt ∷ [];
}

abbrev both_failed : Logins
both_failed = record one_failed {
  db =
      (finish_login passwords (record { db = one_failed.db; conn = new_conn; sent = [] }) now wrong
        attempt.admission).db;
  flying = [];
}

both-Run : Run passwords 2 idle both_failed
both-Run =
    Run.next
      (Run.next
        (Run.next (Run.next Run.here (Step.begin idle now wrong refl (omega arith)))
          (Step.begin (record idle { flying = attempt ∷ [] }) now wrong refl (omega arith)))
        (Step.finish (record idle { flying = attempt ∷ attempt ∷ [] }) [] (attempt ∷ []) attempt now
          new_conn [] refl refl))
      (Step.finish one_failed [] [] attempt now new_conn [] refl refl)

failures-Run_example : failures both_failed.db 1 1000 ≤ 6
unfolding recent_failed_login_count_for_user count_rows
failures-Run_example =
    failures-Run passwords 2 idle both_failed 1 (omega arith) refl (omega arith) both-Run

process_token_renew_replaces_example :
    (validate_session hash
        (process_token_renew passwords alices now (116 ∷ [])).db
        member_conn
        true
        (116 ∷ [])
        1001
      ≡ false)
    × (validate_session hash
          (process_token_renew passwords alices now (116 ∷ [])).db
          (process_token_renew passwords alices now (116 ∷ [])).conn
          false
          (110 ∷ [])
          1001
        ≡ true)
unfolding get_session_by_id find_row delete_session delete_rows has_row
process_token_renew_replaces_example =
    process_token_renew_replaces passwords alices now (116 ∷ []) session member_conn true (116 ∷ [])
      1001 (omega arith, omega arith) refl (omega arith) (omega arith) refl refl refl refl refl refl
      refl (omega arith)

abbrev own_device : TerminateRequest
own_device = record { user_id = none; session_id = 0; device_id = phone }

process_terminate_session_current_example :
    get_session_by_id (process_terminate_session alices now own_device).db 1 ≡ none
unfolding get_sessions_by_user_id newest_first select
process_terminate_session_current_example =
    process_terminate_session_current alices now own_device session [] refl (omega arith) refl refl
      refl refl refl refl refl

abbrev keys : KeysRequest
keys = record { identity_pub = 107 ∷ []; prekeys = (49 ∷ []) ∷ (50 ∷ []) ∷ [] }
