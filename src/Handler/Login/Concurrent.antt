-- ===== src/Handler/Login/Concurrent.antt =====
-- Logins on several connections at once. Each connection has a thread of its own, so between the two
-- parts of a login anything may happen on others; the database and the clock are what they share.
use xlchat_project.Common.{
  ℕ, suc, ◌+◌, ◌≤◌, ◌<◌, ◌≡◌, ◌≢◌, refl, List, [], ◌∷◌, ◌++◌, length, arith,
}
use xlchat_project.Database.{Db}
use xlchat_project.Handler.{Conn, Effect}
use xlchat_project.Handler.Login.{LoginRequest, Passwords, Call, Admission, admit, finish_login}
use xlchat_project.Handler.Login.Lockout.{
  failures, is_admitted, finish_login-failures, admit-failures, fewer_failures, failures-same,
}

-- A login between its parts.
pub record Flight : Type 0 where
  pub request : LoginRequest
  pub admission : Admission

pub record Logins : Type 0 where
  pub db : Db
  pub now : ℕ
  pub flying : List Flight

-- `n` is how many connections there are at most.
pub data Step (p : Passwords) (n : ℕ) : Logins → Logins → Type 0 where
  pass : (s : Logins) (later : ℕ) → s.now ≤ later → Step p n s (record s { now = later })
  begin :
      (s : Logins) (c : Call) (r : LoginRequest)
      → c.now ≡ s.now
      → length s.flying < n
      → Step p n s
          (record s { flying = record { request = r; admission = admit s.db c r } ∷ s.flying })
  finish :
      (s : Logins) (before after : List Flight) (f : Flight) (c : Call) (conn : Conn)
      (sent : List Effect)
      → c.now ≡ s.now
      → s.flying ≡ before ++ f ∷ after
      → Step p n s (record s {
        db =
            (finish_login p
              (record { db = s.db; conn = conn; sent = sent })
              c
              f.request
              f.admission).db;
        flying = before ++ after;
      })
  -- Whatever other requests do, which do not touch the audit of logins.
  elsewhere :
      (s : Logins) (db : Db)
      → db.login_audit ≡ s.db.login_audit
      → db.available ≡ s.db.available
      → Step p n s (record s { db = db })

pub data Run (p : Passwords) (n : ℕ) (s : Logins) : Logins → Type 0 where
  here : Run p n s s
  next : {t u : Logins} → Run p n s t → Step p n t u → Run p n s u

-- How many of the logins in flight may still fail as the user.
unfoldable pending : ℕ → List Flight → ℕ
pending id [] = 0
pending id (f ∷ fs) = is_admitted id f.admission + pending id fs

pending-split :
    (id : ℕ) (before after : List Flight) (f : Flight)
    → (pending id (before ++ f ∷ after) ≡ is_admitted id f.admission + pending id (before ++ after))
      × (length (before ++ f ∷ after) ≡ suc (length (before ++ after)))
unfolding pending
pending-split id [] after f = (refl, refl)
pending-split id (g ∷ before) after f = ground (arith, pending-split id before after f)

is_admitted-le : (id : ℕ) (a : Admission) → is_admitted id a ≤ 1
is_admitted-le id a = ground arith

pending-le : (id : ℕ) (fs : List Flight) → pending id fs ≤ length fs
unfolding pending
pending-le id [] = omega arith
pending-le id (f ∷ fs) = omega (arith, pending-le id fs, is_admitted-le id f.admission)

record IsBounded (n id : ℕ) (s : Logins) : Type 0 where
  few : length s.flying ≤ n
  below : failures s.db id s.now + pending id s.flying ≤ 4 + n

Step-IsBounded :
    (p : Passwords) (n id : ℕ) (s t : Logins)
    → id ≢ 0
    → Step p n s t
    → IsBounded n id s
    → IsBounded n id t
unfolding pending
Step-IsBounded p n id _ _ ne (pass s later h) b = record {
  few = b.few;
  below = omega (arith, b.below, fewer_failures s.db id s.now later h);
}
Step-IsBounded p n id _ _ ne (begin s c r e h) b = record {
  few = omega arith;
  below = ground (arith, b.below, pending-le id s.flying, admit-failures s.db c r id ne, e);
}
Step-IsBounded p n id _ _ ne (finish s before after f c conn sent e q) b = record {
  few = ground (arith, b.few, q, pending-split id before after f);
  below = ground (
    arith,
    b.below,
    q,
    e,
    pending-split id before after f,
    finish_login-failures p (record { db = s.db; conn = conn; sent = sent }) c f.request f.admission
        id ne,
  );
}
Step-IsBounded p n id _ _ ne (elsewhere s db e q) b = record {
  few = b.few;
  below = ground (arith, b.below, failures-same s.db db id s.now e q);
}

Run-IsBounded :
    (p : Passwords) (n id : ℕ) (s t : Logins)
    → id ≢ 0
    → Run p n s t
    → IsBounded n id s
    → IsBounded n id t
Run-IsBounded p n id s _ ne here b = b
Run-IsBounded p n id s _ ne (next {t} {u} r st) b =
    Step-IsBounded p n id t u ne st (Run-IsBounded p n id s t ne r b)

-- With logins on at most n connections at once, interleaved in any way with each other and with
-- other requests, on whatever user names and with whatever passwords, no user ever has more than
-- 4 + n failures on record within the last five minutes (so five, if there is one connection), if
-- that holds at the start, the clock does not go back, and the database stays as able to answer.
pub failures-Run :
    (p : Passwords) (n : ℕ) (s t : Logins) (user : ℕ)
    → user ≢ 0
    → s.flying ≡ []
    → failures s.db user s.now ≤ 4 + n
    → Run p n s t
    → failures t.db user t.now ≤ 4 + n
unfolding pending
failures-Run p n s t user ne e h r =
    let b =
      Run-IsBounded p n user s t ne r
        (record { few = ground (arith, e); below = ground (arith, e) }) in
    omega (arith, b.below)
