-- ===== src/Handler/Examples.antt =====
-- A server with two users and one session, for the tests of the handlers.
use xlchat_project.Common.{ℕ, some, [], ◌∷◌, Text, codes, text_eq}
use xlchat_project.Database.{Db, empty_db, User, Session, Event}
use xlchat_project.Handler.{Conn, new_conn, World}
use xlchat_project.Handler.Login.{LoginRequest, Passwords, Call}

-- The hash of a text is the text behind a mark; a password verifies against its hash.
abbrev pub hash : Text → Text
hash t = 35 ∷ t

abbrev pub passwords : Passwords
passwords = record {
  hash_token = hash;
  verify_password = λ password stored. text_eq (hash password) stored;
  hash_password = hash;
}

abbrev pub secret : Text
secret = 115 ∷ []

abbrev pub phone : Text
phone = 112 ∷ []

abbrev pub alice : User
alice = record { id = 1; username = 97 ∷ []; password_hash = hash secret }

abbrev pub session : Session
session = record {
  id = 1;
  user = 1;
  device = phone;
  token_hash = hash (116 ∷ []);
  expires_at = some 5000;
}

abbrev pub event : ℕ → Event
event seq = record {
  seq = seq;
  user = 1;
  event_type = codes "message";
  payload = codes "{}";
  at = seq;
}

abbrev pub db : Db
db = record empty_db {
  users = alice ∷ record { id = 2; username = 98 ∷ []; password_hash = hash [] } ∷ [];
  next_user = 3;
  sessions = session ∷ [];
  next_session = 2;
  events = event 5 ∷ event 6 ∷ event 900000 ∷ [];
  next_seq = 900001;
}

abbrev pub guest : World
guest = record { db = db; conn = new_conn; sent = [] }

-- A connection that is logged in with the session.
abbrev pub member_conn : Conn
member_conn = record new_conn { user = 1; session = 1; device = phone }

abbrev pub alices : World
alices = record { db = db; conn = member_conn; sent = [] }

abbrev pub now : Call
now = record { request_id = 9; ip = 49 ∷ []; now = 1000; token = 110 ∷ [] }

abbrev pub right : LoginRequest
right = record { username = 97 ∷ []; password = secret; device_id = phone; platform = [] }

abbrev pub wrong : LoginRequest
wrong = record { username = 97 ∷ []; password = phone; device_id = phone; platform = [] }
