-- ===== src/Handler/Rooms.antt =====
-- A server with three users, a group, a private conversation and a message in it, for the tests of the
-- handlers.
use xlchat_project.Common.{
  ℕ, pos, Bool, none, some, List, [], ◌∷◌, Text, codes, text_eq, if◌then◌else◌,
}
use xlchat_project.Envelope.{EnvelopeJson}
use xlchat_project.Database.{
  Db, empty_db, User, direct, group, owner, plain_member, new_member, MessageStatus, Message,
  claimed,
}
use xlchat_project.Handler.{new_conn, World}
use xlchat_project.Handler.Login.{Call}
use xlchat_project.Handler.Messages.{Format, SendRequest}

abbrev user : ℕ → User
user id = record { id = id; username = id ∷ []; password_hash = [] }

abbrev pub hello : Message
hello = record {
  id = 1;
  conversation = 8;
  sender = 2;
  content = codes "hello";
  content_type = codes "text";
  status = MessageStatus.sent;
  at = 50;
  client_id = codes "k";
  device = codes "b";
  edited_at = none;
  deleted = Bool.false;
}

-- User 1 owns group 7, where user 2 is a member; conversation 8 is between users 1 and 2. Of user 2's
-- device "b" the prekey 5 is claimed.
abbrev pub db : Db
db = record empty_db {
  users = user 1 ∷ user 2 ∷ user 3 ∷ [];
  next_user = 4;
  conversations =
      record { id = 7; type = group; name = codes "g" }
      ∷ record { id = 8; type = direct; name = [] }
      ∷ [];
  next_conversation = 9;
  members =
      new_member 7 1 owner 10
      ∷ new_member 7 2 plain_member 11
      ∷ new_member 8 1 plain_member 12
      ∷ new_member 8 2 plain_member 12
      ∷ [];
  messages = hello ∷ [];
  next_message = 2;
  prekeys =
      record { id = 5; user = 2; device = codes "b"; pub_key = codes "x"; status = claimed 90 }
      ∷ [];
  next_prekey = 6;
}

-- The connection of a user's device "a".
abbrev pub at : ℕ → World
at id = record { db = db; conn = record new_conn { user = id; device = codes "a" }; sent = [] }

abbrev pub call : Call
call = record { request_id = 9; ip = []; now = 100; token = [] }

abbrev numbers : List ℕ
numbers = 0 ∷ 1 ∷ 2 ∷ 3 ∷ 4 ∷ 5 ∷ 6 ∷ 7 ∷ 8 ∷ 9 ∷ 10 ∷ 11 ∷ []

-- Three texts and their bytes: "e" has 32, "i" 12 and anything else 16.
abbrev bytes : Text → List ℕ
bytes t =
    if text_eq t (codes "i")
    then numbers
    else if text_eq t (codes "e")
    then 1 ∷ 2 ∷ 3 ∷ 4 ∷ 5 ∷ 6 ∷ 7 ∷ 8 ∷ 9 ∷ 10 ∷ 11 ∷ 12 ∷ 13 ∷ 14 ∷ 15 ∷ 16 ∷ 17 ∷ 18 ∷ 19 ∷ 20
      ∷ numbers
    else 1 ∷ 2 ∷ 3 ∷ 4 ∷ numbers

-- Every content reads as an envelope with an entry for device "b".
abbrev envelope : EnvelopeJson
envelope = record {
  v = pos 1;
  devices = some (
      some (record {
        user = pos 0;
        device = codes "b";
        prekey_id = pos 5;
        eph = codes "e";
        iv = codes "i";
        ct = codes "c";
      })
      ∷ []);
}

abbrev pub format : Format
format = record {
  json = λ n. codes "{}";
  trim = λ t. t;
  decode64 = bytes;
  read_envelope = λ t. some envelope;
  read_group_message = λ t. none;
  read_distribution = λ t. none;
}

abbrev pub greeting : SendRequest
greeting = record {
  client_id = codes "n";
  conversation = 0;
  to_user = 2;
  content = codes "{}";
  content_type = codes "text";
}
