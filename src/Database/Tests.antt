-- ===== src/Database/Tests.antt =====
-- The database's tables on concrete rows.
use xlchat_project.Common.{
  ℕ, ◌≡◌, refl, false, [], ◌∷◌, arith, Text, codes, text_eq, find_row, count_rows, update_rows,
}
use xlchat_project.Database.{
  Db, empty_db, User, Event, Prekey, unused, claimed, group, owner, new_member,
}
use xlchat_project.Database.Prekeys.{
  claim_prekeys, claim_devices, claim_device, claim_row, reclaim, stocked_devices, is_unused,
  is_overdue, is_listed,
}
use xlchat_project.Database.Prekeys.Claims.{claim, consume, run, has_claim}
use xlchat_project.Database.Prekeys.Once.{claim_prekeys_once}

abbrev alice : User
alice = record { id = 1; username = codes "alice"; password_hash = [] }

abbrev bob : User
bob = record { id = 2; username = codes "bob"; password_hash = [] }

abbrev phone : Text
phone = 112 ∷ []

abbrev key : ℕ → Prekey
key id = record { id = id; user = 1; device = phone; pub_key = id ∷ []; status = unused }

abbrev held_key : Prekey
held_key = record { id = 3; user = 1; device = phone; pub_key = 3 ∷ []; status = claimed 1000 }

abbrev db : Db
db = record empty_db {
  users = alice ∷ bob ∷ [];
  next_user = 3;
  prekeys = key 1 ∷ key 2 ∷ held_key ∷ [];
  next_prekey = 4;
}

-- Key 1 is claimed at 2000, and another claim follows at 2300.
claim_prekeys_once_example :
    has_claim 1
      (claim_prekeys
        (run ((claim 1, 2100) ∷ (consume (2 ∷ []), 2200) ∷ []) (claim_prekeys db 1 2000).0)
        1
        2300).1
    ≡ false
unfolding claim_prekeys claim_devices claim_device claim_row reclaim stocked_devices is_unused
    is_overdue is_listed has_claim update_rows find_row count_rows text_eq
claim_prekeys_once_example =
    claim_prekeys_once db 1 2000 1 ((claim 1, 2100) ∷ (consume (2 ∷ []), 2200) ∷ []) 1 2300
      (omega arith, (omega arith, (omega arith, omega arith))) refl (omega arith, (omega arith, tt))
      (omega arith)

abbrev trim : Text → Text
trim t = t

abbrev group_db : Db
group_db = record db {
  conversations = record { id = 1; type = group; name = codes "g" } ∷ [];
  next_conversation = 2;
  members = (new_member 1 1 owner 50) ∷ [];
}

abbrev event : ℕ → ℕ → Event
event seq at = record {
  seq = seq;
  user = 1;
  event_type = codes "message";
  payload = codes "{}";
  at = at;
}

abbrev event_db : Db
event_db = record db { events = event 1 100 ∷ event 2 900000 ∷ []; next_seq = 3 }
