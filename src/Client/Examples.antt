-- ===== src/Client/Examples.antt =====
-- Test data: a client with a toy cipher.
use xlchat_project.Common.{true, false, Option, none, some, [], ◌∷◌, ◌++◌, drop, pos, Text, codes}
use xlchat_project.Ratchet.{Bytes, Crypto}
use xlchat_project.Client.{Root}
use xlchat_project.Client.Store.{Store, MessageJson}

abbrev pub tag : Bytes
tag = 9 ∷ 9 ∷ 9 ∷ 9 ∷ 9 ∷ 9 ∷ 9 ∷ 9 ∷ 9 ∷ 9 ∷ 9 ∷ 9 ∷ 9 ∷ 9 ∷ 9 ∷ 9 ∷ []

-- Sealing puts a tag before the text, keys stay as they are, and every signature is taken.
abbrev pub plain_crypto : Crypto
plain_crypto = record {
  hkdf = λ key salt info. some key;
  gcm_seal = λ key iv plain. some (tag ++ plain);
  gcm_open = λ key iv sealed. some (drop 16 sealed);
  ed_sign = λ private message. none;
  ed_verify = λ public message signature. true;
  sha256 = λ b. b;
  hex = λ b. b;
  number = λ n. n ∷ [];
}

abbrev pub twelve : Bytes
twelve = 1 ∷ 2 ∷ 3 ∷ 4 ∷ 5 ∷ 6 ∷ 7 ∷ 8 ∷ 9 ∷ 10 ∷ 11 ∷ 12 ∷ []

abbrev pub storage_key : Bytes
storage_key = tag ++ tag

abbrev pub empty_store : Store
empty_store = record {
  available = true;
  key = storage_key;
  messages = [];
  decrypted = [];
  outbox = [];
}

-- Every text that starts with a brace is read as an envelope.
abbrev pub parse : Text → Option Root
parse [] = none
parse (x ∷ xs) = some (record { v = pos 1; type = []; has_devices = true })

abbrev pub hello : MessageJson
hello = record {
  id = 7;
  conversation = 3;
  sender = 2;
  sender_name = [];
  content = codes "hello";
  content_type = none;
  status = some (codes "read");
  undecryptable = false;
  client_id = [];
  created_at = [];
}

abbrev pub envelope : MessageJson
envelope = record hello { content = codes "{}"; status = some (codes "sent") }
