-- ===== src/Ratchet/Tests.antt =====
-- A sender and a receiver over a toy cipher, and the theorems at them.
use xlchat_project.Common.{
  ℕ, zero, suc, ◌+◌, ◌≤◌, ◌≡◌, refl, subst, length-append, inl, inr, true, none, some, List, [],
  ◌∷◌, ◌++◌, length, take, drop, arith, if◌then◌else◌, text_eq, text_eq_iff, take-append_length,
  drop-append_length, member,
}
use xlchat_project.Common.Dict.{nat_eq, lookup}
use xlchat_project.Ratchet.{
  Bytes, Crypto, SenderKey, EncryptedMessage, ratchet_chain_key, derive_message_key,
  encrypt_message, verify, aes_gcm_decrypt,
}
use xlchat_project.Ratchet.Receive.{Receiver, decrypt_message}
use xlchat_project.Ratchet.Chain.{Follows, message_key, decrypt_message-Follows}
use xlchat_project.Ratchet.Replay.{
  receive_all, decrypt_message_fails_unchanged, decrypt_message_authentic, decrypt_message_once,
}
use xlchat_project.Ratchet.Arrival.{joins}
use xlchat_project.Ratchet.Sender.{Works, IsSender, send_all, receive_any_order}

abbrev repeat : ℕ → ℕ → Bytes
repeat zero x = []
repeat (suc n) x = x ∷ repeat n x

length-repeat : (n x : ℕ) → length (repeat n x) ≡ n
length-repeat zero x = refl
length-repeat (suc n) x = omega (arith, length-repeat n x)

abbrev shift : ℕ → Bytes → Bytes
shift n [] = []
shift n (x ∷ xs) = (x + n) ∷ shift n xs

length-shift : (n : ℕ) (xs : Bytes) → length (shift n xs) ≡ length xs
length-shift n [] = refl
length-shift n (x ∷ xs) = omega (arith, length-shift n xs)

length-take_eq : (n : ℕ) (xs : Bytes) → n ≤ length xs → length (take n xs) ≡ n
length-take_eq zero xs h = refl
length-take_eq (suc n) [] h = absurd (omega arith)
length-take_eq (suc n) (x ∷ xs) h = omega (arith, length-take_eq n xs (omega arith))

-- Keys are shifted by the length of the info, the tag is the first half of the key, and a signature
-- repeats the length of its message.
abbrev toy : Crypto
toy = record {
  hkdf = λ key salt info. some (shift (suc (length info)) key);
  gcm_seal = λ key iv plain. some (take 16 key ++ plain);
  gcm_open = λ key iv sealed.
      if text_eq (take 16 sealed) (take 16 key) then some (drop 16 sealed) else none;
  ed_sign = λ private message. some (repeat 64 (length message));
  ed_verify = λ public message signature. text_eq signature (repeat 64 (length message));
  sha256 = λ b. b;
  hex = λ b. b;
  number = λ n. repeat n 0;
}

toy_opens :
    (key plain : Bytes)
    → length key ≡ 32
    → (length (take 16 key ++ plain) ≡ length plain + 16)
      × ((if text_eq (take 16 (take 16 key ++ plain)) (take 16 key)
            then some (drop 16 (take 16 key ++ plain))
            else none)
          ≡ some plain)
toy_opens key plain h =
    let tag = take 16 key in
    let size : length tag ≡ 16 = length-take_eq 16 key (omega arith) in
    let front : take 16 (tag ++ plain) ≡ tag =
      subst (λ (n : ℕ). take n (tag ++ plain) ≡ tag) size (take-append_length tag plain) in
    let back : drop 16 (tag ++ plain) ≡ plain =
      subst (λ (n : ℕ). drop n (tag ++ plain) ≡ plain) size (drop-append_length tag plain) in
    (
      omega (arith, length-append tag plain, size),
      ground (arith, front, back, (text_eq_iff tag tag).1 refl),
    )

abbrev alice : SenderKey
alice = record {
  key_id = 1 ∷ [];
  chain_key = repeat 32 7;
  public_key = repeat 32 1;
  private_key = repeat 32 2;
  iteration = 0;
  valid = true;
}

toy-Works : Works toy alice.private_key alice.public_key
toy-Works = record {
  derives = λ key salt info h.
      (shift (suc (length info)) key, refl, omega (arith, length-shift (suc (length info)) key));
  seals = λ key iv plain h i.
      (take 16 key ++ plain, refl, (toy_opens key plain h).0, (toy_opens key plain h).1);
  signs = λ m. (
    repeat 64 (length m),
    refl,
    refl,
    (text_eq_iff (repeat 64 (length m)) (repeat 64 (length m))).1 refl,
  );
}

alice-IsSender : IsSender toy (repeat 32 7) alice
alice-IsSender = record {
  valid = refl;
  seed_size = refl;
  private_size = refl;
  public_size = refl;
  chain = refl;
}

abbrev texts : List (Bytes × Bytes)
texts = (104 ∷ [], repeat 12 1) ∷ (105 ∷ [], repeat 12 2) ∷ (106 ∷ [], repeat 12 3) ∷ []

abbrev message : ℕ → Bytes → EncryptedMessage
message n text = record {
  key_id = 1 ∷ [];
  iteration = n;
  iv = repeat 12 n;
  ciphertext = take 16 (message_key toy (repeat 32 7) n) ++ text;
  signature = repeat 64 29;
  valid = true;
}

abbrev post : ℕ → ℕ → EncryptedMessage × Bytes
post n text = (message n (text ∷ []), text ∷ [])

receive_any_order_example :
    (receive_all toy alice.public_key
      (joins toy (repeat 32 7) 0)
      (message 3 (106 ∷ []) ∷ message 1 (104 ∷ []) ∷ message 2 (105 ∷ []) ∷ [])).1
    ≡ (106 ∷ []) ∷ (104 ∷ []) ∷ (105 ∷ []) ∷ []
unfolding send_all encrypt_message member
receive_any_order_example =
    receive_any_order toy (repeat 32 7) alice texts (post 3 106 ∷ post 1 104 ∷ post 2 105 ∷ [])
      toy-Works alice-IsSender ((refl, refl), ((refl, refl), ((refl, refl), tt))) (omega arith)
      (inr (inr (inl refl)), (inl refl, (inr (inl refl), tt))) (refl, (refl, (refl, tt)))

abbrev bob : Receiver
bob = joins toy (repeat 32 7) 0

bob-Follows : Follows toy (repeat 32 7) bob
unfolding lookup
bob-Follows = record {
  chain = refl;
  between = tt;
  keys = λ j k h. absurd (ground arith);
  few = omega arith;
}

decrypt_message-Follows_example :
    Follows toy (repeat 32 7) (decrypt_message toy alice.public_key bob (message 3 (106 ∷ []))).0
decrypt_message-Follows_example =
    decrypt_message-Follows toy alice.public_key (repeat 32 7) bob (message 3 (106 ∷ []))
      bob-Follows

-- A forged ciphertext.
decrypt_message_fails_unchanged_example :
    (decrypt_message toy alice.public_key bob
      (record (message 3 []) { ciphertext = repeat 20 0 })).0
    ≡ bob
unfolding decrypt_message lookup ratchet_chain_key derive_message_key aes_gcm_decrypt text_eq
decrypt_message_fails_unchanged_example =
    decrypt_message_fails_unchanged toy alice.public_key bob
      (record (message 3 []) { ciphertext = repeat 20 0 }) refl

decrypt_message_authentic_example :
    let m = message 3 (106 ∷ []) in
    let x = decrypt_message toy alice.public_key bob m in
    (verify toy alice.public_key (m.iv ++ m.ciphertext) m.signature ≡ true)
    × (aes_gcm_decrypt toy (message_key toy (repeat 32 7) 3) m.iv m.ciphertext ≡ x.1)
    × (x.0.iteration ≤ 2000)
unfolding decrypt_message lookup ratchet_chain_key derive_message_key aes_gcm_decrypt text_eq verify
decrypt_message_authentic_example =
    decrypt_message_authentic toy alice.public_key (repeat 32 7) bob (message 3 (106 ∷ []))
      bob-Follows refl

decrypt_message_once_example :
    (decrypt_message toy alice.public_key
      (receive_all toy alice.public_key
        (decrypt_message toy alice.public_key bob (message 3 (106 ∷ []))).0
        (message 2 (105 ∷ []) ∷ [])).0
      (message 3 (107 ∷ []))).1
    ≡ []
unfolding decrypt_message lookup ratchet_chain_key derive_message_key aes_gcm_decrypt text_eq verify
decrypt_message_once_example =
    decrypt_message_once toy alice.public_key (repeat 32 7) bob (message 3 (106 ∷ []))
      (message 3 (107 ∷ [])) (message 2 (105 ∷ []) ∷ []) bob-Follows refl refl
