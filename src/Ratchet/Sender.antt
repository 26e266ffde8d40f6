-- ===== src/Ratchet/Sender.antt =====
-- A sender's messages of one sender key, and the receivers of that key.
use xlchat_project.Common.{
  ℕ, suc, ◌+◌, ◌<◌, ◌≤◌, ◌≡◌, ◌⊎◌, refl, sym, ap, subst, true, false, some, List, [], ◌∷◌, ◌++◌,
  map, length, arith, is_empty, member, All, inl, inr, length-append, not_empty,
}
use xlchat_project.Ratchet.{
  Bytes, Crypto, SenderKey, EncryptedMessage, ratchet_chain_key, derive_message_key, sign, verify,
  aes_gcm_encrypt, aes_gcm_decrypt, seal_message, encrypt_message,
}
use xlchat_project.Ratchet.Receive.{open_message}
use xlchat_project.Ratchet.Chain.{chain_at}
use xlchat_project.Ratchet.Replay.{receive_all}
use xlchat_project.Ratchet.Arrival.{Derives, joins, chain_at_size, message_key_size}
use xlchat_project.Ratchet.Delivery.{Authentic, Batch, joins-Ready, receive_all-Batch}

module _ (c : Crypto) where
  -- What OpenSSL documents: AES-256-GCM opens what it sealed, with a tag of 16 bytes, and Ed25519
  -- verifies with a key pair's public key what its private key signed in 64 bytes.
  pub record Works (private public : Bytes) : Type 0 where
    pub derives : Derives c
    pub seals :
        (key iv plain : Bytes)
        → length key ≡ 32
        → length iv ≡ 12
        → (sealed : Bytes) × (c.gcm_seal key iv plain ≡ some sealed)
          × (length sealed ≡ length plain + 16)
          × (c.gcm_open key iv sealed ≡ some plain)
    pub signs :
        (message : Bytes)
        → (signature : Bytes) × (c.ed_sign private message ≡ some signature)
          × (length signature ≡ 64)
          × (c.ed_verify public message signature ≡ true)

  -- A sender key whose chain has `seed` for its first key.
  pub record IsSender (seed : Bytes) (key : SenderKey) : Type 0 where
    pub valid : key.valid ≡ true
    pub seed_size : length seed ≡ 32
    pub private_size : length key.private_key ≡ 32
    pub public_size : length key.public_key ≡ 32
    pub chain : key.chain_key ≡ chain_at c seed key.iteration

  -- Calls of encryptMessage with plaintexts and initial vectors; the messages come with their plaintexts.
  unfoldable pub send_all :
      SenderKey → List (Bytes × Bytes) → SenderKey × List (EncryptedMessage × Bytes)
  send_all key [] = (key, [])
  send_all key ((plain, iv) ∷ texts) =
      let x = encrypt_message c key plain (some iv) in
      let rest = send_all x.0 texts in (rest.0, (x.1, plain) ∷ rest.1)

  -- A text that is not empty, with 12 random bytes.
  abbrev pub IsText : Bytes × Bytes → Type 0
  IsText (plain, iv) = (is_empty plain ≡ false) × (length iv ≡ 12)

  seal_message-Authentic :
      (seed plain iv : Bytes) (key : SenderKey)
      → Works key.private_key key.public_key
      → IsSender seed key
      → 0 < key.iteration
      → IsText (plain, iv)
      → (m : EncryptedMessage) × (seal_message c key plain (some iv) ≡ m)
        × (m.iteration ≡ key.iteration)
        × Authentic c key.public_key seed m plain
  unfolding seal_message aes_gcm_encrypt sign open_message aes_gcm_decrypt verify
  seal_message-Authentic seed plain iv key w k p t =
      let message_key = derive_message_key c key.chain_key key.iteration in
      let size : length message_key ≡ 32 =
        subst (λ (x : Bytes). length (derive_message_key c x key.iteration) ≡ 32) (sym k.chain)
          (message_key_size c seed key.iteration w.derives k.seed_size) in
      let (sealed, seal, sealed_size, opens) = w.seals message_key iv plain size t.1 in
      let (signature, signs, signature_size, verifies) = w.signs (iv ++ sealed) in
      let payload : is_empty (iv ++ sealed) ≡ false =
        not_empty (iv ++ sealed) (omega (arith, length-append iv sealed, t.1)) in
      let there = not_empty signature (omega (arith, signature_size)) in
      let known = not_empty message_key (omega (arith, size)) in
      let m : EncryptedMessage = record {
        key_id = key.key_id;
        iteration = key.iteration;
        iv = iv;
        ciphertext = sealed;
        signature = signature;
        valid = true;
      } in
      let private_size = k.private_size in
      let public_size = k.public_size in
      (
        m,
        ground (arith, known, size, seal, payload, signs, there, private_size, signature_size),
        refl,
        record {
          well_formed = ground (arith, t.1, sealed_size, signature_size);
          opens =
              subst
                (λ (x : Bytes).
                  open_message c key.public_key (derive_message_key c x key.iteration) m ≡ plain)
                k.chain
                (ground (
                  arith, t, size, opens, payload, sealed_size, signature_size, public_size,
                  verifies,
                ));
          text = t.0;
        },
      )

  abbrev stepped : SenderKey → SenderKey
  stepped key = record key {
    chain_key = ratchet_chain_key c key.chain_key;
    iteration = suc key.iteration;
  }

  encrypt_message-Authentic :
      (seed plain iv : Bytes) (key : SenderKey)
      → Works key.private_key key.public_key
      → IsSender seed key
      → IsText (plain, iv)
      → (m : EncryptedMessage) × (encrypt_message c key plain (some iv) ≡ (stepped key, m))
        × IsSender seed (stepped key)
        × (m.iteration ≡ suc key.iteration)
        × Authentic c key.public_key seed m plain
  unfolding encrypt_message
  encrypt_message-Authentic seed plain iv key w k t =
      let next = stepped key in
      let chain : next.chain_key ≡ chain_at c seed next.iteration =
        ap (ratchet_chain_key c) k.chain in
      let sender : IsSender seed next = record {
        valid = k.valid;
        seed_size = k.seed_size;
        private_size = k.private_size;
        public_size = k.public_size;
        chain = chain;
      } in
      let there = not_empty next.chain_key (
        subst (λ (x : Bytes). 0 < length x) (sym chain)
          (omega (arith, chain_at_size c seed next.iteration w.derives k.seed_size))) in
      let (m, e, n, a) = seal_message-Authentic seed plain iv next w sender (omega arith) t in
      let valid = k.valid in (m, ground (arith, there, e, t.0, valid), sender, n, a)

  -- A message of the sender's, of an iteration above `low` and not above `high`.
  abbrev Sent : Bytes → Bytes → ℕ → ℕ → EncryptedMessage × Bytes → Type 0
  Sent public seed low high (m, plain) =
      Authentic c public seed m plain × (low < m.iteration) × (m.iteration ≤ high)

  send_all-Sent :
      (seed : Bytes) (low high : ℕ) (key : SenderKey) (texts : List (Bytes × Bytes))
      → Works key.private_key key.public_key
      → IsSender seed key
      → All IsText texts
      → low ≤ key.iteration
      → key.iteration + length texts ≤ high
      → All (Sent key.public_key seed low high) (send_all key texts).1
  unfolding send_all
  send_all-Sent seed low high key [] w k ts l h = tt
  send_all-Sent seed low high key ((plain, iv) ∷ texts) w k ts l h =
      let (m, e, sender, n, a) = encrypt_message-Authentic seed plain iv key w k ts.0 in
      let rest =
        send_all-Sent seed low high (stepped key) texts w sender ts.1 (omega arith) (omega arith) in
      rw e ((a, omega (arith, n), omega (arith, n)), rest)

  -- `p` is one of the posts.
  abbrev pub IsOneOf : EncryptedMessage × Bytes → List (EncryptedMessage × Bytes) → Type 0
  IsOneOf p [] = ⊥
  IsOneOf p (q ∷ posts) = (p ≡ q) ⊎ IsOneOf p posts

  -- No iteration comes twice, nor is one of `read`.
  abbrev pub Differ : List ℕ → List (EncryptedMessage × Bytes) → Type 0
  Differ read [] = Unit
  Differ read ((m, plain) ∷ posts) =
      (member m.iteration read ≡ false) × Differ (m.iteration ∷ read) posts

  one_of_all {κ} :
      (P : EncryptedMessage × Bytes → Type κ) (p : EncryptedMessage × Bytes)
      (posts : List (EncryptedMessage × Bytes))
      → All P posts
      → IsOneOf p posts
      → P p
  one_of_all P p [] a i = absurd i
  one_of_all P p (q ∷ posts) a (inl e) = subst P (sym e) a.0
  one_of_all P p (q ∷ posts) a (inr i) = one_of_all P p posts a.1 i

  posts-Batch :
      (public seed : Bytes) (base : ℕ) (read : List ℕ)
      (sent posts : List (EncryptedMessage × Bytes))
      → All (Sent public seed base (base + 1000)) sent
      → All (λ p. IsOneOf p sent) posts
      → Differ read posts
      → Batch c public seed base read posts
  posts-Batch public seed base read sent [] s o d = tt
  posts-Batch public seed base read sent ((m, plain) ∷ posts) s o d =
      let p = one_of_all (Sent public seed base (base + 1000)) (m, plain) sent s o.0 in
      (p.0, p.1, p.2, d.0, posts-Batch public seed base (m.iteration ∷ read) sent posts s o.1 d.1)

  -- A sender with a valid key encrypts up to 1000 texts, none empty, each with 12 random bytes, and
  -- OpenSSL works as documented. A receiver that has taken over the chain as it was before reads any
  -- choice of these messages in any order, none twice, and gets each one's text.
  pub receive_any_order :
      (seed : Bytes) (key : SenderKey) (texts : List (Bytes × Bytes))
      (posts : List (EncryptedMessage × Bytes))
      → Works key.private_key key.public_key
      → IsSender seed key
      → All IsText texts
      → length texts ≤ 1000
      → All (λ p. IsOneOf p (send_all key texts).1) posts
      → Differ [] posts
      → (receive_all c key.public_key (joins c seed key.iteration) (map (λ p. p.0) posts)).1
        ≡ map (λ p. p.1) posts
  receive_any_order seed key texts posts w k ts n o d =
      let sent =
        send_all-Sent seed key.iteration (key.iteration + 1000) key texts w k ts (omega arith)
          (omega arith) in
      receive_all-Batch c key.public_key seed key.iteration [] posts (joins c seed key.iteration)
        w.derives k.seed_size (joins-Ready c key.public_key seed key.iteration)
        (posts-Batch key.public_key seed key.iteration [] (send_all key texts).1 posts sent o d)
