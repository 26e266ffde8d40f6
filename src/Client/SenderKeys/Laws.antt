-- ===== src/Client/SenderKeys/Laws.antt =====
-- The keys as they are stored follow decryptMessage, and what a distribution does to them.
use xlchat_project.Common.{
  ℕ, suc, ◌<◌, not_empty, ◌≡◌, refl, sym, ◌∙◌, ap, subst, inl, inr, Bool-cases, true, false, ◌||◌,
  some, [], ◌∷◌, length, is_empty, arith,
}
use xlchat_project.Common.Dict.{Dict}
use xlchat_project.Ratchet.{Bytes, Crypto, EncryptedMessage}
use xlchat_project.Ratchet.Receive.{Receiver, decrypt_message}
use xlchat_project.Ratchet.Chain.{Follows, decrypt_message-Follows}
use xlchat_project.Ratchet.Arrival.{Derives, chain_at_size, message_key_size}
use xlchat_project.Ratchet.Skipped.{Between-weaken}
use xlchat_project.Client.Store.Content.{Opens}
use xlchat_project.Client.SenderKeys.{
  Formats, KeyName, KeyStore, StoredKey, is_named, has_keys, load_sender_key,
  save_skipped_message_keys, load_skipped_message_keys, decrypt_group_message, install_sender_key,
}
use xlchat_project.Client.SenderKeys.Skipped.{Reads, IsStorable}
use xlchat_project.Client.SenderKeys.Saving.{
  Seals, load-save, load_skipped-save, skipped_untouched, replaced,
}

module _ (c : Crypto) (f : Formats) where
  abbrev pub receiver_of : StoredKey → Dict ℕ Bytes → Receiver
  receiver_of k skipped = record {
    chain_key = k.chain_key;
    iteration = k.iteration;
    skipped = skipped;
  }

  abbrev pub moved_to : StoredKey → Receiver → StoredKey
  moved_to k r = record {
    chain_key = r.chain_key;
    public_key = k.public_key;
    private_key = [];
    iteration = r.iteration;
  }

  no_keys : (d : Dict ℕ Bytes) → has_keys d ≡ false → d ≡ []
  no_keys [] h = refl
  no_keys (k ∷ d) h = absurd (ground (arith, h))

  -- What a receiver on its sender's chain skips can be stored.
  storable :
      (seed : Bytes) (r : Receiver)
      → Derives c
      → length seed ≡ 32
      → Follows c seed r
      → r.iteration < 2147483648
      → IsStorable r.skipped
  storable seed r d h fo small = record {
    between =
        Between-weaken 0 0 (suc r.iteration) 2147483648 r.skipped (omega arith) (omega arith)
          fo.between;
    filled = λ j k e. not_empty k (
        subst (λ (b : Bytes). 0 < length b) (sym (fo.keys j k e))
          (omega (arith, message_key_size c seed j d h)));
  }

  -- Where the local database is open, the keys have their lengths, and AES-GCM, Base64, numbers
  -- and JSON objects are as documented: a group message that decryptMessage opens, for a receiver
  -- on its sender's chain, is returned, and what is stored afterwards is the chain and the skipped
  -- keys that decryptMessage left, whose iteration fits an `int`: after a restart the receiver
  -- goes on from there.
  pub decrypt_group_message-stores :
      (s : KeyStore) (name : KeyName) (m : EncryptedMessage) (k : StoredKey) (seed iv iv2 : Bytes)
      → Opens c
      → Seals c
      → Reads f
      → Derives c
      → length seed ≡ 32
      → s.available ≡ true
      → length s.key ≡ 32
      → length iv ≡ 12
      → length iv2 ≡ 12
      → is_named name ≡ true
      → load_sender_key c f s name ≡ some k
      → length k.public_key ≡ 32
      → Follows c seed (receiver_of k (load_skipped_message_keys c f s name))
      → let x =
          decrypt_message c k.public_key (receiver_of k (load_skipped_message_keys c f s name)) m in
        let after = decrypt_group_message c f s name m (some iv) (some iv2) in
        is_empty x.1 ≡ false
        → x.0.iteration < 2147483648
        → (after.1 ≡ x.1)
          × (load_sender_key c f after.0 name ≡ some (moved_to k x.0))
          × (load_skipped_message_keys c f after.0 name ≡ x.0.skipped)
  unfolding decrypt_group_message
  decrypt_group_message-stores s name m k seed iv iv2 o z r ds ss a sk l l2 n e pk fo t small =
      let old = load_skipped_message_keys c f s name in
      let x = decrypt_message c k.public_key (receiver_of k old) m in
      let moved = moved_to k x.0 in
      let after = decrypt_message-Follows c k.public_key seed (receiver_of k old) m fo in
      let size =
        subst (λ (b : Bytes). length b ≡ 32) (sym after.chain)
          (chain_at_size c seed x.0.iteration ds ss) in
      let (row, q, loaded) = load-save c f s name moved iv o z r a sk l n size pk refl in
      let kept : load_skipped_message_keys c f (replaced c f s name row) name ≡ old =
        skipped_untouched c f s name row in
      elim (Bool-cases (has_keys x.0.skipped || has_keys old)) [
        | inl h ↦
            let w =
              load_skipped-save c f (replaced c f s name row) name x.0.skipped iv2 o z r a sk l2 n
                (storable seed x.0 ds ss after small) in
            let done : decrypt_group_message c f s name m (some iv) (some iv2) ≡ (
              (save_skipped_message_keys c f (replaced c f s name row) name x.0.skipped
                  (some iv2)).0,
              x.1,
            ) =
              ground (arith, e, t, h, q) in
            (
              ap (λ y. y.1) done,
              ap (λ y. load_sender_key c f y.0 name) done ∙ w.1 ∙ loaded,
              ap (λ y. load_skipped_message_keys c f y.0 name) done ∙ w.0,
            )
        | inr h ↦
            let done : decrypt_group_message c f s name m (some iv) (some iv2)
                ≡ (replaced c f s name row, x.1) =
              ground (arith, e, t, h, q) in
            (
              ap (λ y. y.1) done,
              ap (λ y. load_sender_key c f y.0 name) done ∙ loaded,
              ap (λ y. load_skipped_message_keys c f y.0 name) done
                  ∙ kept
                  ∙ no_keys old (ground (arith, h))
                  ∙ sym (no_keys x.0.skipped (ground (arith, h))),
            )
      ]

  -- Where the local database is open, the keys have their lengths, and AES-GCM and Base64 are as
  -- documented: a distribution that is processed again puts the chain back to its start. The key
  -- that is loaded is the first chain key at iteration 0, whatever was stored, with the skipped
  -- keys as they were.
  pub install_sender_key_resets :
      (s : KeyStore) (name : KeyName) (seed public iv : Bytes)
      → Opens c
      → Seals c
      → Reads f
      → s.available ≡ true
      → length s.key ≡ 32
      → length iv ≡ 12
      → is_named name ≡ true
      → length seed ≡ 32
      → length public ≡ 32
      → let x = (install_sender_key c f s name seed public (some iv)).0 in
        (load_sender_key c f x name
          ≡ some
              (record { chain_key = seed; public_key = public; private_key = []; iteration = 0 }))
        × (load_skipped_message_keys c f x name ≡ load_skipped_message_keys c f s name)
  unfolding install_sender_key
  install_sender_key_resets s name seed public iv o z r a sk l n ss ps =
      let k : StoredKey = record {
        chain_key = seed;
        public_key = public;
        private_key = [];
        iteration = 0;
      } in
      let (row, q, loaded) = load-save c f s name k iv o z r a sk l n ss ps refl in
      let done : (install_sender_key c f s name seed public (some iv)).0 ≡ replaced c f s name row =
        ground (arith, ss, q) in
      (
        ap (λ y. load_sender_key c f y name) done ∙ loaded,
        ap (λ y. load_skipped_message_keys c f y name) done ∙ skipped_untouched c f s name row,
      )
