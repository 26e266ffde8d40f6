-- ===== src/Ratchet/Delivery.antt =====
-- A receiver reads its sender's messages in whatever order they come.
use xlchat_project.Common.{
  ℕ, suc, ◌+◌, ◌-◌, ◌<◌, ◌≤◌, ◌≡◌, refl, sym, subst, true, false, none, some, List, [], ◌∷◌, map,
  length, leb, arith, is_empty, member, not_empty, Bool-cases, inl, inr,
}
use xlchat_project.Common.Dict.{nat_eq, lookup, remove, lookup-remove}
use xlchat_project.Ratchet.{Bytes, Crypto, EncryptedMessage, derive_message_key}
use xlchat_project.Ratchet.Skipped.{
  put_all, trim_skipped, Between, lookup-Between_low, lookup-put_all, trim_short, length-Between,
  lookup-Between_high, put_all-Between, Between-weaken, remove-Between,
}
use xlchat_project.Ratchet.Receive.{
  Receiver, Walk, is_acceptable, ratchet_to, open_message, consume, commit, advance,
  decrypt_message,
}
use xlchat_project.Ratchet.Outcome.{walk_start, committed}
use xlchat_project.Ratchet.Chain.{
  Follows, Tracks, message_key, walk-Tracks, decrypt_message-Follows,
}
use xlchat_project.Ratchet.Replay.{receive_all}
use xlchat_project.Ratchet.Arrival.{
  Derives, chain_at_size, message_key_size, ratchet_to_arrives, joins,
}

module _ (c : Crypto) (public : Bytes) where
  -- A message of a sender's chain, with the plaintext that its message key opens.
  pub record Authentic (seed : Bytes) (m : EncryptedMessage) (plain : Bytes) : Type 0 where
    pub well_formed : is_acceptable m ≡ true
    pub opens : open_message c public (message_key c seed m.iteration) m ≡ plain
    pub text : is_empty plain ≡ false

  -- A receiver that took the chain at iteration `base`, and has read `read` of the 1000 after it.
  pub record Ready (seed : Bytes) (base : ℕ) (read : List ℕ) (r : Receiver) : Type 0 where
    pub follows : Follows c seed r
    pub above : Between base (suc r.iteration) r.skipped
    pub from : base ≤ r.iteration
    pub upto : r.iteration ≤ base + 1000
    pub unread :
        (n : ℕ)
        → base < n
        → n ≤ r.iteration
        → member n read ≡ false
        → lookup n r.skipped ≡ some (message_key c seed n)

  decrypt_message_skipped :
      (r : Receiver) (m : EncryptedMessage) (key plain : Bytes)
      → is_acceptable m ≡ true
      → length r.chain_key ≡ 32
      → lookup m.iteration r.skipped ≡ some key
      → open_message c public key m ≡ plain
      → is_empty plain ≡ false
      → decrypt_message c public r m ≡ (record r { skipped = remove m.iteration r.skipped }, plain)
  unfolding decrypt_message consume
  decrypt_message_skipped r m key plain v l e o h = ground arith

  decrypt_message_ahead :
      (r : Receiver) (m : EncryptedMessage) (w : Walk) (plain : Bytes)
      → is_acceptable m ≡ true
      → length r.chain_key ≡ 32
      → lookup m.iteration r.skipped ≡ none
      → r.iteration < m.iteration
      → m.iteration ≤ r.iteration + 2000
      → ratchet_to c m.iteration (m.iteration - r.iteration) (walk_start r) ≡ some w
      → is_empty (derive_message_key c w.chain_key w.iteration) ≡ false
      → open_message c public (derive_message_key c w.chain_key w.iteration) m ≡ plain
      → is_empty plain ≡ false
      → decrypt_message c public r m ≡ (committed r w, plain)
  unfolding decrypt_message advance commit
  decrypt_message_ahead r m w plain v l e a b q k o h = ground arith

  read_skipped :
      (seed : Bytes) (base : ℕ) (read : List ℕ) (r : Receiver) (m : EncryptedMessage)
      (plain : Bytes)
      → Derives c
      → length seed ≡ 32
      → Ready seed base read r
      → Authentic seed m plain
      → base < m.iteration
      → m.iteration ≤ r.iteration
      → member m.iteration read ≡ false
      → let s = record r { skipped = remove m.iteration r.skipped } in
        (decrypt_message c public r m ≡ (s, plain)) × Ready seed base (m.iteration ∷ read) s
  unfolding member
  read_skipped seed base read r m plain d h y a b l u =
      let s = record r { skipped = remove m.iteration r.skipped } in
      let e =
        decrypt_message_skipped r m (message_key c seed m.iteration) plain a.well_formed
          (subst (λ (k : Bytes). length k ≡ 32) (sym y.follows.chain)
            (chain_at_size c seed r.iteration d h))
          (y.unread m.iteration b l u) a.opens a.text in
      (
        e,
        record {
          follows =
              subst (λ (x : Receiver × Bytes). Follows c seed x.0) e
                (decrypt_message-Follows c public seed r m y.follows);
          above = remove-Between base (suc r.iteration) m.iteration r.skipped y.above;
          from = y.from;
          upto = y.upto;
          unread =
              λ n l l' u'. ground (arith, y.unread n l l', lookup-remove m.iteration n r.skipped);
        },
      )

  committed_Ready :
      (seed : Bytes) (base : ℕ) (read : List ℕ) (r : Receiver) (target : ℕ) (w : Walk)
      → Ready seed base read r
      → Tracks c seed r.iteration target w
      → w.iteration ≡ target
      → r.iteration < target
      → target ≤ base + 1000
      → Follows c seed (committed r w)
      → Ready seed base (target ∷ read) (committed r w)
  unfolding member
  committed_Ready seed base read r target w y t e l u f =
      let joined : Between base target (put_all w.pending r.skipped) =
        put_all-Between base target w.pending r.skipped
          (Between-weaken r.iteration base target target w.pending y.from (omega arith) t.between)
          (Between-weaken base base (suc r.iteration) target r.skipped (omega arith) (omega arith)
            y.above) in
      let kept : trim_skipped (put_all w.pending r.skipped) ≡ put_all w.pending r.skipped =
        trim_short (put_all w.pending r.skipped) (
          omega (
            arith,
            length-Between base target (put_all w.pending r.skipped) (omega (arith, y.from)) joined,
          )) in
      record {
        follows = f;
        above = subst (Between base (suc w.iteration)) (sym kept) (
            Between-weaken base base target (suc w.iteration) (put_all w.pending r.skipped)
              (omega arith) (omega (arith, e)) joined);
        from = omega (arith, e, y.from);
        upto = omega (arith, e);
        unread = λ n b b' v. ground (
          arith,
          kept,
          e,
          t.complete n,
          y.unread n b,
          lookup-put_all r.iteration target n w.pending r.skipped t.between,
          lookup-Between_low r.iteration target n w.pending t.between,
        );
      }

  read_ahead :
      (seed : Bytes) (base : ℕ) (read : List ℕ) (r : Receiver) (m : EncryptedMessage)
      (plain : Bytes)
      → Derives c
      → length seed ≡ 32
      → Ready seed base read r
      → Authentic seed m plain
      → r.iteration < m.iteration
      → m.iteration ≤ base + 1000
      → (s : Receiver) × (decrypt_message c public r m ≡ (s, plain))
        × Ready seed base (m.iteration ∷ read) s
  read_ahead seed base read r m plain d h y a l u =
      let (w, q) =
        ratchet_to_arrives c seed m.iteration (m.iteration - r.iteration) (walk_start r) d h
          y.follows.chain in
      let t = walk-Tracks c seed r m w y.follows l q in
      let key = derive_message_key c w.chain_key w.iteration in
      let chain = t.0.chain in
      let k : message_key c seed m.iteration ≡ key = ground (arith, chain, t.1) in
      let e : decrypt_message c public r m ≡ (committed r w, plain) =
        decrypt_message_ahead r m w plain a.well_formed
          (subst (λ (k : Bytes). length k ≡ 32) (sym y.follows.chain)
            (chain_at_size c seed r.iteration d h))
          (lookup-Between_high base (suc r.iteration) m.iteration r.skipped y.above (omega arith)) l
          (omega (arith, y.from)) q
          (not_empty key (
            subst (λ (k : Bytes). 0 < length k) k
              (omega (arith, message_key_size c seed m.iteration d h))))
          (subst (λ (k : Bytes). open_message c public k m ≡ plain) k a.opens) a.text in
      let f =
        subst (λ (x : Receiver × Bytes). Follows c seed x.0) e
          (decrypt_message-Follows c public seed r m y.follows) in
      (committed r w, e, committed_Ready seed base read r m.iteration w y t.0 t.1 l u f)

  reads :
      (seed : Bytes) (base : ℕ) (read : List ℕ) (r : Receiver) (m : EncryptedMessage)
      (plain : Bytes)
      → Derives c
      → length seed ≡ 32
      → Ready seed base read r
      → Authentic seed m plain
      → base < m.iteration
      → m.iteration ≤ base + 1000
      → member m.iteration read ≡ false
      → (s : Receiver) × (decrypt_message c public r m ≡ (s, plain))
        × Ready seed base (m.iteration ∷ read) s
  reads seed base read r m plain d h y a b u n = elim (Bool-cases (leb m.iteration r.iteration)) [
    | inl l ↦
        let x = read_skipped seed base read r m plain d h y a b (ground (arith, l)) n in
        (record r { skipped = remove m.iteration r.skipped }, x.0, x.1)
    | inr l ↦ read_ahead seed base read r m plain d h y a (ground (arith, l)) u
  ]

  -- Messages with their plaintexts, of different iterations among the 1000 after `base`.
  abbrev pub Batch : Bytes → ℕ → List ℕ → List (EncryptedMessage × Bytes) → Type 0
  Batch seed base read [] = Unit
  Batch seed base read ((m, plain) ∷ posts) =
      Authentic seed m plain
      × (base < m.iteration)
      × (m.iteration ≤ base + 1000)
      × (member m.iteration read ≡ false)
      × Batch seed base (m.iteration ∷ read) posts

  pub receive_all-Batch :
      (seed : Bytes) (base : ℕ) (read : List ℕ) (posts : List (EncryptedMessage × Bytes))
      (r : Receiver)
      → Derives c
      → length seed ≡ 32
      → Ready seed base read r
      → Batch seed base read posts
      → (receive_all c public r (map (λ p. p.0) posts)).1 ≡ map (λ p. p.1) posts
  unfolding receive_all
  receive_all-Batch seed base read [] r d h y b = refl
  receive_all-Batch seed base read ((m, plain) ∷ posts) r d h y b =
      let (s, e, y') = reads seed base read r m plain d h y b.0 b.1 b.2 b.3 in
      let rest = receive_all-Batch seed base (m.iteration ∷ read) posts s d h y' b.4 in
      ground (arith, e, rest)

  pub joins-Ready : (seed : Bytes) (base : ℕ) → Ready seed base [] (joins c seed base)
  unfolding lookup
  joins-Ready seed base = record {
    follows = record {
      chain = refl;
      between = tt;
      keys = λ j k h. absurd (ground arith);
      few = omega arith;
    };
    above = tt;
    from = omega arith;
    upto = omega arith;
    unread = λ n b b' v. absurd (omega arith);
  }
