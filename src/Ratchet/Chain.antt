-- ===== src/Ratchet/Chain.antt =====
-- The chain of keys that a sender key's first chain key, its seed, starts, and a receiver on it.
use xlchat_project.Common.{
  ℕ, zero, suc, ◌+◌, ◌-◌, ◌<◌, ◌≤◌, ◌≡◌, subst, inl, inr, Option-cases, some, length, arith,
}
use xlchat_project.Common.Dict.{Dict, nat_eq, lookup, remove, lookup-remove, length-remove}
use xlchat_project.Ratchet.{Bytes, Crypto, EncryptedMessage, ratchet_chain_key, derive_message_key}
use xlchat_project.Ratchet.Skipped.{
  put_all, Between, lookup-put, put-Between, put_all-Between, remove-Between, trim_skipped-Between,
  Between-weaken, length-trim_skipped, lookup-trim_skipped, lookup-put_all,
}
use xlchat_project.Ratchet.Outcome.{
  Outcome, refused, consumed, advanced, walk_start, committed, decrypt_message-Outcome,
}
use xlchat_project.Ratchet.Receive.{Receiver, Walk, ratchet_step, ratchet_to, decrypt_message}

module _ (c : Crypto) where
  abbrev pub chain_at : Bytes → ℕ → Bytes
  chain_at seed zero = seed
  chain_at seed (suc n) = ratchet_chain_key c (chain_at seed n)

  abbrev pub message_key : Bytes → ℕ → Bytes
  message_key seed n = derive_message_key c (chain_at seed n) n

  -- Every key that the map holds is the message key of its iteration.
  abbrev pub HoldsKeys : Bytes → Dict ℕ Bytes → Type 0
  HoldsKeys seed m = (j : ℕ) (k : Bytes) → lookup j m ≡ some k → k ≡ message_key seed j

  pub record Follows (seed : Bytes) (r : Receiver) : Type 0 where
    pub chain : r.chain_key ≡ chain_at seed r.iteration
    pub between : Between 0 (suc r.iteration) r.skipped
    pub keys : HoldsKeys seed r.skipped
    pub few : length r.skipped ≤ 1000

  -- A local chain that started at iteration `low` on its way to `target`.
  pub record Tracks (seed : Bytes) (low target : ℕ) (w : Walk) : Type 0 where
    pub chain : w.chain_key ≡ chain_at seed w.iteration
    pub low_le : low ≤ w.iteration
    pub between : Between low target w.pending
    pub keys : HoldsKeys seed w.pending
    pub complete :
        (j : ℕ)
        → low < j
        → j ≤ w.iteration
        → j < target
        → lookup j w.pending ≡ some (message_key seed j)

  step-Tracks :
      (seed : Bytes) (low target : ℕ) (w v : Walk)
      → ratchet_step c target w ≡ some v
      → Tracks seed low target w
      → Tracks seed low target v × (v.iteration ≡ suc w.iteration)
  unfolding ratchet_step
  step-Tracks seed low target w v e t =
      let key = derive_message_key c (ratchet_chain_key c w.chain_key) (suc w.iteration) in
      (
        record {
          chain = ground (arith, t.chain);
          low_le = ground (arith, t.low_le);
          between = ground (
            arith,
            t.between,
            t.low_le,
            (λ (h : suc w.iteration < target).
                put-Between low target (suc w.iteration) key w.pending (omega (arith, t.low_le)) h
                  t.between),
          );
          keys = λ j k h.
              ground (arith, t.chain, t.keys j k, lookup-put (suc w.iteration) j key w.pending);
          complete = λ j l h h'.
              ground (arith, t.chain, t.complete j l, lookup-put (suc w.iteration) j key w.pending);
        },
        ground arith,
      )

  pub ratchet_to-Tracks :
      (seed : Bytes) (low target turns : ℕ) (w v : Walk)
      → ratchet_to c target turns w ≡ some v
      → Tracks seed low target w
      → Tracks seed low target v × (v.iteration ≡ w.iteration + turns)
  unfolding ratchet_to
  ratchet_to-Tracks seed low target zero w v e t =
      let h : w ≡ v = ground arith in (subst (Tracks seed low target) h t, ground arith)
  ratchet_to-Tracks seed low target (suc n) w v e t =
      elim (Option-cases (ratchet_step c target w)) [
        | inl h ↦ absurd (ground (arith, h))
        | inr (u, h) ↦
            let s = step-Tracks seed low target w u h t in
            let r = ratchet_to-Tracks seed low target n u v (ground (arith, h)) s.0 in
            (r.0, omega (arith, r.1, s.1))
      ]

  walk_start-Tracks :
      (seed : Bytes) (target : ℕ) (r : Receiver)
      → Follows seed r
      → Tracks seed r.iteration target (walk_start r)
  unfolding lookup
  walk_start-Tracks seed target r f = record {
    chain = f.chain;
    low_le = omega arith;
    between = tt;
    keys = λ j k h. absurd (ground arith);
    complete = λ j l h h'. absurd (omega arith);
  }

  -- The local chain of a call that reached the message.
  pub walk-Tracks :
      (seed : Bytes) (r : Receiver) (m : EncryptedMessage) (w : Walk)
      → Follows seed r
      → r.iteration < m.iteration
      → ratchet_to c m.iteration (m.iteration - r.iteration) (walk_start r) ≡ some w
      → Tracks seed r.iteration m.iteration w × (w.iteration ≡ m.iteration)
  walk-Tracks seed r m w f l q =
      let t =
        ratchet_to-Tracks seed r.iteration m.iteration (m.iteration - r.iteration) (walk_start r) w
          q (walk_start-Tracks seed m.iteration r f) in
      (t.0, omega (arith, t.1, l))

  committed-Follows :
      (seed : Bytes) (r : Receiver) (target : ℕ) (w : Walk)
      → Follows seed r
      → r.iteration < target
      → Tracks seed r.iteration target w
      → w.iteration ≡ target
      → Follows seed (committed r w)
  committed-Follows seed r target w f l t e =
      let joined : Between 0 (suc w.iteration) (put_all w.pending r.skipped) =
        put_all-Between 0 (suc w.iteration) w.pending r.skipped
          (Between-weaken r.iteration 0 target (suc w.iteration) w.pending (omega arith)
            (omega (arith, e)) t.between)
          (Between-weaken 0 0 (suc r.iteration) (suc w.iteration) r.skipped (omega arith)
            (omega (arith, e, l)) f.between) in
      record {
        chain = t.chain;
        between = trim_skipped-Between 0 (suc w.iteration) (put_all w.pending r.skipped) joined;
        keys = λ j k h. ground (
          arith,
          t.keys j k,
          f.keys j k,
          lookup-trim_skipped 0 (suc w.iteration) j k (put_all w.pending r.skipped) joined h,
          lookup-put_all r.iteration target j w.pending r.skipped t.between,
        );
        few = length-trim_skipped (put_all w.pending r.skipped);
      }

  consumed-Follows :
      (seed : Bytes) (r : Receiver) (n : ℕ)
      → Follows seed r
      → Follows seed (record r { skipped = remove n r.skipped })
  consumed-Follows seed r n f = record {
    chain = f.chain;
    between = remove-Between 0 (suc r.iteration) n r.skipped f.between;
    keys = λ j k h. ground (arith, f.keys j k, lookup-remove n j r.skipped);
    few = omega (arith, f.few, length-remove n r.skipped);
  }

  pub Outcome-Follows :
      {public seed : Bytes} {r : Receiver} {m : EncryptedMessage} {x : Receiver × Bytes}
      → Outcome c public r m x
      → Follows seed r
      → Follows seed x.0
  Outcome-Follows refused f = f
  Outcome-Follows {seed} {r} {m} (consumed key plain v e o h) f =
      consumed-Follows seed r m.iteration f
  Outcome-Follows {seed} {r} {m} (advanced w plain v e l l' q o h) f =
      let t = walk-Tracks seed r m w f l q in committed-Follows seed r m.iteration w f l t.0 t.1

  -- Each call keeps a receiver on its sender's chain, whatever message it is given: the chain key is
  -- that of its iteration, every skipped key is the message key of its iteration, none of an
  -- iteration above the receiver's, and there are at most 1000 of them.
  pub decrypt_message-Follows :
      (public seed : Bytes) (r : Receiver) (m : EncryptedMessage)
      → Follows seed r
      → Follows seed ((decrypt_message c public r m).0)
  decrypt_message-Follows public seed r m f =
      Outcome-Follows (decrypt_message-Outcome c public r m) f
