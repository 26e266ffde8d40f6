-- ===== src/Ratchet/Replay.antt =====
-- What a call gives its caller, and that no iteration is read twice.
use xlchat_project.Common.{
  ℕ, suc, ◌+◌, ◌<◌, ◌≤◌, ◌≡◌, refl, sym, subst, true, false, none, List, [], ◌∷◌, ◌++◌, arith,
  is_empty,
}
use xlchat_project.Common.Dict.{nat_eq, lookup, lookup-remove}
use xlchat_project.Ratchet.{
  Bytes, Crypto, EncryptedMessage, derive_message_key, verify, aes_gcm_decrypt,
}
use xlchat_project.Ratchet.Skipped.{
  put_all, lookup-Between, lookup-Between_low, lookup-put_all, lookup-trim_skipped-none,
  lookup-Between_high, put_all-Between, Between-weaken,
}
use xlchat_project.Ratchet.Receive.{Receiver, Walk, open_message, decrypt_message}
use xlchat_project.Ratchet.Outcome.{
  Outcome, refused, consumed, advanced, committed, decrypt_message-Outcome,
}
use xlchat_project.Ratchet.Chain.{Follows, Tracks, message_key, walk-Tracks, Outcome-Follows}

module _ (c : Crypto) (public : Bytes) where
  -- The calls for a list of messages, and their results.
  unfoldable pub receive_all : Receiver → List EncryptedMessage → Receiver × List Bytes
  receive_all r [] = (r, [])
  receive_all r (m ∷ ms) =
      let s = decrypt_message c public r m in
      let rest = receive_all s.0 ms in (rest.0, s.1 ∷ rest.1)

  -- The iteration can give nothing any more.
  pub record Spent (n : ℕ) (r : Receiver) : Type 0 where
    pub passed : n ≤ r.iteration
    pub absent : lookup n r.skipped ≡ none

  Outcome-empty :
      {r : Receiver} {m : EncryptedMessage} {x : Receiver × Bytes}
      → Outcome c public r m x
      → x.1 ≡ []
      → x.0 ≡ r
  Outcome-empty refused e = refl
  Outcome-empty (consumed key plain v e o h) z = absurd (ground (arith, h, z))
  Outcome-empty (advanced w plain v e l l' q o h) z = absurd (ground (arith, h, z))

  -- A call that fails, whatever the reason, changes nothing: neither the chain nor the skipped keys.
  pub decrypt_message_fails_unchanged :
      (r : Receiver) (m : EncryptedMessage)
      → (decrypt_message c public r m).1 ≡ []
      → (decrypt_message c public r m).0 ≡ r
  decrypt_message_fails_unchanged r m = Outcome-empty (decrypt_message-Outcome c public r m)

  abbrev IsOpened : Bytes → EncryptedMessage → Bytes → Type 0
  IsOpened key m plain =
      (verify c public (m.iv ++ m.ciphertext) m.signature ≡ true)
      × (aes_gcm_decrypt c key m.iv m.ciphertext ≡ plain)

  opened :
      (key plain : Bytes) (m : EncryptedMessage)
      → open_message c public key m ≡ plain
      → is_empty plain ≡ false
      → IsOpened key m plain
  unfolding open_message
  opened key plain m o h = ground arith

  committed_absent :
      (seed : Bytes) (r : Receiver) (n target : ℕ) (w : Walk)
      → Follows c seed r
      → Tracks c seed r.iteration target w
      → r.iteration < target
      → lookup n r.skipped ≡ none
      → lookup n w.pending ≡ none
      → lookup n (committed r w).skipped ≡ none
  committed_absent seed r n target w f t l e p =
      lookup-trim_skipped-none 0 target n (put_all w.pending r.skipped)
        (put_all-Between 0 target w.pending r.skipped
          (Between-weaken r.iteration 0 target target w.pending (omega arith) (omega arith)
            t.between)
          (Between-weaken 0 0 (suc r.iteration) target r.skipped (omega arith) (omega arith)
            f.between))
        (ground (arith, lookup-put_all r.iteration target n w.pending r.skipped t.between))

  Outcome-IsOpened :
      {seed : Bytes} {r : Receiver} {m : EncryptedMessage} {x : Receiver × Bytes}
      → Outcome c public r m x
      → Follows c seed r
      → is_empty x.1 ≡ false
      → IsOpened (message_key c seed m.iteration) m x.1
        × Spent m.iteration x.0
        × (x.0.iteration ≤ r.iteration + 2000)
  Outcome-IsOpened refused f z = absurd (ground arith)
  Outcome-IsOpened {seed} {r} {m} (consumed key plain v e o h) f z =
      let k : key ≡ message_key c seed m.iteration = f.keys m.iteration key e in
      (
        subst (λ (k : Bytes). IsOpened k m plain) k (opened key plain m o h),
        record {
          passed =
              omega
                (arith, lookup-Between 0 (suc r.iteration) m.iteration key r.skipped f.between e);
          absent = ground (arith, lookup-remove m.iteration m.iteration r.skipped);
        },
        omega arith,
      )
  Outcome-IsOpened {seed} {r} {m} (advanced w plain v e l l' q o h) f z =
      let t = walk-Tracks c seed r m w f l q in
      let key = derive_message_key c w.chain_key w.iteration in
      let chain = t.0.chain in
      let k : key ≡ message_key c seed m.iteration = ground (arith, chain, t.1) in
      (
        subst (λ (k : Bytes). IsOpened k m plain) k (opened key plain m o h),
        record {
          passed = omega (arith, t.1);
          absent = committed_absent seed r m.iteration m.iteration w f t.0 l e (
              lookup-Between_high r.iteration m.iteration m.iteration w.pending t.0.between
                (omega arith));
        },
        omega (arith, t.1),
      )

  -- Whatever a call of a receiver on its sender's chain gives was signed with the sender's key, and is
  -- what AES-GCM gives of the ciphertext under the message key of its iteration; and the chain went at
  -- most 2000 iterations forward.
  pub decrypt_message_authentic :
      (seed : Bytes) (r : Receiver) (m : EncryptedMessage)
      → Follows c seed r
      → is_empty (decrypt_message c public r m).1 ≡ false
      → let x = decrypt_message c public r m in
        (verify c public (m.iv ++ m.ciphertext) m.signature ≡ true)
        × (aes_gcm_decrypt c (message_key c seed m.iteration) m.iv m.ciphertext ≡ x.1)
        × (x.0.iteration ≤ r.iteration + 2000)
  decrypt_message_authentic seed r m f z =
      let o = Outcome-IsOpened (decrypt_message-Outcome c public r m) f z in (o.0.0, o.0.1, o.2)

  Outcome-Spent :
      {seed : Bytes} {r : Receiver} {m : EncryptedMessage} {x : Receiver × Bytes}
      → Outcome c public r m x
      → Follows c seed r
      → (n : ℕ) → Spent n r
      → Spent n x.0
  Outcome-Spent refused f n s = s
  Outcome-Spent {seed} {r} {m} (consumed key plain v e o h) f n s = record {
    passed = s.passed;
    absent = ground (arith, lookup-remove m.iteration n r.skipped, s.absent);
  }
  Outcome-Spent {seed} {r} {m} (advanced w plain v e l l' q o h) f n s =
      let t = walk-Tracks c seed r m w f l q in
      record {
        passed = omega (arith, t.1, s.passed);
        absent =
            committed_absent seed r n m.iteration w f t.0 l s.absent
              (lookup-Between_low r.iteration m.iteration n w.pending t.0.between s.passed);
      }

  receive_all-Spent :
      (seed : Bytes) (ms : List EncryptedMessage) (r : Receiver) (n : ℕ)
      → Follows c seed r
      → Spent n r
      → Spent n (receive_all r ms).0
  unfolding receive_all
  receive_all-Spent seed [] r n f s = s
  receive_all-Spent seed (m ∷ ms) r n f s =
      let o = decrypt_message-Outcome c public r m in
      receive_all-Spent seed ms (decrypt_message c public r m).0 n (Outcome-Follows c o f)
        (Outcome-Spent o f n s)

  Outcome-Spent_empty :
      {r : Receiver} {m : EncryptedMessage} {x : Receiver × Bytes}
      → Outcome c public r m x
      → Spent m.iteration r
      → x.1 ≡ []
  Outcome-Spent_empty refused s = refl
  Outcome-Spent_empty (consumed key plain v e o h) s = absurd (ground (arith, s.absent))
  Outcome-Spent_empty (advanced w plain v e l l' q o h) s = absurd (omega (arith, s.passed))

  -- No replay: where a receiver on its sender's chain has read a message, then, after any further
  -- messages, no message of the same iteration gives anything.
  pub decrypt_message_once :
      (seed : Bytes) (r : Receiver) (m again : EncryptedMessage) (between : List EncryptedMessage)
      → Follows c seed r
      → is_empty (decrypt_message c public r m).1 ≡ false
      → again.iteration ≡ m.iteration
      → (decrypt_message c public (receive_all (decrypt_message c public r m).0 between).0 again).1
        ≡ []
  decrypt_message_once seed r m again between f z e =
      let o = decrypt_message-Outcome c public r m in
      let s =
        receive_all-Spent seed between (decrypt_message c public r m).0 m.iteration
          (Outcome-Follows c o f) (Outcome-IsOpened o f z).1 in
      let later = (receive_all (decrypt_message c public r m).0 between).0 in
      Outcome-Spent_empty (decrypt_message-Outcome c public later again)
        (subst (λ (n : ℕ). Spent n later) (sym e) s)
