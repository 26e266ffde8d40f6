-- ===== src/Ratchet/Outcome.antt =====
-- The three ways in which a call of decryptMessage ends.
use xlchat_project.Common.{
  ◌+◌, ◌-◌, ◌<◌, ◌≤◌, ◌≡◌, refl, sym, subst, inl, inr, Option-cases, Bool-cases, true, false, ◌&&◌,
  ◌||◌, none, some, [], length, leb, ltb, ◌==◌, arith, is_empty,
}
use xlchat_project.Common.Dict.{nat_eq, lookup, remove}
use xlchat_project.Ratchet.{Bytes, Crypto, EncryptedMessage, derive_message_key}
use xlchat_project.Ratchet.Skipped.{put_all, trim_skipped}
use xlchat_project.Ratchet.Receive.{
  Receiver, Walk, is_acceptable, ratchet_to, open_message, commit, consume, advance,
  decrypt_message,
}

abbrev pub walk_start : Receiver → Walk
walk_start r = record { chain_key = r.chain_key; iteration = r.iteration; pending = [] }

abbrev pub committed : Receiver → Walk → Receiver
committed r w = record {
  chain_key = w.chain_key;
  iteration = w.iteration;
  skipped = trim_skipped (put_all w.pending r.skipped);
}

module _ (c : Crypto) (public : Bytes) where
  pub data Outcome (r : Receiver) (m : EncryptedMessage) : Receiver × Bytes → Type 0 where
    refused : Outcome r m (r, [])
    consumed :
        (key plain : Bytes)
        → is_acceptable m ≡ true
        → lookup m.iteration r.skipped ≡ some key
        → open_message c public key m ≡ plain
        → is_empty plain ≡ false
        → Outcome r m (record r { skipped = remove m.iteration r.skipped }, plain)
    advanced :
        (w : Walk) (plain : Bytes)
        → is_acceptable m ≡ true
        → lookup m.iteration r.skipped ≡ none
        → r.iteration < m.iteration
        → m.iteration ≤ r.iteration + 2000
        → ratchet_to c m.iteration (m.iteration - r.iteration) (walk_start r) ≡ some w
        → open_message c public (derive_message_key c w.chain_key w.iteration) m ≡ plain
        → is_empty plain ≡ false
        → Outcome r m (committed r w, plain)

  consume-Outcome :
      (r : Receiver) (m : EncryptedMessage) (key : Bytes)
      → is_acceptable m ≡ true
      → lookup m.iteration r.skipped ≡ some key
      → Outcome r m (consume c public r m key)
  unfolding consume
  consume-Outcome r m key v e = elim (Bool-cases (is_empty (open_message c public key m))) [
    | inl h ↦ rw h refused
    | inr h ↦ rw h (consumed key (open_message c public key m) v e refl h)
  ]

  when_equal :
      (r : Receiver) (m : EncryptedMessage) (x y : Receiver × Bytes)
      → x ≡ y
      → Outcome r m y
      → Outcome r m x
  when_equal r m x y e o = subst (Outcome r m) (sym e) o

  commit-Outcome :
      (r : Receiver) (m : EncryptedMessage) (w : Walk)
      → is_acceptable m ≡ true
      → lookup m.iteration r.skipped ≡ none
      → r.iteration < m.iteration
      → m.iteration ≤ r.iteration + 2000
      → ratchet_to c m.iteration (m.iteration - r.iteration) (walk_start r) ≡ some w
      → Outcome r m (commit c public r m w)
  unfolding commit
  commit-Outcome r m w v e l h q =
      let key = derive_message_key c w.chain_key w.iteration in
      elim (Bool-cases (is_empty key)) [
        | inl k ↦ when_equal r m (commit c public r m w) (r, []) (ground (arith, k)) refused
        | inr k ↦ elim (Bool-cases (is_empty (open_message c public key m))) [
          | inl o ↦ when_equal r m (commit c public r m w) (r, []) (ground (arith, k, o)) refused
          | inr o ↦
              when_equal r m (commit c public r m w) (committed r w, open_message c public key m)
                (ground (arith, k, o)) (advanced w (open_message c public key m) v e l h q refl o)
        ]
      ]

  advance-Outcome :
      (r : Receiver) (m : EncryptedMessage)
      → is_acceptable m ≡ true
      → lookup m.iteration r.skipped ≡ none
      → r.iteration < m.iteration
      → m.iteration ≤ r.iteration + 2000
      → Outcome r m (advance c public r m)
  unfolding advance
  advance-Outcome r m v e l h =
      elim (Option-cases (ratchet_to c m.iteration (m.iteration - r.iteration) (walk_start r))) [
        | inl q ↦ when_equal r m (advance c public r m) (r, []) (ground (arith, q)) refused
        | inr (w, q) ↦
            when_equal r m (advance c public r m) (commit c public r m w) (ground (arith, q))
              (commit-Outcome r m w v e l h q)
      ]

  pub decrypt_message-Outcome :
      (r : Receiver) (m : EncryptedMessage) → Outcome r m (decrypt_message c public r m)
  unfolding decrypt_message
  decrypt_message-Outcome r m =
      let refuse : decrypt_message c public r m ≡ (r, [])
          → Outcome r m (decrypt_message c public r m) =
        λ e. when_equal r m (decrypt_message c public r m) (r, []) e refused in
      elim (Bool-cases (is_acceptable m && length r.chain_key == 32)) [
        | inr v ↦ refuse (ground (arith, v))
        | inl v ↦
            let wf : is_acceptable m ≡ true = ground (arith, v) in
            elim (Option-cases (lookup m.iteration r.skipped)) [
              | inr (key, e) ↦
                  when_equal r m (decrypt_message c public r m) (consume c public r m key)
                    (ground (arith, v, e)) (consume-Outcome r m key wf e)
              | inl e ↦
                  elim (Bool-cases
                    (leb m.iteration r.iteration || ltb 2000 (m.iteration - r.iteration))) [
                      | inl h ↦ refuse (ground (arith, v, e, h))
                      | inr h ↦
                          when_equal r m (decrypt_message c public r m) (advance c public r m)
                            (ground (arith, v, e, h))
                            (advance-Outcome r m wf e (ground (arith, h)) (ground (arith, h)))
                    ]
            ]
      ]
