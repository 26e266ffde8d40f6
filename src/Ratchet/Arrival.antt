-- ===== src/Ratchet/Arrival.antt =====
-- HKDF keeps the sizes of keys, so the local chain of a call arrives at its message.
use xlchat_project.Common.{
  ℕ, zero, suc, ◌<◌, ◌≡◌, refl, sym, subst, ap, false, some, [], ◌++◌, length, ltb, arith, is_empty,
  if◌then◌else◌, codes, not_empty,
}
use xlchat_project.Common.Dict.{nat_eq}
use xlchat_project.Ratchet.{Bytes, Crypto, hkdf_single, ratchet_chain_key, derive_message_key}
use xlchat_project.Ratchet.Skipped.{put}
use xlchat_project.Ratchet.Receive.{Receiver, Walk, ratchet_step, ratchet_to}
use xlchat_project.Ratchet.Chain.{chain_at, message_key}

module _ (c : Crypto) where
  -- HKDF-SHA256 derives 32 bytes from a key of 32 bytes.
  abbrev pub Derives : Type 0
  Derives =
      (key salt info : Bytes)
      → length key ≡ 32
      → (derived : Bytes) × (c.hkdf key salt info ≡ some derived) × (length derived ≡ 32)

  pub hkdf_single_size :
      (key salt info : Bytes)
      → Derives
      → length key ≡ 32
      → length (hkdf_single c key salt info) ≡ 32
  unfolding hkdf_single
  hkdf_single_size key salt info d h = let x = d key salt info h in ground (arith, x.1, x.2)

  pub chain_at_size :
      (seed : Bytes) (n : ℕ) → Derives → length seed ≡ 32 → length (chain_at c seed n) ≡ 32
  unfolding ratchet_chain_key
  chain_at_size seed zero d h = h
  chain_at_size seed (suc n) d h =
      let k = chain_at_size seed n d h in
      ground (arith, k, hkdf_single_size (chain_at c seed n) (codes "xychat-grp-chain") [] d k)

  pub message_key_size :
      (seed : Bytes) (n : ℕ) → Derives → length seed ≡ 32 → length (message_key c seed n) ≡ 32
  unfolding derive_message_key
  message_key_size seed n d h =
      let k = chain_at_size seed n d h in
      ground (
        arith,
        k,
        hkdf_single_size (chain_at c seed n) (codes "xychat-grp-chain")
            (codes "xychat-grp-msg" ++ c.number n) d k,
      )

  pub step_arrives :
      (seed : Bytes) (target : ℕ) (w : Walk)
      → Derives
      → length seed ≡ 32
      → w.chain_key ≡ chain_at c seed w.iteration
      → (v : Walk) × (ratchet_step c target w ≡ some v)
        × (v.chain_key ≡ chain_at c seed v.iteration)
  unfolding ratchet_step
  step_arrives seed target w d h e =
      let n = suc w.iteration in
      let next = ratchet_chain_key c w.chain_key in
      let key = derive_message_key c next n in
      let chain : next ≡ chain_at c seed n = ap (ratchet_chain_key c) e in
      let there : is_empty next ≡ false = not_empty next (
        subst (λ (k : Bytes). 0 < length k) (sym chain)
          (omega (arith, chain_at_size seed n d h))) in
      let known : is_empty key ≡ false = not_empty key (
        subst (λ (k : Bytes). 0 < length (derive_message_key c k n)) (sym chain)
          (omega (arith, message_key_size seed n d h))) in
      (
        record {
          chain_key = next;
          iteration = n;
          pending = if ltb n target then put n key w.pending else w.pending;
        },
        ground (arith, there, known),
        chain,
      )

  pub ratchet_to_arrives :
      (seed : Bytes) (target turns : ℕ) (w : Walk)
      → Derives
      → length seed ≡ 32
      → w.chain_key ≡ chain_at c seed w.iteration
      → (v : Walk) × (ratchet_to c target turns w ≡ some v)
  unfolding ratchet_to
  ratchet_to_arrives seed target zero w d h e = (w, refl)
  ratchet_to_arrives seed target (suc n) w d h e =
      let s = step_arrives seed target w d h e in
      let rest = ratchet_to_arrives seed target n s.0 d h s.2 in
      (rest.0, ground (arith, s.1, rest.1))

  -- A receiver that takes over the chain of a sender.
  abbrev pub joins : Bytes → ℕ → Receiver
  joins seed base = record { chain_key = chain_at c seed base; iteration = base; skipped = [] }
