-- ===== src/NonceCache/Laws.antt =====
-- NonceCache: which nonces are refused, and for how long.
use xlchat_project.Common.{
  ℕ, ◌+◌, ◌/◌, ◌≤◌, ◌≡◌, true, false, some, arith, Text, is_empty, text_eq_iff, not, ltb,
}
use xlchat_project.Common.Dict.{
  text_eq_inst, lookup, lookup-insert, lookup-retain_keep, beq_refl, Distinct, retain-Distinct,
  insert-Distinct,
}
use xlchat_project.NonceCache.{
  NonceCache, sweep, lazy_sweep, shed, is_replay, record_nonce, check_and_insert,
}

-- The cache has seen `nonce` at second `seen`.
abbrev pub Seen : NonceCache → Text → ℕ → Type 0
Seen c nonce seen = lookup nonce c.nonces ≡ some seen

lazy_sweep_keeps :
    (c : NonceCache) (nonce : Text) (seen now : ℕ)
    → Seen c nonce seen
    → now ≤ seen + c.ttl_seconds
    → Seen (lazy_sweep c now) nonce seen
unfolding lazy_sweep
lazy_sweep_keeps c nonce seen now h le =
    ground
      (arith, lookup-retain_keep (λ _ s. not (ltb (s + c.ttl_seconds) now)) nonce seen c.nonces)

shed_keeps :
    (c : NonceCache) (nonce : Text) (seen now : ℕ)
    → Seen c nonce seen
    → now ≤ seen + c.ttl_seconds / 2
    → Seen (shed c now) nonce seen
unfolding shed
shed_keeps c nonce seen now h le =
    ground
      (arith, lookup-retain_keep (λ _ s. not (ltb (s + c.ttl_seconds / 2) now)) nonce seen c.nonces)

-- The limits are never changed.
pub check_and_insert_limits :
    (c : NonceCache) (nonce : Text) (now : ℕ)
    → ((check_and_insert c nonce now).0.ttl_seconds ≡ c.ttl_seconds)
      × ((check_and_insert c nonce now).0.max_entries ≡ c.max_entries)
unfolding check_and_insert lazy_sweep record_nonce shed
check_and_insert_limits c nonce now = ground arith

-- A nonce that was seen at most the time to live ago is refused.
pub check_and_insert-Seen :
    (c : NonceCache) (nonce : Text) (seen now : ℕ)
    → Seen c nonce seen
    → now ≤ seen + c.ttl_seconds
    → (check_and_insert c nonce now).1 ≡ false
unfolding check_and_insert lazy_sweep is_replay
check_and_insert-Seen c nonce seen now h le = ground (arith, lazy_sweep_keeps c nonce seen now)

-- A nonce let through is on record with the time of the call, and is not the empty text.
pub check_and_insert_accepts :
    (c : NonceCache) (nonce : Text) (now : ℕ)
    → (check_and_insert c nonce now).1 ≡ true
    → Seen (check_and_insert c nonce now).0 nonce now × (is_empty nonce ≡ false)
unfolding check_and_insert record_nonce
check_and_insert_accepts c nonce now h =
    ground
      (arith, lookup-insert nonce nonce now (shed (lazy_sweep c now) now).nonces, beq_refl nonce)

-- A call within half the time to live keeps what was seen.
pub check_and_insert_keeps :
    (c : NonceCache) (nonce other : Text) (seen now : ℕ)
    → Seen c nonce seen
    → now ≤ seen + c.ttl_seconds / 2
    → Seen (check_and_insert c other now).0 nonce seen
unfolding check_and_insert record_nonce is_replay
check_and_insert_keeps c nonce other seen now h le = ground (
  arith,
  lazy_sweep_keeps c nonce seen now,
  shed_keeps (lazy_sweep c now) nonce seen now,
  lookup-insert other nonce now (shed (lazy_sweep c now) now).nonces,
  text_eq_iff other nonce,
)

-- The keys of the table stay distinct, so its size is the number of nonces on record.
pub check_and_insert-Distinct :
    (c : NonceCache) (nonce : Text) (now : ℕ)
    → Distinct c.nonces
    → Distinct (check_and_insert c nonce now).0.nonces
unfolding check_and_insert record_nonce lazy_sweep shed
check_and_insert-Distinct c nonce now d = ground (
  arith,
  retain-Distinct (λ _ s. not (ltb (s + c.ttl_seconds) now)) c.nonces d,
  retain-Distinct (λ _ s. not (ltb (s + c.ttl_seconds / 2) now)) c.nonces d,
  retain-Distinct (λ _ s. not (ltb (s + c.ttl_seconds / 2) now)) (sweep c now),
  insert-Distinct nonce now (shed (lazy_sweep c now) now).nonces,
)
