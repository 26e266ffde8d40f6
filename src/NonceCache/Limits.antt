-- ===== src/NonceCache/Limits.antt =====
-- NonceCache at its limit of entries.
use xlchat_project.Common.{
  ℕ, suc, ◌+◌, ◌/◌, ◌≤◌, ◌<◌, ◌≡◌, ◌≢◌, Bool, true, false, none, [], ◌∷◌, arith, Text, is_empty,
  ltb, not, text_eq_iff, ◌∙◌,
}
use xlchat_project.Common.Dict.{
  Dict, text_eq_inst, lookup, Distinct, Keeps, retain_all, insert, remove_absent, lookup-insert,
  lookup-retain, lookup-retain-none, lookup-retain_keep, retain-Distinct,
}
use xlchat_project.NonceCache.{
  NonceCache, lazy_sweep, shed, is_replay, record_nonce, check_and_insert, size,
}
use xlchat_project.NonceCache.Laws.{Seen}

-- Entry by entry: seen at most half the time to live before `now`.
abbrev pub is_recent : NonceCache → ℕ → Text → ℕ → Bool
is_recent c now nonce seen = not (ltb (seen + c.ttl_seconds / 2) now)

recent_unexpired :
    (c : NonceCache) (now : ℕ) (m : Dict Text ℕ)
    → Keeps (is_recent c now) m
    → Keeps (λ _ seen. not (ltb (seen + c.ttl_seconds) now)) m
recent_unexpired c now [] h = h
recent_unexpired c now ((k, v) ∷ m) h = ground (arith, recent_unexpired c now m h.1)

-- `max_entries` does not bound the table: a full cache whose entries are all recent takes every new
-- nonce, unless it is empty, on top of them.
pub check_and_insert_over_limit :
    (c : NonceCache) (nonce : Text) (now : ℕ)
    → Keeps (is_recent c now) c.nonces
    → lookup nonce c.nonces ≡ none
    → is_empty nonce ≡ false
    → c.max_entries ≤ size c
    → ((check_and_insert c nonce now).1 ≡ true)
      × (size (check_and_insert c nonce now).0 ≡ suc (size c))
      × (c.max_entries < size (check_and_insert c nonce now).0)
unfolding check_and_insert lazy_sweep record_nonce shed is_replay size insert
check_and_insert_over_limit c nonce now k fresh ne full = ground (
  arith,
  retain_all (is_recent c now) c.nonces k,
  retain_all (λ _ seen. not (ltb (seen + c.ttl_seconds) now)) c.nonces
      (recent_unexpired c now c.nonces k),
  remove_absent nonce c.nonces fresh,
)

-- A nonce that is not on record is let through.
unseen_accepted :
    (c : NonceCache) (nonce : Text) (now : ℕ)
    → lookup nonce c.nonces ≡ none
    → is_empty nonce ≡ false
    → (check_and_insert c nonce now).1 ≡ true
unfolding check_and_insert lazy_sweep is_replay
unseen_accepted c nonce now h ne =
    ground
      (arith, lookup-retain-none (λ _ seen. not (ltb (seen + c.ttl_seconds) now)) nonce c.nonces)

shed_drops :
    (c : NonceCache) (nonce : Text) (seen now : ℕ)
    → Distinct c.nonces
    → Seen c nonce seen
    → seen + c.ttl_seconds / 2 < now
    → c.max_entries ≤ size c
    → lookup nonce (shed c now).nonces ≡ none
unfolding shed size
shed_drops c nonce seen now d h old full =
    ground (arith, lookup-retain (is_recent c now) nonce c.nonces d)

swept :
    (c : NonceCache) (nonce : Text) (seen now : ℕ)
    → Distinct c.nonces
    → Seen c nonce seen
    → now ≤ seen + c.ttl_seconds
    → Distinct (lazy_sweep c now).nonces
      × Seen (lazy_sweep c now) nonce seen
      × ((lazy_sweep c now).ttl_seconds ≡ c.ttl_seconds)
      × ((lazy_sweep c now).max_entries ≡ c.max_entries)
unfolding lazy_sweep
swept c nonce seen now d h young =
    let p : Text → ℕ → Bool = λ _ s. not (ltb (s + c.ttl_seconds) now) in
    ground (
      arith,
      retain-Distinct p c.nonces d,
      lookup-retain_keep p nonce seen c.nonces h (ground arith),
    )

inserted :
    (c : NonceCache) (nonce other : Text) (now : ℕ)
    → other ≢ nonce
    → (check_and_insert c other now).1 ≡ true
    → lookup nonce (check_and_insert c other now).0.nonces
      ≡ lookup nonce (shed (lazy_sweep c now) now).nonces
unfolding check_and_insert record_nonce
inserted c nonce other now apart h = ground (
  arith,
  lookup-insert other nonce now (shed (lazy_sweep c now) now).nonces,
  text_eq_iff other nonce,
)

-- A full cache forgets nonces that have not expired: one seen more than half the time to live ago
-- (but not the whole of it) is dropped when another nonce is let through, and is then itself let
-- through a second time.
pub check_and_insert_forgets :
    (c : NonceCache) (nonce other : Text) (seen now : ℕ)
    → Distinct c.nonces
    → Seen c nonce seen
    → seen + c.ttl_seconds / 2 < now
    → now ≤ seen + c.ttl_seconds
    → is_empty nonce ≡ false
    → c.max_entries ≤ size (lazy_sweep c now)
    → other ≢ nonce
    → (check_and_insert c other now).1 ≡ true
    → (check_and_insert (check_and_insert c other now).0 nonce now).1 ≡ true
check_and_insert_forgets c nonce other seen now d h old young ne full apart accepted =
    let s = swept c nonce seen now d h young in
    unseen_accepted (check_and_insert c other now).0 nonce now
      (inserted c nonce other now apart accepted
        ∙ shed_drops (lazy_sweep c now) nonce seen now s.0 s.1 (omega (arith, s.2))
            (omega (arith, s.3)))
      ne
