-- ===== src/NonceCache.antt =====
-- Chat-Server/core/NonceCache.{h,cpp}: the nonces seen by all connections, with their first times.
-- The mutex makes each call one step; `now` is the clock's Unix second that the call reads.
pub mod Laws
pub mod Replay
pub mod Limits
mod Tests
use xlchat_project.Common.{
  ℕ, ◌+◌, ◌/◌, ◌≡◌, Bool, true, false, Option, none, some, List, [], ◌∷◌, leb, ltb, not, ◌&&◌,
  if◌then◌else◌, Text, is_empty, length,
}
use xlchat_project.Common.Dict.{Dict, text_eq_inst, lookup, insert, retain}

pub record NonceCache : Type 0 where
  pub nonces : Dict Text ℕ
  pub ttl_seconds : ℕ
  pub max_entries : ℕ

unfoldable pub create : ℕ → ℕ → NonceCache
create ttl max = record { nonces = []; ttl_seconds = ttl; max_entries = max }

-- `now - seen > m_ttlSeconds` over qint64, with the sum on the other side.
abbrev pub is_expired : NonceCache → ℕ → ℕ → Bool
is_expired c now seen = ltb (seen + c.ttl_seconds) now

-- The sweep of `checkAndInsert` and of `purgeExpired`.
unfoldable pub sweep : NonceCache → ℕ → Dict Text ℕ
sweep c now = retain (λ _ seen. not (is_expired c now seen)) c.nonces

unfoldable pub purge_expired : NonceCache → ℕ → NonceCache
unfolding sweep
purge_expired c now = record c { nonces = sweep c now }

-- Lazy sweep, once the table is over half full.
unfoldable pub lazy_sweep : NonceCache → ℕ → NonceCache
unfolding sweep
lazy_sweep c now =
    if ltb (c.max_entries / 2) (length c.nonces) then record c { nonces = sweep c now } else c

-- At the hard limit the entries older than half the time to live go:
-- `seen < now - m_ttlSeconds / 2`.
unfoldable pub shed : NonceCache → ℕ → NonceCache
shed c now =
    if leb c.max_entries (length c.nonces)
    then record c { nonces = retain (λ _ seen. not (ltb (seen + c.ttl_seconds / 2) now)) c.nonces }
    else c

unfoldable pub is_replay : NonceCache → Text → ℕ → Bool
is_replay c nonce now = elim (lookup nonce c.nonces) [
  | none ↦ false
  | some seen ↦ leb now (seen + c.ttl_seconds)
]

unfoldable pub record_nonce : NonceCache → Text → ℕ → NonceCache
unfolding shed
record_nonce c nonce now = let s = shed c now in record s { nonces = insert nonce now s.nonces }

unfoldable pub check_and_insert : NonceCache → Text → ℕ → NonceCache × Bool
unfolding lazy_sweep is_replay record_nonce
check_and_insert c nonce now =
    let s = lazy_sweep c now in
    if is_empty nonce
    then (c, false)
    else if is_replay s nonce now
    then (s, false)
    else (record_nonce s nonce now, true)

unfoldable pub size : NonceCache → ℕ
size c = length c.nonces
