-- ===== src/NonceCache/Replay.antt =====
-- RequestHandler::checkReplayProtection over the shared cache: no request is accepted twice.
use xlchat_project.Common.{
  ℕ, ◌+◌, ◌/◌, ◌≤◌, ◌<◌, ◌≡◌, refl, Bool, true, false, Option, none, some, List, [], ◌∷◌, arith,
  All, Text, is_empty, length, ltb, if◌then◌else◌, ◌||◌, ◌==◌, not, ◌∙◌,
}
use native.Mathlib.Decide.{dec_lt}
use xlchat_project.Common.Dict.{text_eq_inst, lookup-retain_keep}
use xlchat_project.NonceCache.{NonceCache, purge_expired, check_and_insert}
use xlchat_project.NonceCache.Laws.{
  Seen, check_and_insert_limits, check_and_insert-Seen, check_and_insert_accepts,
  check_and_insert_keeps,
}

-- ReplayTimestampToleranceSecs
abbrev pub tolerance : ℕ
tolerance = 300

-- What the check reads of a request: the timestamp, `none` where it is missing or no number and 0
-- for every number that is not positive, and the nonce as Qt's `trimmed` returns it.
pub record Stamp : Type 0 where
  pub timestamp : Option ℕ
  pub nonce : Text

-- `qAbs(now - timestamp) > ReplayTimestampToleranceSecs`
abbrev pub out_of_window : ℕ → ℕ → Bool
out_of_window now timestamp = ltb (timestamp + tolerance) now || ltb (now + tolerance) timestamp

-- From the nonce on. The cache reads the clock for itself, at `cache_now`.
unfoldable pub check_nonce : Option NonceCache → Text → ℕ → Option NonceCache × Bool
check_nonce cache nonce cache_now =
    if is_empty nonce || ltb 128 (length nonce) then (cache, false) else elim cache [
      | none ↦ (none, false)
      | some c ↦
          (some (check_and_insert c nonce cache_now).0, (check_and_insert c nonce cache_now).1)
    ]

unfoldable pub check_timestamp : Option NonceCache → Text → ℕ → ℕ → ℕ → Option NonceCache × Bool
unfolding check_nonce
check_timestamp cache nonce timestamp now cache_now =
    if timestamp == 0 || out_of_window now timestamp
    then (cache, false)
    else check_nonce cache nonce cache_now

unfoldable pub check_replay_protection :
    Option NonceCache → Stamp → ℕ → ℕ → Option NonceCache × Bool
unfolding check_timestamp
check_replay_protection cache s now cache_now = elim s.timestamp [
  | none ↦ (cache, false)
  | some t ↦ check_timestamp cache s.nonce t now cache_now
]

-- What other connections do to the cache in between, each call with its time.
pub data CacheCall : Type 0 where
  checks : Text → ℕ → CacheCall
  purges : ℕ → CacheCall

abbrev pub time_of : CacheCall → ℕ
time_of (checks nonce t) = t
time_of (purges t) = t

unfoldable pub run : NonceCache → List CacheCall → NonceCache
run c [] = c
run c (checks nonce t ∷ cs) = run (check_and_insert c nonce t).0 cs
run c (purges t ∷ cs) = run (purge_expired c t) cs

purge_expired_keeps :
    (c : NonceCache) (nonce : Text) (seen now : ℕ)
    → Seen c nonce seen
    → now ≤ seen + c.ttl_seconds / 2
    → Seen (purge_expired c now) nonce seen
unfolding purge_expired
purge_expired_keeps c nonce seen now h le =
    lookup-retain_keep (λ _ s. not (ltb (s + c.ttl_seconds) now)) nonce seen c.nonces h
      (ground arith)

run_keeps :
    (c : NonceCache) (cs : List CacheCall) (nonce : Text) (seen last : ℕ)
    → Seen c nonce seen
    → last ≤ seen + c.ttl_seconds / 2
    → All (λ call. time_of call ≤ last) cs
    → Seen (run c cs) nonce seen × ((run c cs).ttl_seconds ≡ c.ttl_seconds)
unfolding run purge_expired
run_keeps c [] nonce seen last h le t = (h, refl)
run_keeps c (checks other t ∷ cs) nonce seen last h le (ht, hts) =
    let same = (check_and_insert_limits c other t).0 in
    let r =
      run_keeps (check_and_insert c other t).0 cs nonce seen last
        (check_and_insert_keeps c nonce other seen t h (omega arith)) (rw same le) hts in
    (r.0, r.1 ∙ same)
run_keeps c (purges t ∷ cs) nonce seen last h le (ht, hts) =
    run_keeps (purge_expired c t) cs nonce seen last
      (purge_expired_keeps c nonce seen t h (omega arith)) le hts

accepted-Seen :
    (c c' : NonceCache) (s : Stamp) (now cache_now : ℕ)
    → check_replay_protection (some c) s now cache_now ≡ (some c', true)
    → Seen c' s.nonce cache_now × (c'.ttl_seconds ≡ c.ttl_seconds)
unfolding check_replay_protection
accepted-Seen c c' s now cache_now h = ground (
  arith,
  check_and_insert_accepts c s.nonce cache_now,
  check_and_insert_limits c s.nonce cache_now,
)

Seen-refused :
    (c : NonceCache) (s : Stamp) (seen now cache_now : ℕ)
    → Seen c s.nonce seen
    → cache_now ≤ seen + c.ttl_seconds
    → (check_replay_protection (some c) s now cache_now).1 ≡ false
unfolding check_replay_protection
Seen-refused c s seen now cache_now h le =
    ground (arith, check_and_insert-Seen c s.nonce seen cache_now h le)

too_old_refused :
    (cache : Option NonceCache) (s : Stamp) (t now cache_now : ℕ)
    → s.timestamp ≡ some t
    → t + tolerance < now
    → (check_replay_protection cache s now cache_now).1 ≡ false
unfolding check_replay_protection
too_old_refused cache s t now cache_now e h = ground arith

-- With the server's time to live of 600 seconds: once a request whose timestamp is not ahead of the
-- server's clock has been accepted, the same request is refused at any later time, whatever calls
-- on the cache came in between, even when its limit made it drop entries. The two clock reads of
-- the second check are at most the tolerance apart.
pub check_replay_protection_once :
    (c c' : NonceCache) (s : Stamp) (t now cache_now later cache_later : ℕ) (cs : List CacheCall)
    → c.ttl_seconds ≡ 600
    → s.timestamp ≡ some t
    → t ≤ cache_now
    → check_replay_protection (some c) s now cache_now ≡ (some c', true)
    → All (λ call. time_of call ≤ later) cs
    → cache_later ≤ later + tolerance
    → (check_replay_protection (some (run c' cs)) s later cache_later).1 ≡ false
check_replay_protection_once c c' s t now cache_now later cache_later cs ttl e ahead h calls near =
    elim (dec_lt (t + tolerance) later) [
      | yes old ↦ too_old_refused _ s t later cache_later e old
      | no recent ↦
          let a = accepted-Seen c c' s now cache_now h in
          let k = run_keeps c' cs s.nonce cache_now later a.0 (omega (arith, a.1)) calls in
          Seen-refused (run c' cs) s cache_now later cache_later k.0 (omega (arith, k.1, a.1))
    ]

-- Without a cache every request is refused.
pub check_replay_protection_no_cache :
    (s : Stamp) (now cache_now : ℕ) → check_replay_protection none s now cache_now ≡ (none, false)
unfolding check_replay_protection
check_replay_protection_no_cache s now cache_now = ground arith
