-- ===== src/NonceCache/Tests.antt =====
-- The nonce cache on concrete calls.
use xlchat_project.Common.{
  ℕ, suc, ◌<◌, ◌≡◌, refl, ap, true, false, some, [], ◌∷◌, arith, Text, text_eq, ◌≢◌,
}
use xlchat_project.Common.Dict.{lookup, insert, remove, retain, text_eq_inst}
use xlchat_project.NonceCache.{
  NonceCache, check_and_insert, lazy_sweep, is_replay, record_nonce, sweep, shed, size,
}
use xlchat_project.NonceCache.Replay.{
  Stamp, checks, purges, check_replay_protection, check_timestamp, check_nonce, run,
  check_replay_protection_once,
}
use xlchat_project.NonceCache.Limits.{check_and_insert_over_limit, check_and_insert_forgets}

abbrev one : Text
one = 49 ∷ []

abbrev two : Text
two = 50 ∷ []

abbrev three : Text
three = 51 ∷ []

abbrev cache : NonceCache
cache = record { nonces = (two, 900) ∷ []; ttl_seconds = 600; max_entries = 2 }

abbrev cache_after : NonceCache
cache_after = record { nonces = (one, 1000) ∷ (two, 900) ∷ []; ttl_seconds = 600; max_entries = 2 }

abbrev stamp : Stamp
stamp = record { timestamp = some 990; nonce = one }

accepted : check_replay_protection (some cache) stamp 1000 1000 ≡ (some cache_after, true)
unfolding check_replay_protection check_timestamp check_nonce check_and_insert lazy_sweep is_replay
    record_nonce sweep shed lookup text_eq insert remove
accepted = refl

check_replay_protection_once_example :
    (check_replay_protection
      (some (run cache_after (checks three 1100 ∷ purges 1200 ∷ [])))
      stamp
      1250
      1251).1
    ≡ false
check_replay_protection_once_example =
    check_replay_protection_once cache cache_after stamp 990 1000 1000 1250 1251
      (checks three 1100 ∷ purges 1200 ∷ []) refl refl (omega arith) accepted
      (omega arith, (omega arith, tt)) (omega arith)

-- A full cache of recent entries.
abbrev full : NonceCache
full = record { nonces = (two, 900) ∷ (three, 950) ∷ []; ttl_seconds = 600; max_entries = 2 }

check_and_insert_over_limit_example :
    ((check_and_insert full one 1000).1 ≡ true)
    × (size (check_and_insert full one 1000).0 ≡ suc (size full))
    × (2 < size (check_and_insert full one 1000).0)
unfolding size lookup text_eq
check_and_insert_over_limit_example =
    check_and_insert_over_limit full one 1000 (refl, (refl, tt)) refl refl (omega arith)

abbrev first : Text → ℕ
first [] = 0
first (c ∷ cs) = c

apart : one ≢ two
apart = λ e. omega (arith, ap first e)

-- At 1300 the nonce two was seen 400 seconds ago.
check_and_insert_forgets_example :
    (check_and_insert (check_and_insert full one 1300).0 two 1300).1 ≡ true
unfolding check_and_insert lazy_sweep is_replay lookup text_eq size retain sweep
check_and_insert_forgets_example =
    check_and_insert_forgets full two one 900 1300 (refl, (refl, tt)) refl (omega arith)
      (omega arith) refl (omega arith) apart refl
