-- ===== src/Examples/Limits.antt =====
-- Tests of the rate limiter, the lock and the block list.
use ev211_field_server.Base.{
  arith, ℕ, ◌≡◌, ◌≤◌, ◌<◌, ◌+◌, refl, true, false, some, List, [], ◌∷◌, codes, length, count_of,
  ltb, text_eq, seconds, Text,
}
use ev211_field_server.RateLimit.{RateLimiter, new_limiter, check, FailureLock, is_locked}
use ev211_field_server.RateLimit.Window.{accepted, in_minute, accepted_per_minute}
use ev211_field_server.RateLimit.Retry.{retry_honoured}
use ev211_field_server.RateLimit.Locking.{fail_at, last_or, locks_at_limit}
use ev211_field_server.Examples.Program.{whole_program}

abbrev key_one : Text
key_one = codes "1.2.3.4"

abbrev three_calls : List (ℕ × Text)
three_calls = (1, key_one) ∷ (2, key_one) ∷ (3, key_one) ∷ []

accepted_per_minute_example :
    count_of (in_minute 0) (accepted (new_limiter 2) key_one three_calls) ≤ 2
unfolding whole_program
accepted_per_minute_example =
    accepted_per_minute 2 key_one three_calls 0 (omega arith, (omega arith, (omega arith, tt)))

-- A limiter whose minute is full.
abbrev full : RateLimiter
full = record { per_minute = 1; hits = (key_one, 10 ∷ []) ∷ [] }

retry_honoured_example :
    (check (check full 20 key_one).1 (20 + seconds 60) key_one).0 ≡ some (true, 0)
unfolding whole_program
retry_honoured_example =
    retry_honoured full 20 (20 + seconds 60) 60 key_one (omega arith) refl (omega arith)

abbrev unlocked : FailureLock
unlocked = record { fail_limit = 2; lock_seconds = 60; fails = []; locked_until = [] }

abbrev two_failures : List ℕ
two_failures = 5 ∷ 6 ∷ []

locks_at_limit_example :
    (length two_failures < 2
      → (is_locked (fail_at unlocked key_one two_failures) 7 key_one).0 ≡ false)
    × (length two_failures ≡ 2
        → (is_locked (fail_at unlocked key_one two_failures) 7 key_one).0
          ≡ ltb 7 (last_or 5 (6 ∷ []) + seconds 60))
unfolding whole_program
locks_at_limit_example = locks_at_limit unlocked key_one 5 (6 ∷ []) 7 refl refl
