-- ===== src/RateLimit/Retry.antt =====
-- The waiting time that a refusal of the limiter names.
use ev211_field_server.Base.{
  ℕ, ◌+◌, ◌≤◌, ◌<◌, ◌≡◌, refl, true, false, some, List, [], ◌∷◌, Text, ◌==◌, text_eq, text_beq_iff,
  length, seconds, arith,
}
use ev211_field_server.RateLimit.{RateLimiter, drop_old, retry_after, refusal, check}
use ev211_field_server.RateLimit.Window.{queue, queue-check, grant_test, per_minute-check}

length-drop_old : (now : ℕ) (q : List ℕ) → length (drop_old now q) ≤ length q
unfolding drop_old
length-drop_old now [] = omega arith
length-drop_old now (t ∷ q) = ground (arith, length-drop_old now q)

-- A full queue has room once its first hit is old.
room_after :
    (now later s n : ℕ) (q : List ℕ)
    → length q ≤ n
    → retry_after now q ≡ some s
    → now + seconds s ≤ later
    → length (drop_old later q) < n
unfolding retry_after drop_old
room_after now later s n [] few e h = cc
room_after now later s n (t ∷ q) few e h = ground (arith, length-drop_old later q)

refused_parts :
    (r : RateLimiter) (now s : ℕ) (key : Text)
    → (check r now key).0 ≡ some (false, s)
    → (grant_test r now key ≡ true) × (retry_after now (drop_old now (queue r key)) ≡ some s)
unfolding check grant_test refusal
refused_parts r now s key e = ground arith

allowed_below :
    (r : RateLimiter) (now : ℕ) (key : Text)
    → length (drop_old now (queue r key)) < r.per_minute
    → (check r now key).0 ≡ some (true, 0)
unfolding check
allowed_below r now key h = ground arith

-- A call that is refused with the answer "retry after `s` seconds" is let through when it comes
-- again at least `s` seconds later, provided that no other call of the key came between, and
-- that the key's queue held at most the limit before.
pub retry_honoured :
    (r : RateLimiter) (now later s : ℕ) (key : Text)
    → length (queue r key) ≤ r.per_minute
    → (check r now key).0 ≡ some (false, s)
    → now + seconds s ≤ later
    → (check (check r now key).1 later key).0 ≡ some (true, 0)
retry_honoured r now later s key few e h =
    let (full, wait) = refused_parts r now s key e in
    let same : (key == key) ≡ true = (text_beq_iff key key).1 refl in
    let kept : queue (check r now key).1 key ≡ drop_old now (queue r key) =
      rw (queue-check, same, full) refl in
    allowed_below (check r now key).1 later key (
      rw (kept, per_minute-check)
        (room_after now later s r.per_minute (drop_old now (queue r key))
          (omega (arith, length-drop_old now (queue r key))) wait h))
