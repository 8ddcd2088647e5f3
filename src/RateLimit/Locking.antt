-- ===== src/RateLimit/Locking.antt =====
-- The lock after failed passwords, over runs of failures.
use ev211_field_server.Base.{
  ℕ, ◌+◌, ◌≤◌, ◌<◌, ◌≡◌, ◌∙◌, ap, refl, false, List, [], ◌∷◌, Text, ◌==◌, text_eq, text_beq_iff,
  ltb, if◌then◌else◌, length, seconds, arith,
}
use ev211_field_server.Base.Dict
use ev211_field_server.Base.Dict.{get-put, get-remove}
use ev211_field_server.RateLimit.{FailureLock, or_zero, is_locked, record_failure, record_success}

-- A run of failures at the given times.
pub fail_at : FailureLock → Text → List ℕ → FailureLock
fail_at l key [] = l
fail_at l key (t ∷ ts) = fail_at (record_failure l t key) key ts

abbrev pub failures : FailureLock → Text → ℕ
failures l key = or_zero (Dict.get l.fails key)

abbrev pub lock_end : FailureLock → Text → ℕ
lock_end l key = or_zero (Dict.get l.locked_until key)

abbrev pub last_or : ℕ → List ℕ → ℕ
last_or t [] = t
last_or t (u ∷ us) = last_or u us

below :
    (l : FailureLock) (now : ℕ) (key : Text)
    → failures l key + 1 < l.fail_limit
    → (failures (record_failure l now key) key ≡ failures l key + 1)
      × (lock_end (record_failure l now key) key ≡ lock_end l key)
      × ((record_failure l now key).fail_limit ≡ l.fail_limit)
      × ((record_failure l now key).lock_seconds ≡ l.lock_seconds)
unfolding record_failure
below l now key h =
    ground
      (arith, text_beq_iff key key, get-put l.fails key key (or_zero (Dict.get l.fails key) + 1))

reached :
    (l : FailureLock) (now : ℕ) (key : Text)
    → l.fail_limit ≤ failures l key + 1
    → (failures (record_failure l now key) key ≡ 0)
      × (lock_end (record_failure l now key) key ≡ now + seconds l.lock_seconds)
unfolding record_failure
reached l now key h = ground (
  arith,
  text_beq_iff key key,
  get-put l.fails key key 0,
  get-put l.locked_until key key (now + seconds l.lock_seconds),
)

few_failures :
    (l : FailureLock) (key : Text) (ts : List ℕ)
    → failures l key + length ts < l.fail_limit
    → lock_end (fail_at l key ts) key ≡ lock_end l key
unfolding fail_at
few_failures l key [] h = refl
few_failures l key (t ∷ ts) h =
    let (n, kept, limit, _) = below l t key (omega arith) in
    few_failures (record_failure l t key) key ts (rw (n, limit) (omega arith)) ∙ kept

limit_reached :
    (l : FailureLock) (key : Text) (t : ℕ) (ts : List ℕ)
    → failures l key + length (t ∷ ts) ≡ l.fail_limit
    → lock_end (fail_at l key (t ∷ ts)) key ≡ last_or t ts + seconds l.lock_seconds
unfolding fail_at
limit_reached l key t [] h = (reached l t key (omega arith)).1
limit_reached l key t (u ∷ us) h =
    let (n, _, limit, secs) = below l t key (omega arith) in
    limit_reached (record_failure l t key) key u us (rw (n, limit) (omega arith))
    ∙ ap (λ n. last_or u us + seconds n) secs

is_locked-lock_end :
    (l : FailureLock) (now : ℕ) (key : Text) → (is_locked l now key).0 ≡ ltb now (lock_end l key)
unfolding is_locked
is_locked-lock_end l now key = ground arith

-- From a state with no failure of the key on record and no lock, fewer failures than the limit
-- leave the key open at every time, and as many failures as the limit lock it exactly until
-- `lock_seconds` after the last of them.
pub locks_at_limit :
    (l : FailureLock) (key : Text) (t : ℕ) (ts : List ℕ) (now : ℕ)
    → failures l key ≡ 0
    → lock_end l key ≡ 0
    → (length (t ∷ ts) < l.fail_limit → (is_locked (fail_at l key (t ∷ ts)) now key).0 ≡ false)
      × (length (t ∷ ts) ≡ l.fail_limit
          → (is_locked (fail_at l key (t ∷ ts)) now key).0
            ≡ ltb now (last_or t ts + seconds l.lock_seconds))
locks_at_limit l key t ts now none_yet open_now = (
  λ few.
      rw (is_locked-lock_end, few_failures l key (t ∷ ts) (rw none_yet (omega arith)), open_now)
        (ground arith),
  λ full. rw (is_locked-lock_end, limit_reached l key t ts (rw none_yet (omega arith))),
)

-- A success clears the key's record and its lock, and leaves every other key as it was.
success_clears :
    (l : FailureLock) (key other : Text) (now : ℕ)
    → (failures (record_success l key) other ≡ (if key == other then 0 else failures l other))
      × ((is_locked (record_success l key) now other).0
          ≡ (if key == other then false else (is_locked l now other).0))
unfolding record_success is_locked
success_clears l key other now =
    ground (arith, get-remove l.fails key other, get-remove l.locked_until key other)
