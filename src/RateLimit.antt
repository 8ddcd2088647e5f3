-- ===== src/RateLimit.antt =====
-- api/app/rate_limit.py: the sliding-window limiter, the lock after failed passwords and the list
-- of blocked identities. Each method runs under its object's lock, so it is one step on the state.
pub mod Window
pub mod Retry
pub mod Locking
pub mod Strikes
use Prim.Native.Nat.{max}
use ev211_field_server.Base.{
  ℕ, ◌+◌, ◌-◌, ◌/◌, Bool, true, false, ◌||◌, Option, none, some, List, [], ◌∷◌, ◌++◌, Text, ◌==◌,
  text_eq, ltb, leb, if◌then◌else◌, length, any, seconds, microseconds,
}
use ev211_field_server.Base.Dict

abbrev pub or_empty : Option (List ℕ) → List ℕ
or_empty none = []
or_empty (some q) = q

abbrev pub or_zero : Option ℕ → ℕ
or_zero none = 0
or_zero (some n) = n

pub record RateLimiter : Type 0 where
  pub per_minute : ℕ
  pub hits : List (Text × List ℕ)

abbrev pub new_limiter : ℕ → RateLimiter
new_limiter n = record { per_minute = n; hits = [] }

-- `while q and q[0] <= now - 60: q.popleft()`
unfoldable pub drop_old : ℕ → List ℕ → List ℕ
drop_old now [] = []
drop_old now (t ∷ q) = if leb (t + seconds 60) now then drop_old now q else t ∷ q

-- `none` is the IndexError of `q[0]` on an empty queue.
unfoldable pub retry_after : ℕ → List ℕ → Option ℕ
retry_after now [] = none
retry_after now (t ∷ q) = some (max ((seconds 60 + t - now) / microseconds + 1) 1)

unfoldable pub refusal : Option ℕ → Option (Bool × ℕ)
refusal none = none
refusal (some r) = some (false, r)

unfoldable pub check : RateLimiter → ℕ → Text → Option (Bool × ℕ) × RateLimiter
unfolding refusal retry_after
check r now key =
    let q = drop_old now (or_empty (Dict.get r.hits key)) in
    if leb r.per_minute (length q)
    then (refusal (retry_after now q), record r { hits = Dict.put r.hits key q })
    else (some (true, 0), record r { hits = Dict.put r.hits key (q ++ now ∷ []) })

pub record FailureLock : Type 0 where
  pub fail_limit : ℕ
  pub lock_seconds : ℕ
  pub fails : List (Text × ℕ)
  pub locked_until : List (Text × ℕ)

unfoldable pub is_locked : FailureLock → ℕ → Text → Bool × ℕ
is_locked l now key =
    let until = or_zero (Dict.get l.locked_until key) in
    if ltb now until then (true, (until - now) / microseconds + 1) else (false, 0)

unfoldable pub record_failure : FailureLock → ℕ → Text → FailureLock
record_failure l now key =
    let n = or_zero (Dict.get l.fails key) + 1 in
    if leb l.fail_limit n
    then record l {
      fails = Dict.put l.fails key 0;
      locked_until = Dict.put l.locked_until key (now + seconds l.lock_seconds);
    }
    else record l { fails = Dict.put l.fails key n }

unfoldable pub record_success : FailureLock → Text → FailureLock
record_success l key = record l {
  fails = Dict.remove l.fails key;
  locked_until = Dict.remove l.locked_until key;
}

pub record Blocklist : Type 0 where
  pub threshold : ℕ
  pub strikes : List (Text × ℕ)
  pub blocked : List Text

abbrev pub new_blocklist : ℕ → Blocklist
new_blocklist n = record { threshold = n; strikes = []; blocked = [] }

unfoldable pub is_blocked : Blocklist → Text → Bool
is_blocked b identity = any (λ x. x == identity) b.blocked

-- `set.add` of a member changes nothing that a reader sees.
unfoldable pub strike : Blocklist → Text → Blocklist
strike b identity =
    let n = or_zero (Dict.get b.strikes identity) + 1 in
    if leb b.threshold n
    then record b { strikes = Dict.put b.strikes identity n; blocked = identity ∷ b.blocked }
    else record b { strikes = Dict.put b.strikes identity n }

unfoldable pub clear : Blocklist → Blocklist
clear b = record b { strikes = []; blocked = [] }
