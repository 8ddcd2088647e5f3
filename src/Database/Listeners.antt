-- ===== src/Database/Listeners.antt =====
-- Issued listeners and heartbeats of api/app/db.py.
pub mod Counts
use ev211_field_server.Base.{
  ℕ, ◌+◌, Bool, true, false, ◌&&◌, not, Option, none, some, List, [], ◌∷◌, ◌++◌, map, Text, ◌==◌,
  text_eq, nat_eq, ltb, leb, if◌then◌else◌, any, keep, seconds,
}
use ev211_field_server.Base.Dict
use ev211_field_server.Database.Rows.{Database}

-- ISSUED_LISTENER_TTL_SECONDS
abbrev pub issued_listener_ttl_seconds : ℕ
issued_listener_ttl_seconds = 3600

abbrev pub count_or_zero : Option ℕ → ℕ
count_or_zero none = 0
count_or_zero (some n) = n

-- INSERT ... ON CONFLICT DO UPDATE SET count=count+1
unfoldable pub bump : List (ℕ × ℕ) → ℕ → List (ℕ × ℕ)
bump counts k = Dict.put counts k (count_or_zero (Dict.get counts k) + 1)

-- SELECT channel_id, COUNT(*) ... GROUP BY channel_id
unfoldable pub tally : List ℕ → List (ℕ × ℕ)
unfolding bump
tally [] = []
tally (k ∷ ks) = bump (tally ks) k

-- `none` is the IntegrityError of an id that the table has; the id is the caller's fresh UUID.
unfoldable pub issue_listener : ℕ → Text → ℕ → Database → Option (Text × Database)
unfolding bump Dict.has
issue_listener now listener_id channel_id db =
    if Dict.has db.issued_listeners listener_id
    then none
    else some (
      listener_id,
      record db {
        issued_listeners = Dict.put db.issued_listeners listener_id (channel_id, now);
        subscribe_token_counts = bump db.subscribe_token_counts channel_id;
      },
    )

abbrev pub unexpired : ℕ → Option (ℕ × ℕ) → Option ℕ
unexpired now none = none
unexpired now (some (channel_id, issued_at)) =
    if leb (issued_at + seconds issued_listener_ttl_seconds) now then none else some channel_id

unfoldable pub issued_listener_channel : ℕ → Text → Database → Option ℕ
issued_listener_channel now listener_id db =
    unexpired now (Dict.get db.issued_listeners listener_id)

unfoldable pub is_listener_issued : ℕ → Text → Database → Bool
unfolding issued_listener_channel
is_listener_issued now listener_id db = elim (issued_listener_channel now listener_id db) [
  | none ↦ false
  | some _ ↦ true
]

abbrev pub found_on : Option (ℕ × ℕ) → ℕ → Bool
found_on none channel_id = false
found_on (some (k, _)) channel_id = k == channel_id

unfoldable pub touch_issued_listener : ℕ → Text → ℕ → Database → Bool × Database
touch_issued_listener now listener_id channel_id db =
    if found_on (Dict.get db.issued_listeners listener_id) channel_id
    then (
      true,
      record db { issued_listeners = Dict.put db.issued_listeners listener_id (channel_id, now) },
    )
    else (false, db)

unfoldable pub record_heartbeat : ℕ → Text → ℕ → ℕ → Database → Database
record_heartbeat now listener_id channel_id ttl_seconds db = record db {
  heartbeats = Dict.put db.heartbeats listener_id (channel_id, now + seconds ttl_seconds);
}

abbrev pub is_live : ℕ → Text × (ℕ × ℕ) → Bool
is_live now (_, (_, expires_at)) = ltb now expires_at

unfoldable pub count_heartbeats_by_channel : ℕ → Database → List (ℕ × ℕ)
unfolding tally
count_heartbeats_by_channel now db =
    tally (map (λ (r : Text × (ℕ × ℕ)). r.1.0) (keep (is_live now) db.heartbeats))

unfoldable pub has_any_live_heartbeat : ℕ → Database → Bool
has_any_live_heartbeat now db = any (is_live now) db.heartbeats

unfoldable pub token_approximation_by_channel : Database → List (ℕ × ℕ)
token_approximation_by_channel db = db.subscribe_token_counts

unfoldable pub purge_expired_heartbeats : ℕ → Database → Database
purge_expired_heartbeats now db = record db { heartbeats = keep (is_live now) db.heartbeats }

-- NOT (issued_at <= now - ISSUED_LISTENER_TTL_SECONDS)
abbrev pub is_kept : ℕ → Text × (ℕ × ℕ) → Bool
is_kept now (_, (_, issued_at)) = ltb now (issued_at + seconds issued_listener_ttl_seconds)

unfoldable pub purge_expired_issued_listeners : ℕ → Database → Database
unfolding tally
purge_expired_issued_listeners now db =
    let kept = keep (is_kept now) db.issued_listeners in
    record db {
      issued_listeners = kept;
      subscribe_token_counts = tally (map (λ (r : Text × (ℕ × ℕ)). r.1.0) kept);
    }
