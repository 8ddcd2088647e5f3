-- ===== src/Database/Usage.antt =====
-- Usage sessions of api/app/db.py: opened by a join, closed by a leave, reported once.
pub mod Sessions
use ev211_field_server.Base.{
  ℕ, ◌+◌, ◌-◌, Bool, true, false, ◌&&◌, not, Option, none, some, List, [], ◌∷◌, ◌++◌, map, Text,
  ◌==◌, text_eq, nat_eq, ltb, if◌then◌else◌, any, keep, count_of, length, take, order_by,
}
use ev211_field_server.Database.Rows.{Database, UsageSessionRow, UsageKind}

abbrev pub is_none {ℓ} : {A : Type ℓ} → Option A → Bool
is_none none = true
is_none (some _) = false

abbrev pub or_zero : Option ℕ → ℕ
or_zero none = 0
or_zero (some n) = n

-- subject_hash=? AND ended_at IS NULL
abbrev pub is_open_of : Text → UsageSessionRow → Bool
is_open_of subject_hash r = r.subject_hash == subject_hash && is_none r.ended_at

-- UPDATE usage_sessions SET ended_at=? WHERE test
unfoldable pub end_where :
    (UsageSessionRow → Bool) → (UsageSessionRow → ℕ) → List UsageSessionRow → List UsageSessionRow
end_where test at [] = []
end_where test at (r ∷ rs) =
    (if test r then record r { ended_at = some (at r) } else r) ∷ end_where test at rs

unfoldable pub open_usage_session :
    ℕ → Text → UsageKind → Text → Option Text → Option ℕ → Database → Option ℕ × Database
open_usage_session now join_code kind subject_hash language channel_id db =
    if any (is_open_of subject_hash) db.usage_sessions then (none, db) else (
      some db.next_session,
      record db {
        usage_sessions =
            db.usage_sessions
            ++ record {
              session_id = db.next_session;
              join_code = join_code;
              kind = kind;
              language = language;
              channel_id = channel_id;
              subject_hash = subject_hash;
              started_at = now;
              ended_at = none;
              pushed_at = none;
              attempts = 0;
            }
              ∷ [];
        next_session = db.next_session + 1;
      },
    )

unfoldable pub close_usage_session : ℕ → Text → Database → Bool × Database
unfolding end_where
close_usage_session now subject_hash db = (
  any (is_open_of subject_hash) db.usage_sessions,
  record db { usage_sessions = end_where (is_open_of subject_hash) (λ _. now) db.usage_sessions },
)

-- channel_id=? AND ended_at IS NULL
abbrev pub is_open_on : ℕ → UsageSessionRow → Bool
is_open_on channel_id r = elim r.channel_id [
  | none ↦ false
  | some k ↦ k == channel_id && is_none r.ended_at
]

unfoldable pub close_usage_sessions_for_channel : ℕ → ℕ → Database → ℕ × Database
unfolding end_where
close_usage_sessions_for_channel now channel_id db = (
  count_of (is_open_on channel_id) db.usage_sessions,
  record db { usage_sessions = end_where (is_open_on channel_id) (λ _. now) db.usage_sessions },
)

-- ended_at IS NULL AND started_at < now - max_seconds
abbrev pub is_stale : ℕ → ℕ → UsageSessionRow → Bool
is_stale now max_time r = is_none r.ended_at && ltb (r.started_at + max_time) now

unfoldable pub close_stale_usage_sessions : ℕ → ℕ → Database → ℕ × Database
unfolding end_where
close_stale_usage_sessions now max_time db = (
  count_of (is_stale now max_time) db.usage_sessions,
  record db {
    usage_sessions =
        end_where (is_stale now max_time) (λ r. r.started_at + max_time) db.usage_sessions;
  },
)

-- ended_at IS NOT NULL AND pushed_at IS NULL
abbrev pub is_pending : UsageSessionRow → Bool
is_pending r = not (is_none r.ended_at) && is_none r.pushed_at

-- SQLite leaves the order of equal `ended_at` open; here it is that of the ids.
unfoldable pub pending_usage_sessions : ℕ → Database → List UsageSessionRow
pending_usage_sessions limit db =
    take limit (order_by (λ r. or_zero r.ended_at) (keep is_pending db.usage_sessions))

-- One UPDATE for each id of the list.
unfoldable pub push_row : ℕ → ℕ → List UsageSessionRow → List UsageSessionRow
push_row now id [] = []
push_row now id (r ∷ rs) =
    (if r.session_id == id then record r { pushed_at = some now } else r) ∷ push_row now id rs

unfoldable pub push_rows : ℕ → List ℕ → List UsageSessionRow → List UsageSessionRow
unfolding push_row
push_rows now [] rs = rs
push_rows now (id ∷ ids) rs = push_rows now ids (push_row now id rs)

-- The rows that `executemany` changes, one statement for each id.
abbrev pub rows_with : List ℕ → List UsageSessionRow → ℕ
rows_with [] rs = 0
rows_with (id ∷ ids) rs =
    count_of (λ (r : UsageSessionRow). r.session_id == id) rs + rows_with ids rs

unfoldable pub mark_usage_sessions_pushed : ℕ → List ℕ → Database → ℕ × Database
unfolding push_rows
mark_usage_sessions_pushed now ids db = (
  rows_with ids db.usage_sessions,
  record db { usage_sessions = push_rows now ids db.usage_sessions },
)

unfoldable pub bump_row : ℕ → List UsageSessionRow → List UsageSessionRow
bump_row id [] = []
bump_row id (r ∷ rs) =
    (if r.session_id == id then record r { attempts = r.attempts + 1 } else r) ∷ bump_row id rs

unfoldable pub bump_rows : List ℕ → List UsageSessionRow → List UsageSessionRow
unfolding bump_row
bump_rows [] rs = rs
bump_rows (id ∷ ids) rs = bump_rows ids (bump_row id rs)

unfoldable pub bump_usage_session_attempts : List ℕ → Database → Database
unfolding bump_rows
bump_usage_session_attempts ids db = record db { usage_sessions = bump_rows ids db.usage_sessions }

-- pushed_at IS NOT NULL AND pushed_at < now - retention
abbrev pub is_expired : ℕ → ℕ → UsageSessionRow → Bool
is_expired now retention r = elim r.pushed_at [ none ↦ false | some t ↦ ltb (t + retention) now ]

unfoldable pub purge_usage_sessions : ℕ → ℕ → Database → ℕ × Database
purge_usage_sessions now retention db = (
  count_of (is_expired now retention) db.usage_sessions,
  record db { usage_sessions = keep (λ r. not (is_expired now retention r)) db.usage_sessions },
)
