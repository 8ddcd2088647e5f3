-- ===== src/UsageReporter.antt =====
-- api/app/usage_reporter.py: the report of ended sessions. `_post`, an HTTP call that answers
-- whether the status was 201, is the parameter `post`, and the ISO text of a time (datetime) the
-- parameter `iso`.
pub mod Settles
use ev211_field_server.Base.{
  ℕ, suc, ◌+◌, ◌-◌, ◌*◌, ◌/◌, ◌%◌, Bool, true, false, Option, none, some, List, [], ◌∷◌, map, Text,
  ltb, leb, if◌then◌else◌, keep, length, microseconds, not,
}
use ev211_field_server.Database.Rows.{Database, UsageSessionRow, UsageKind}
use ev211_field_server.Database.Usage.{
  pending_usage_sessions, mark_usage_sessions_pushed, bump_usage_session_attempts,
}

abbrev pub batch_size : ℕ
batch_size = 100

abbrev pub max_attempts : ℕ
max_attempts = 10

pub record UsageEvent : Type 0 where
  pub join_code : Text
  pub kind : UsageKind
  pub started_at : Text
  pub ended_at : Text
  pub seconds : ℕ
  pub participant_hash : Text
  pub language : Option Text

-- Python's `round`: to the nearest second, and to the even one in the middle.
unfoldable pub round_seconds : ℕ → ℕ
round_seconds d =
    let whole = d / microseconds in
    let rest = d % microseconds in
    if ltb (rest * 2) microseconds
    then whole
    else if ltb microseconds (rest * 2)
    then whole + 1
    else whole + whole % 2

abbrev pub end_or : Option ℕ → ℕ → ℕ
end_or none d = d
end_or (some t) d = t

-- `if row.language` is false for the empty text.
abbrev pub nonempty : Option Text → Option Text
nonempty none = none
nonempty (some []) = none
nonempty (some (c ∷ s)) = some (c ∷ s)

-- The difference stops at 0 as `max(0, ...)` does.
unfoldable pub session_to_event : (ℕ → Text) → UsageSessionRow → UsageEvent
unfolding round_seconds
session_to_event iso row = record {
  join_code = row.join_code;
  kind = row.kind;
  started_at = iso row.started_at;
  ended_at = iso (end_or row.ended_at row.started_at);
  seconds = round_seconds (end_or row.ended_at row.started_at - row.started_at);
  participant_hash = row.subject_hash;
  language = nonempty row.language;
}

abbrev pub is_given_up : UsageSessionRow → Bool
is_given_up r = leb max_attempts r.attempts

abbrev pub ids : List UsageSessionRow → List ℕ
ids rows = map (λ (r : UsageSessionRow). r.session_id) rows

abbrev pub is_empty {ℓ} : {A : Type ℓ} → List A → Bool
is_empty [] = true
is_empty (_ ∷ _) = false

-- The part of `flush` that sends: what is sent and what was given up come back as counts.
unfoldable pub send_batch :
    (ℕ → Text)
    → (List UsageEvent → Bool)
    → ℕ
    → List UsageSessionRow
    → ℕ
    → Database
    → (ℕ × ℕ) × Database
unfolding session_to_event
send_batch iso post now sendable gave_up db =
    if is_empty sendable
    then ((0, gave_up), db)
    else if post (map (session_to_event iso) sendable)
    then ((length (ids sendable), gave_up), (mark_usage_sessions_pushed now (ids sendable) db).1)
    else ((0, gave_up), bump_usage_session_attempts (ids sendable) db)

unfoldable pub flush :
    Bool → (ℕ → Text) → (List UsageEvent → Bool) → ℕ → Database → (ℕ × ℕ) × Database
flush enabled iso post now db =
    let rows = pending_usage_sessions batch_size db in
    let giveup = keep is_given_up rows in
    let sendable = keep (λ r. not (is_given_up r)) rows in
    let db' = (mark_usage_sessions_pushed now (ids giveup) db).1 in
    if not enabled
    then ((0, 0), db)
    else if is_empty rows
    then ((0, 0), db)
    else send_batch iso post now sendable (length giveup) db'
