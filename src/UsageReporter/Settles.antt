-- ===== src/UsageReporter/Settles.antt =====
-- What a sweep of the reporter leaves behind.
use ev211_field_server.Base.{
  ℕ, ◌≡◌, ◌∙◌, ap, refl, Bool, true, false, ◌&&◌, not, List, [], ◌∷◌, map, Text, ◌==◌, nat_eq, any,
  keep, length, arith, Bool-cases, inl, inr,
}
use ev211_field_server.Database.Rows.{Database, UsageSessionRow}
use ev211_field_server.Database.Usage.{
  is_pending, pending_usage_sessions, push_row, push_rows, mark_usage_sessions_pushed, bump_row,
  bump_rows, bump_usage_session_attempts,
}
use ev211_field_server.UsageReporter.{
  UsageEvent, batch_size, is_given_up, ids, session_to_event, send_batch, flush,
}

-- A row of the session still waits for its report.
abbrev pub waits : ℕ → List UsageSessionRow → Bool
waits id rs = any (λ (r : UsageSessionRow). (r.session_id == id) && is_pending r) rs

push_row-waits : (now id : ℕ) (rs : List UsageSessionRow) → waits id (push_row now id rs) ≡ false
unfolding push_row
push_row-waits now id [] = refl
push_row-waits now id (r ∷ rs) = ground (arith, push_row-waits now id rs)

push_row-keeps :
    (now id j : ℕ) (rs : List UsageSessionRow)
    → waits id rs ≡ false
    → waits id (push_row now j rs) ≡ false
unfolding push_row
push_row-keeps now id j [] h = refl
push_row-keeps now id j (r ∷ rs) h = ground (arith, push_row-keeps now id j rs)

push_rows-keeps :
    (now id : ℕ) (js : List ℕ) (rs : List UsageSessionRow)
    → waits id rs ≡ false
    → waits id (push_rows now js rs) ≡ false
unfolding push_rows
push_rows-keeps now id [] rs h = h
push_rows-keeps now id (j ∷ js) rs h =
    push_rows-keeps now id js (push_row now j rs) (push_row-keeps now id j rs h)

bump_row-waits : (id j : ℕ) (rs : List UsageSessionRow) → waits id (bump_row j rs) ≡ waits id rs
unfolding bump_row
bump_row-waits id j [] = refl
bump_row-waits id j (r ∷ rs) = ground (arith, bump_row-waits id j rs)

bump_rows-waits :
    (id : ℕ) (js : List ℕ) (rs : List UsageSessionRow) → waits id (bump_rows js rs) ≡ waits id rs
unfolding bump_rows
bump_rows-waits id [] rs = refl
bump_rows-waits id (j ∷ js) rs = bump_rows-waits id js (bump_row j rs) ∙ bump_row-waits id j rs

-- Every row of the batch that passes a test is pushed with the ids of the rows that pass it.
pushed_settle :
    (now id : ℕ) (js : List ℕ) (rs : List UsageSessionRow)
    → any (λ j. j == id) js ≡ true
    → waits id (push_rows now js rs) ≡ false
unfolding push_rows
pushed_settle now id [] rs h = cc
pushed_settle now id (j ∷ js) rs h = elim (Bool-cases (j == id)) [
  | inl same ↦ push_rows-keeps now id js (push_row now j rs) (
      ap (λ k. waits id (push_row now k rs)) ((nat_eq.same_iff j id).0 same)
      ∙ push_row-waits now id rs)
  | inr other ↦ pushed_settle now id js (push_row now j rs) (ground arith)
]

listed_either :
    (rows : List UsageSessionRow) (id : ℕ)
    → any (λ (r : UsageSessionRow). r.session_id == id) rows ≡ true
    → any (λ j. j == id) (ids (keep is_given_up rows)) ≡ false
    → any (λ j. j == id) (ids (keep (λ r. not (is_given_up r)) rows)) ≡ true
listed_either [] id h k = cc
listed_either (r ∷ rows) id h k = ground (arith, listed_either rows id)

module _ (iso : ℕ → Text) (post : List UsageEvent → Bool) (now id : ℕ)
    (sendable : List UsageSessionRow) (gave_up : ℕ) (db : Database) where
  send_keeps :
      waits id db.usage_sessions ≡ false
      → waits id (send_batch iso post now sendable gave_up db).1.usage_sessions ≡ false
  unfolding send_batch mark_usage_sessions_pushed bump_usage_session_attempts
  send_keeps h = ground (
    arith,
    push_rows-keeps now id (ids sendable) db.usage_sessions h,
    bump_rows-waits id (ids sendable) db.usage_sessions,
  )

  send_settles :
      ((events : List UsageEvent) → post events ≡ true)
      → any (λ j. j == id) (ids sendable) ≡ true
      → waits id (send_batch iso post now sendable gave_up db).1.usage_sessions ≡ false
  unfolding send_batch mark_usage_sessions_pushed
  send_settles ok h = ground (
    arith,
    ok (map (session_to_event iso) sendable),
    pushed_settle now id (ids sendable) db.usage_sessions h,
  )

abbrev giveup : Database → List UsageSessionRow
giveup db = keep is_given_up (pending_usage_sessions batch_size db)

abbrev sendable : Database → List UsageSessionRow
sendable db = keep (λ r. not (is_given_up r)) (pending_usage_sessions batch_size db)

-- The state in which the batch is sent.
abbrev gave_up : ℕ → Database → Database
gave_up now db = (mark_usage_sessions_pushed now (ids (giveup db)) db).1

batch_settles :
    (iso : ℕ → Text) (post : List UsageEvent → Bool) (now id : ℕ) (db : Database)
    → ((events : List UsageEvent) → post events ≡ true)
    → any (λ (r : UsageSessionRow). r.session_id == id) (pending_usage_sessions batch_size db)
      ≡ true
    → waits id
        (send_batch iso post now
          (sendable db)
          (length (giveup db))
          (gave_up now db)).1.usage_sessions
      ≡ false
batch_settles iso post now id db ok batch =
    elim (Bool-cases (any (λ j. j == id) (ids (giveup db)))) [
      | inl given ↦ send_keeps iso post now id (sendable db) (length (giveup db)) (gave_up now db) (
          unfold mark_usage_sessions_pushed in
          pushed_settle now id (ids (giveup db)) db.usage_sessions given)
      | inr sent ↦
          send_settles iso post now id (sendable db) (length (giveup db)) (gave_up now db) ok
            (listed_either (pending_usage_sessions batch_size db) id batch sent)
    ]

-- A sweep whose call succeeds settles its whole batch: no session of the batch waits any longer.
pub flush_settles :
    (iso : ℕ → Text) (post : List UsageEvent → Bool) (now id : ℕ) (db : Database)
    → ((events : List UsageEvent) → post events ≡ true)
    → any (λ (r : UsageSessionRow). r.session_id == id) (pending_usage_sessions batch_size db)
      ≡ true
    → waits id (flush true iso post now db).1.usage_sessions ≡ false
unfolding flush
flush_settles iso post now id db ok batch =
    ground (arith, batch, batch_settles iso post now id db ok batch)

-- Whether the reporter is enabled or not, and whatever the call answers, no session that does not
-- wait before a sweep waits behind it.
flush_never_reopens :
    (enabled : Bool) (iso : ℕ → Text) (post : List UsageEvent → Bool) (now id : ℕ) (db : Database)
    → waits id db.usage_sessions ≡ false
    → waits id (flush enabled iso post now db).1.usage_sessions ≡ false
unfolding flush
flush_never_reopens enabled iso post now id db h = ground (
  arith,
  h,
  send_keeps iso post now id (sendable db) (length (giveup db)) (gave_up now db) (
      unfold mark_usage_sessions_pushed in
      push_rows-keeps now id (ids (giveup db)) db.usage_sessions h),
)
