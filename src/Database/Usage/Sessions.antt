-- ===== src/Database/Usage/Sessions.antt =====
-- Over any run of the session operations a subject has at most one open session.
use ev211_field_server.Base.{
  ℕ, ◌+◌, ◌≤◌, ◌≡◌, ◌∙◌, ap, sym, Bool-cases, inl, inr, refl, Bool, false, not, Option, some, List,
  [], ◌∷◌, Text, ◌==◌, text_eq, nat_eq, text_beq_iff, any, keep, count_of, count_of-append, arith,
}
use ev211_field_server.Database.Rows.{Database, UsageSessionRow, UsageKind}
use ev211_field_server.Database.Usage.{
  is_open_of, is_open_on, is_stale, is_expired, end_where, open_usage_session, close_usage_session,
  close_usage_sessions_for_channel, close_stale_usage_sessions, push_row, push_rows,
  mark_usage_sessions_pushed, bump_row, bump_rows, bump_usage_session_attempts,
  purge_usage_sessions,
}

pub data UsageOp : Type 0 where
  start : ℕ → Text → UsageKind → Text → Option Text → Option ℕ → UsageOp
  leave : ℕ → Text → UsageOp
  close_on : ℕ → ℕ → UsageOp
  close_stale : ℕ → ℕ → UsageOp
  push : ℕ → List ℕ → UsageOp
  fail : List ℕ → UsageOp
  purge : ℕ → ℕ → UsageOp

pub usage_step : Database → UsageOp → Database
usage_step db (start now code kind subject language channel) =
    (open_usage_session now code kind subject language channel db).1
usage_step db (leave now subject) = (close_usage_session now subject db).1
usage_step db (close_on now k) = (close_usage_sessions_for_channel now k db).1
usage_step db (close_stale now max_time) = (close_stale_usage_sessions now max_time db).1
usage_step db (push now ids) = (mark_usage_sessions_pushed now ids db).1
usage_step db (fail ids) = bump_usage_session_attempts ids db
usage_step db (purge now retention) = (purge_usage_sessions now retention db).1

pub usage_run : Database → List UsageOp → Database
usage_run db [] = db
usage_run db (op ∷ ops) = usage_run (usage_step db op) ops

abbrev pub open_count : Text → Database → ℕ
open_count s db = count_of (is_open_of s) db.usage_sessions

end_where-count :
    (s : Text) (test : UsageSessionRow → Bool) (at : UsageSessionRow → ℕ)
    (rs : List UsageSessionRow)
    → count_of (is_open_of s) (end_where test at rs) ≤ count_of (is_open_of s) rs
unfolding end_where
end_where-count s test at [] = omega arith
end_where-count s test at (r ∷ rs) = ground (arith, end_where-count s test at rs)

push_row-count :
    (s : Text) (now id : ℕ) (rs : List UsageSessionRow)
    → count_of (is_open_of s) (push_row now id rs) ≡ count_of (is_open_of s) rs
unfolding push_row
push_row-count s now id [] = refl
push_row-count s now id (r ∷ rs) = ground (arith, push_row-count s now id rs)

push_rows-count :
    (s : Text) (now : ℕ) (ids : List ℕ) (rs : List UsageSessionRow)
    → count_of (is_open_of s) (push_rows now ids rs) ≡ count_of (is_open_of s) rs
unfolding push_rows
push_rows-count s now [] rs = refl
push_rows-count s now (id ∷ ids) rs =
    push_rows-count s now ids (push_row now id rs) ∙ push_row-count s now id rs

bump_row-count :
    (s : Text) (id : ℕ) (rs : List UsageSessionRow)
    → count_of (is_open_of s) (bump_row id rs) ≡ count_of (is_open_of s) rs
unfolding bump_row
bump_row-count s id [] = refl
bump_row-count s id (r ∷ rs) = ground (arith, bump_row-count s id rs)

bump_rows-count :
    (s : Text) (ids : List ℕ) (rs : List UsageSessionRow)
    → count_of (is_open_of s) (bump_rows ids rs) ≡ count_of (is_open_of s) rs
unfolding bump_rows
bump_rows-count s [] rs = refl
bump_rows-count s (id ∷ ids) rs = bump_rows-count s ids (bump_row id rs) ∙ bump_row-count s id rs

keep-count :
    (s : Text) (test : UsageSessionRow → Bool) (rs : List UsageSessionRow)
    → count_of (is_open_of s) (keep test rs) ≤ count_of (is_open_of s) rs
keep-count s test [] = omega arith
keep-count s test (r ∷ rs) = ground (arith, keep-count s test rs)

none_counted :
    (s : Text) (rs : List UsageSessionRow)
    → any (is_open_of s) rs ≡ false
    → count_of (is_open_of s) rs ≡ 0
none_counted s [] h = refl
none_counted s (r ∷ rs) h = ground (arith, none_counted s rs)

start-count :
    (db : Database) (now : ℕ) (code : Text) (kind : UsageKind) (subject : Text)
    (language : Option Text) (channel : Option ℕ) (s : Text)
    → open_count s db ≤ 1
    → open_count s (open_usage_session now code kind subject language channel db).1 ≤ 1
unfolding open_usage_session
start-count db now code kind subject language channel s h =
    elim (Bool-cases (any (is_open_of subject) db.usage_sessions)) [
      | inl taken ↦ rw taken h
      | inr free ↦
          rw (free, count_of-append)
            (elim (Bool-cases (subject == s)) [
              | inl same ↦
                  let none_open =
                    ap (λ t. count_of (is_open_of t) db.usage_sessions)
                      (sym ((text_beq_iff subject s).0 same))
                    ∙ none_counted subject db.usage_sessions free in
                  ground (arith, same, none_open)
              | inr other ↦ ground (arith, other, h)
            ])
    ]

step-count :
    (db : Database) (op : UsageOp) (s : Text)
    → open_count s db ≤ 1
    → open_count s (usage_step db op) ≤ 1
unfolding usage_step
step-count db (start now code kind subject language channel) s h =
    start-count db now code kind subject language channel s h
step-count db (leave now subject) s h =
    unfold close_usage_session in
    omega (arith, end_where-count s (is_open_of subject) (λ _. now) db.usage_sessions)
step-count db (close_on now k) s h =
    unfold close_usage_sessions_for_channel in
    omega (arith, end_where-count s (is_open_on k) (λ _. now) db.usage_sessions)
step-count db (close_stale now max_time) s h =
    unfold close_stale_usage_sessions in
    omega (
      arith,
      end_where-count s (is_stale now max_time) (λ r. r.started_at + max_time) db.usage_sessions,
    )
step-count db (push now ids) s h =
    unfold mark_usage_sessions_pushed in omega (arith, push_rows-count s now ids db.usage_sessions)
step-count db (fail ids) s h =
    unfold bump_usage_session_attempts in omega (arith, bump_rows-count s ids db.usage_sessions)
step-count db (purge now retention) s h =
    unfold purge_usage_sessions in
    omega (arith, keep-count s (λ r. not (is_expired now retention r)) db.usage_sessions)

-- From a ledger in which a subject has at most one open session, the subject has at most one
-- behind any run of openings, closings, sweeps, reports and purges.
pub one_open_session :
    (db : Database) (ops : List UsageOp) (s : Text)
    → open_count s db ≤ 1
    → open_count s (usage_run db ops) ≤ 1
unfolding usage_run
one_open_session db [] s h = h
one_open_session db (op ∷ ops) s h =
    one_open_session (usage_step db op) ops s (step-count db op s h)

all_ended :
    (subject : Text) (now : ℕ) (rs : List UsageSessionRow)
    → any (is_open_of subject) (end_where (is_open_of subject) (λ _. now) rs) ≡ false
unfolding end_where
all_ended subject now [] = refl
all_ended subject now (r ∷ rs) = ground (arith, all_ended subject now rs)

-- A leave ends every open session of its subject, and the subject's next join opens a session
-- under a new id.
leave_then_join :
    (left joined : ℕ) (code : Text) (kind : UsageKind) (subject : Text) (language : Option Text)
    (channel : Option ℕ) (db : Database)
    → (any (is_open_of subject) (close_usage_session left subject db).1.usage_sessions ≡ false)
      × ((open_usage_session joined code kind subject language channel
            (close_usage_session left subject db).1).0
          ≡ some db.next_session)
unfolding close_usage_session open_usage_session
leave_then_join left joined code kind subject language channel db =
    (all_ended subject left db.usage_sessions, rw (all_ended subject left db.usage_sessions))
