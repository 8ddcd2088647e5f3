-- ===== src/Examples/Sessions.antt =====
-- Tests of the usage sessions, their report, the event log and the listeners.
use ev211_field_server.Base.{
  arith, ◌≡◌, ◌≤◌, refl, true, false, none, some, List, [], ◌∷◌, codes, Text,
}
use ev211_field_server.Database.Rows.{
  Database, listen, UsageSessionRow, send, track_published, relay, empty_db,
}
use ev211_field_server.Database.Usage.Sessions.{
  UsageOp, start, usage_run, open_count, one_open_session,
}
use ev211_field_server.UsageReporter.{flush}
use ev211_field_server.UsageReporter.Settles.{waits, flush_settles}
use ev211_field_server.Database.Signals.Audit.{Entry, record_all, rows_of, recorded_once}
use ev211_field_server.Examples.Program.{whole_program}
use ev211_field_server.Examples.Fixtures.{db_one}

abbrev subject_one : Text
subject_one = codes "s1"

-- Two joins without a leave between.
abbrev two_joins : List UsageOp
two_joins =
    start 1 (codes "J") listen subject_one none none
    ∷ start 2 (codes "J") listen subject_one none none
    ∷ []

one_open_session_example : open_count subject_one (usage_run db_one two_joins) ≤ 1
unfolding whole_program
one_open_session_example = one_open_session db_one two_joins subject_one (omega arith)

abbrev ended_row : UsageSessionRow
ended_row = record {
  session_id = 1;
  join_code = codes "J";
  kind = listen;
  language = none;
  channel_id = none;
  subject_hash = subject_one;
  started_at = 0;
  ended_at = some 5000000;
  pushed_at = none;
  attempts = 0;
}

abbrev ended_db : Database
ended_db = record empty_db { usage_sessions = ended_row ∷ []; next_session = 2 }

flush_settles_example :
    waits 1 (flush true (λ t. []) (λ events. true) 9 ended_db).1.usage_sessions ≡ false
unfolding whole_program
flush_settles_example = flush_settles (λ t. []) (λ events. true) 9 1 ended_db (λ events. refl) refl

abbrev entry_one : Entry
entry_one = record {
  now = 3;
  direction = send;
  event_type = track_published;
  scope = relay;
  channel_id = some 1;
  generation = some 1;
  room = none;
  track_name = none;
  subject_hash = none;
  client_ip = none;
  source_event_id = some (codes "e1");
}

recorded_once_example : rows_of (codes "e1") (record_all db_one (entry_one ∷ entry_one ∷ [])) ≤ 1
unfolding whole_program
recorded_once_example = recorded_once db_one (entry_one ∷ entry_one ∷ []) (codes "e1") (omega arith)
