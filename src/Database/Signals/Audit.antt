-- ===== src/Database/Signals/Audit.antt =====
-- One row for each LiveKit event, and the retention of the log.
use ev211_field_server.Base.{
  ℕ, ◌+◌, ◌≤◌, ◌≡◌, ◌∙◌, ap, sym, refl, Bool, false, ◌&&◌, not, Option, none, some, List, [], ◌∷◌,
  Text, ◌==◌, text_eq, any, keep, count_of, count_of-append, arith, Bool-cases, inl, inr,
  text_beq_iff,
}
use ev211_field_server.Database.Rows.{Database, SignalEventRow, Direction, EventType, Scope}
use ev211_field_server.Database.Signals.{
  same_source, is_repeated, record_signal_event, is_past, purge_signal_events,
}

-- The arguments of one call.
pub record Entry : Type 0 where
  pub now : ℕ
  pub direction : Direction
  pub event_type : EventType
  pub scope : Scope
  pub channel_id : Option ℕ
  pub generation : Option ℕ
  pub room : Option Text
  pub track_name : Option Text
  pub subject_hash : Option Text
  pub client_ip : Option Text
  pub source_event_id : Option Text

abbrev pub record_entry : Database → Entry → Bool × Database
record_entry db e =
    record_signal_event e.now e.direction e.event_type e.scope e.channel_id e.generation e.room
      e.track_name e.subject_hash e.client_ip e.source_event_id db

pub record_all : Database → List Entry → Database
record_all db [] = db
record_all db (e ∷ es) = record_all (record_entry db e).1 es

none_counted :
    (id : Text) (rs : List SignalEventRow)
    → any (same_source id) rs ≡ false
    → count_of (same_source id) rs ≡ 0
none_counted id [] h = refl
none_counted id (r ∷ rs) h = ground (arith, none_counted id rs)

abbrev pub rows_of : Text → Database → ℕ
rows_of id db = count_of (same_source id) db.signal_events

new_row_fits :
    (id : Text) (source : Option Text) (rs : List SignalEventRow)
    → is_repeated source rs ≡ false
    → count_of (same_source id) rs ≤ 1
    → count_of (same_source id) rs
        + count_of
            (λ (o : Option Text). elim o [ none ↦ false | some other ↦ other == id ])
            (source ∷ [])
      ≤ 1
new_row_fits id none rs free h = omega arith
new_row_fits id (some other) rs free h = elim (Bool-cases (other == id)) [
  | inl same ↦
      let none_yet =
        ap (λ t. count_of (same_source t) rs) (sym ((text_beq_iff other id).0 same))
        ∙ none_counted other rs free in
      ground (arith, same, none_yet)
  | inr different ↦ ground (arith, different, h)
]

record_once :
    (db : Database) (e : Entry) (id : Text)
    → rows_of id db ≤ 1
    → rows_of id (record_entry db e).1 ≤ 1
unfolding record_signal_event
record_once db e id h = elim (Bool-cases (is_repeated e.source_event_id db.signal_events)) [
  | inl taken ↦ rw taken h
  | inr free ↦
      rw (free, count_of-append) (new_row_fits id e.source_event_id db.signal_events free h)
]

-- However often LiveKit delivers its events, the log never has two rows with one source event.
pub recorded_once :
    (db : Database) (es : List Entry) (id : Text)
    → rows_of id db ≤ 1
    → rows_of id (record_all db es) ≤ 1
unfolding record_all
recorded_once db [] id h = h
recorded_once db (e ∷ es) id h = recorded_once (record_entry db e).1 es id (record_once db e id h)

kept_recent :
    (now retention : ℕ) (test : SignalEventRow → Bool) (rs : List SignalEventRow)
    → (count_of (is_past now retention) (keep (λ e. not (is_past now retention e)) rs) ≡ 0)
      × (count_of
            (λ e. not (is_past now retention e) && test e)
            (keep (λ e. not (is_past now retention e)) rs)
          ≡ count_of (λ e. not (is_past now retention e) && test e) rs)
kept_recent now retention test [] = (refl, refl)
kept_recent now retention test (r ∷ rs) = ground (arith, kept_recent now retention test rs)

-- A purge leaves no row that is older than the retention, and of the younger rows it leaves all
-- that pass any given test.
pub purge_exact :
    (now retention : ℕ) (test : SignalEventRow → Bool) (db : Database)
    → (count_of (is_past now retention) (purge_signal_events now retention db).1.signal_events ≡ 0)
      × (count_of
            (λ e. not (is_past now retention e) && test e)
            (purge_signal_events now retention db).1.signal_events
          ≡ count_of (λ e. not (is_past now retention e) && test e) db.signal_events)
unfolding purge_signal_events
purge_exact now retention test db = kept_recent now retention test db.signal_events
