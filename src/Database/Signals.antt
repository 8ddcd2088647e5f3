-- ===== src/Database/Signals.antt =====
-- The log of signal events of api/app/db.py.
pub mod Audit
use Prim.Native.Nat.{max, min}
use mathlib.Core.List.{reverse}
use ev211_field_server.Base.{
  ℕ, ◌+◌, Bool, true, false, ◌&&◌, not, Option, none, some, List, [], ◌∷◌, ◌++◌, Text, ◌==◌,
  text_eq, ltb, if◌then◌else◌, any, keep, count_of, order_by, take,
}
use ev211_field_server.Database.Rows.{Database, SignalEventRow, Direction, EventType, Scope}

abbrev pub same_source : Text → SignalEventRow → Bool
same_source id e = elim e.source_event_id [ none ↦ false | some other ↦ other == id ]

-- The UNIQUE column takes any number of NULLs.
abbrev pub is_repeated : Option Text → List SignalEventRow → Bool
is_repeated none events = false
is_repeated (some id) events = any (same_source id) events

unfoldable pub record_signal_event :
    ℕ
    → Direction
    → EventType
    → Scope
    → Option ℕ
    → Option ℕ
    → Option Text
    → Option Text
    → Option Text
    → Option Text
    → Option Text
    → Database
    → Bool × Database
record_signal_event now direction event_type scope channel_id generation room track_name
      subject_hash client_ip source_event_id db =
    if is_repeated source_event_id db.signal_events then (false, db) else (
      true,
      record db {
        signal_events =
            db.signal_events
            ++ record {
              event_id = db.next_event;
              occurred_at = now;
              direction = direction;
              event_type = event_type;
              scope = scope;
              channel_id = channel_id;
              generation = generation;
              room = room;
              track_name = track_name;
              subject_hash = subject_hash;
              client_ip = client_ip;
              source_event_id = source_event_id;
            }
              ∷ [];
        next_event = db.next_event + 1;
      },
    )

-- ORDER BY occurred_at DESC, id DESC: the rows are listed by id, and the sort keeps that order.
abbrev pub newest_first : List SignalEventRow → List SignalEventRow
newest_first events = reverse (order_by (λ (e : SignalEventRow). e.occurred_at) events)

unfoldable pub list_signal_events : ℕ → Database → List SignalEventRow
list_signal_events limit db = take (max 1 (min limit 10000)) (newest_first db.signal_events)

-- occurred_at < now - retention
abbrev pub is_past : ℕ → ℕ → SignalEventRow → Bool
is_past now retention e = ltb (e.occurred_at + retention) now

unfoldable pub purge_signal_events : ℕ → ℕ → Database → ℕ × Database
purge_signal_events now retention db = (
  count_of (is_past now retention) db.signal_events,
  record db { signal_events = keep (λ e. not (is_past now retention e)) db.signal_events },
)

abbrev pub is_text : Text → Option Text → Bool
is_text t o = elim o [ none ↦ false | some s ↦ s == t ]

abbrev pub has_channel : Text → SignalEventRow → Bool
has_channel subject_hash e =
    is_text subject_hash e.subject_hash && elim e.channel_id [ none ↦ false | some _ ↦ true ]

abbrev pub first_channel : List SignalEventRow → Option ℕ
first_channel [] = none
first_channel (e ∷ es) = e.channel_id

unfoldable pub last_event_channel_for_subject : Text → Database → Option ℕ
last_event_channel_for_subject subject_hash db =
    first_channel (newest_first (keep (has_channel subject_hash) db.signal_events))
