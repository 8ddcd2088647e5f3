-- ===== src/EventLog.antt =====
-- _record_signal_event of api/app/webhook.py: what of an event is written to the log.
use ev211_field_server.Base.{
  ℕ, Bool, true, false, ◌||◌, not, Option, none, some, [], Text, text_eq, nat_eq, if◌then◌else◌,
}
use ev211_field_server.Identity.{
  SpeakerIdentity, is_listener_identity, is_intercom_identity, parse_speaker_identity,
}
use ev211_field_server.Rooms.{IntercomRoom, relay_room, intercom_room}
use ev211_field_server.Database.Rows.{
  Direction, send, receive, both, Scope, relay, intercom, EventType, participant_joined,
  participant_left, track_published, track_unpublished,
}
use ev211_field_server.State.{AppState, Signal, record_signal_event}
use ev211_field_server.Events.{Env, WebhookEvent, is_unseen}

module _ (env : Env) where
  -- The direction and the channel of an event in a relay room; `none` is the early return.
  unfoldable pub relay_part :
      EventType → Option SpeakerIdentity → Text → Option (Direction × Option ℕ)
  relay_part kind (some p) identity = some (send, some p.channel_id)
  relay_part participant_joined none identity =
      if is_listener_identity identity then some (receive, none) else none
  relay_part participant_left none identity =
      if is_listener_identity identity then some (receive, none) else none
  relay_part _ none identity = none

  abbrev pub intercom_direction : EventType → Direction
  intercom_direction track_published = send
  intercom_direction track_unpublished = send
  intercom_direction _ = both

  abbrev pub signal_of : WebhookEvent → Text → Direction → Scope → Option ℕ → ℕ → Signal
  signal_of e identity direction scope channel_id generation = record {
    direction = direction;
    event_type = e.event;
    scope = scope;
    channel_id = channel_id;
    generation = some generation;
    room = some e.room;
    track_name = e.track;
    subject = identity;
    client_ip = none;
    source_event_id = some e.id;
  }

  unfoldable pub relay_signal :
      WebhookEvent → Text → ℕ → Option (Direction × Option ℕ) → Option Signal
  relay_signal e identity generation none = none
  relay_signal e identity generation (some (direction, channel_id)) =
      some (signal_of e identity direction relay channel_id generation)

  unfoldable pub intercom_signal : WebhookEvent → Text → Option IntercomRoom → Option Signal
  intercom_signal e identity none = none
  intercom_signal e identity (some r) =
      if is_intercom_identity identity
      then some (signal_of e identity (intercom_direction e.event) intercom r.channel r.generation)
      else none

  unfoldable pub room_signal : WebhookEvent → Text → Option ℕ → Option Signal
  room_signal e identity (some generation) =
      relay_signal e identity generation
        (relay_part e.event (parse_speaker_identity env.digits identity) identity)
  room_signal e identity none = intercom_signal e identity (intercom_room env.digits e.room)

  abbrev pub is_audited : EventType → Bool
  is_audited participant_joined = true
  is_audited participant_left = true
  is_audited track_published = true
  is_audited track_unpublished = true
  is_audited _ = false

  abbrev pub identity_or_empty : Option Text → Text
  identity_or_empty none = []
  identity_or_empty (some identity) = identity

  unfoldable pub audited : WebhookEvent → Option Signal
  audited e =
      let identity = identity_or_empty e.participant in
      if not (is_audited e.event) || is_unseen env identity
      then none
      else room_signal e identity (relay_room env.digits e.room)

  abbrev pub recorded : ℕ → Option Signal → AppState → AppState
  recorded now none s = s
  recorded now (some signal) s = (record_signal_event env.hash now signal s).1

  -- `_record_signal_event`
  unfoldable pub record_event : ℕ → WebhookEvent → AppState → AppState
  record_event now e s = recorded now (audited e) s
