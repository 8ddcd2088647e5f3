-- ===== src/Webhook.antt =====
-- api/app/webhook.py: the handling of a verified LiveKit event, which takes place at one time `now`.
pub mod Effects
pub mod Delivery
pub mod OffAir
pub mod Enforcement
pub mod Removal
pub mod Invariant
use ev211_field_server.Base.{
  ℕ, suc, ◌<◌, Bool, true, false, ◌&&◌, ◌||◌, not, Option, none, some, List, [], ◌∷◌, ◌++◌, Text,
  codes, ◌==◌, text_eq, nat_eq, ltb, if◌then◌else◌, any,
}
use ev211_field_server.Base.Decimal.{two_digits}
use ev211_field_server.RateLimit
use ev211_field_server.OnAir
use ev211_field_server.Identity.{
  Digits, SpeakerIdentity, starts_with, is_monitor_identity, is_listener_identity,
  is_intercom_identity, parse_speaker_identity,
}
use ev211_field_server.Rooms.{IntercomRoom, relay_room, intercom_room}
use ev211_field_server.Database.Rows.{
  Database, ChannelRow, LeaseRow, is_open, Direction, send, receive, both, Scope, relay, intercom,
  EventType, participant_joined, participant_left, participant_connection_aborted, track_published,
  track_unpublished, other,
}
use ev211_field_server.Database.Channels.{get_channel, track_of}
use ev211_field_server.Database.Leases.{
  get_lease, found_identity, mark_lease_joined, release_lease_if_identity,
}
use ev211_field_server.Database.Webhooks.{is_webhook_processed, mark_webhook_processed}
use ev211_field_server.State.{
  AppState, LiveKitCall, remove_participant, room, is_empty_text, Signal, record_signal_event,
}
use ev211_field_server.Events.{
  Participant, RemoveReply, Env, WebhookEvent, Outcome, done, failed, remove, struck,
  strike_and_remove, is_unseen,
}
use ev211_field_server.EventLog.{
  audited, identity_or_empty, intercom_direction, intercom_signal, is_audited, record_event,
  recorded, relay_part, relay_signal, room_signal, signal_of,
}

module _ (env : Env) where
  abbrev pub is_exempt : Text → Bool
  is_exempt identity =
      is_empty_text identity || is_monitor_identity identity || is_intercom_identity identity

  abbrev pub older_epoch : SpeakerIdentity → Option ChannelRow → Bool
  older_epoch p none = true
  older_epoch p (some c) = ltb p.epoch c.epoch

  abbrev pub channel_open : Option ChannelRow → Bool
  channel_open none = false
  channel_open (some c) = is_open c.state

  -- No channel, another generation, an older epoch, no lease or another's lease.
  unfoldable pub is_violation : SpeakerIdentity → Text → AppState → Bool
  is_violation p identity s =
      not (p.generation == s.generation)
      || older_epoch p (get_channel s.db p.channel_id)
      || not (found_identity (get_lease s.db p.channel_id) identity)

  unfoldable pub joined_speaker : ℕ → SpeakerIdentity → Text → AppState → Outcome × AppState
  joined_speaker now p identity s =
      if is_violation p identity s
      then strike_and_remove env identity s
      else (done, record s { db = mark_lease_joined now p.channel_id identity s.db })

  abbrev pub joined_parsed : ℕ → Option SpeakerIdentity → Text → AppState → Outcome × AppState
  joined_parsed now none identity s =
      if is_listener_identity identity then (done, s) else strike_and_remove env identity s
  joined_parsed now (some p) identity s = joined_speaker now p identity s

  unfoldable pub joined_identity : ℕ → Text → AppState → Outcome × AppState
  joined_identity now identity s =
      if is_exempt identity
      then (done, s)
      else if RateLimit.is_blocked s.blocklist identity
      then remove env identity s
      else joined_parsed now (parse_speaker_identity env.digits identity) identity s

  abbrev pub with_participant :
      Option Text → (Text → AppState → Outcome × AppState) → AppState → Outcome × AppState
  with_participant none f s = (done, s)
  with_participant (some identity) f s = f identity s

  unfoldable pub on_joined : ℕ → WebhookEvent → AppState → Outcome × AppState
  on_joined now e s = with_participant e.participant (joined_identity now) s

  abbrev pub listed_participants : Option (List Participant) → List Participant
  listed_participants none = []
  listed_participants (some ps) = ps

  -- `part.identity == identity and len(part.tracks) > 1`
  abbrev pub has_second_track : Text → List Participant → Bool
  has_second_track identity ps =
      any (λ (p : Participant). p.identity == identity && ltb 1 p.tracks) ps

  -- `not track_name or track_name != expected_track`
  abbrev pub is_wrong_track : Option Text → Text → Bool
  is_wrong_track none expected = true
  is_wrong_track (some name) expected = is_empty_text name || not (name == expected)

  unfoldable pub is_unlicensed : SpeakerIdentity → Text → AppState → Bool
  is_unlicensed p identity s =
      is_violation p identity s || not (channel_open (get_channel s.db p.channel_id))

  -- Behind the wait for the listing.
  unfoldable pub published_listed :
      SpeakerIdentity → Text → List Participant → AppState → Outcome × AppState
  published_listed p identity ps s =
      if has_second_track identity ps
      then strike_and_remove env identity s
      else (done, record s { on_air = OnAir.set_publishing p.channel_id true s.on_air })

  unfoldable pub published_speaker :
      Option Text → SpeakerIdentity → Text → AppState → Outcome × AppState
  unfolding published_listed
  published_speaker track p identity s =
      if is_unlicensed p identity s
      then strike_and_remove env identity s
      else if is_wrong_track track (track_of p.channel_id)
      then strike_and_remove env identity s
      else published_listed p identity (listed_participants (env.participants (room s)))
          (env.meanwhile s)

  abbrev pub published_parsed :
      Option Text → Option SpeakerIdentity → Text → AppState → Outcome × AppState
  published_parsed track none identity s =
      if is_listener_identity identity then (done, s) else strike_and_remove env identity s
  published_parsed track (some p) identity s = published_speaker track p identity s

  unfoldable pub published_identity : Option Text → Text → AppState → Outcome × AppState
  published_identity track identity s =
      if is_exempt identity
      then (done, s)
      else published_parsed track (parse_speaker_identity env.digits identity) identity s

  unfoldable pub on_track_published : WebhookEvent → AppState → Outcome × AppState
  on_track_published e s = with_participant e.participant (published_identity e.track) s

  abbrev pub unpublished_parsed : Option SpeakerIdentity → Text → AppState → AppState
  unpublished_parsed none identity s = s
  unpublished_parsed (some p) identity s =
      if found_identity (get_lease s.db p.channel_id) identity
      then record s { on_air = OnAir.set_publishing p.channel_id false s.on_air }
      else s

  unfoldable pub unpublished_identity : Text → AppState → Outcome × AppState
  unpublished_identity identity s =
      if is_unseen env identity
      then (done, s)
      else (done, unpublished_parsed (parse_speaker_identity env.digits identity) identity s)

  unfoldable pub on_track_unpublished : WebhookEvent → AppState → Outcome × AppState
  on_track_unpublished e s = with_participant e.participant unpublished_identity s

  unfoldable pub left_parsed : Option SpeakerIdentity → Text → AppState → AppState
  left_parsed none identity s = s
  left_parsed (some p) identity s =
      let (released, db) = release_lease_if_identity p.channel_id identity s.db in
      if released
      then record s { db = db; on_air = OnAir.clear_channel p.channel_id s.on_air }
      else record s { db = db }

  unfoldable pub left_identity : Text → AppState → Outcome × AppState
  left_identity identity s =
      if is_unseen env identity
      then (done, s)
      else (done, left_parsed (parse_speaker_identity env.digits identity) identity s)

  unfoldable pub on_left : WebhookEvent → AppState → Outcome × AppState
  on_left e s = with_participant e.participant left_identity s

  unfoldable pub dispatch : EventType → ℕ → WebhookEvent → AppState → Outcome × AppState
  dispatch participant_joined now e s = on_joined now e s
  dispatch track_published now e s = on_track_published e s
  dispatch track_unpublished now e s = on_track_unpublished e s
  dispatch participant_left now e s = on_left e s
  dispatch participant_connection_aborted now e s = on_left e s
  dispatch (other _) now e s = (done, s)

  -- `if event_id: state.db.mark_webhook_processed(event_id)`
  unfoldable pub commit : ℕ → Text → AppState → AppState
  commit now id s =
      if is_empty_text id then s else record s { db = (mark_webhook_processed now id s.db).1 }

  -- An event that fails is not committed.
  abbrev pub finish : ℕ → Text → Outcome × AppState → Outcome × AppState
  finish now id (done, s) = (done, commit now id s)
  finish now id (failed, s) = (failed, s)

  abbrev pub is_foreign : WebhookEvent → AppState → Bool
  is_foreign e s = not (is_empty_text e.room) && not (e.room == room s)

  unfoldable pub process : ℕ → WebhookEvent → AppState → Outcome × AppState
  process now e s =
      if is_foreign e s
      then (done, commit now e.id s)
      else finish now e.id (dispatch e.event now e s)

  unfoldable pub handle : ℕ → WebhookEvent → AppState → Outcome × AppState
  handle now e s =
      if not (is_empty_text e.id) && is_webhook_processed e.id s.db
      then (done, s)
      else process now e (record_event env now e s)
