-- ===== src/State.antt =====
-- api/app/state.py: the application's state, and the usage sessions that signal events open and
-- close. The calls that go out to LiveKit are listed in `calls`, in their order.
use ev211_field_server.Base.{
  ℕ, Bool, true, false, Option, none, some, List, [], ◌∷◌, Text, text_eq, if◌then◌else◌, take,
}
use ev211_field_server.RateLimit.{Blocklist}
use ev211_field_server.OnAir.{OnAirTracker}
use ev211_field_server.AiChannels.{AiChannelManager}
use ev211_field_server.Rooms.{room_name}
use ev211_field_server.Database.Rows.{
  Database, ChannelRow, is_ai, Direction, receive, EventType, participant_joined, participant_left,
  Scope, relay, intercom, UsageKind, listen, send_voice, intercom_talk, ai_translate,
}
use ev211_field_server.Database.Channels.{get_channel}
use ev211_field_server.Database.Usage.{open_usage_session, close_usage_session}
use ev211_field_server.Database.Signals
use ev211_field_server.Database.Signals.{last_event_channel_for_subject}

pub data LiveKitCall : Type 0 where
  create_room delete_room : Text → LiveKitCall
  remove_participant : Text → Text → LiveKitCall

pub record AppState : Type 0 where
  pub db : Database
  pub on_air : OnAirTracker
  pub blocklist : Blocklist
  pub generation : ℕ
  pub send_password : Text
  pub admin_password : Text
  pub active_join_code : Text
  pub ai_channels : AiChannelManager
  pub calls : List LiveKitCall

unfoldable pub room : AppState → Text
room s = room_name s.generation

abbrev pub is_empty_text : Text → Bool
is_empty_text [] = true
is_empty_text (_ ∷ _) = false

-- `x[:n] if x else None`
abbrev pub clip : ℕ → Option Text → Option Text
clip n none = none
clip n (some []) = none
clip n (some (c ∷ t)) = some (take n (c ∷ t))

abbrev pub language_of : Option ChannelRow → Option Text
language_of none = none
language_of (some c) = some c.language

abbrev pub channel_of : Option ℕ → Database → Option ChannelRow
channel_of none db = none
channel_of (some k) db = get_channel db k

-- The send directions: an AI channel is accounted by its own kind.
unfoldable pub send_kind : Option ChannelRow → UsageKind × Option Text
send_kind none = (send_voice, none)
send_kind (some c) =
    if is_ai c.source then (ai_translate, c.target_language) else (send_voice, some c.language)

unfoldable pub usage_kind : Direction → Scope → Option ℕ → Database → UsageKind × Option Text
unfolding send_kind
usage_kind direction intercom channel_id db = (intercom_talk, none)
usage_kind receive relay channel_id db = (listen, language_of (channel_of channel_id db))
usage_kind _ relay channel_id db = send_kind (channel_of channel_id db)

-- A listener's join has no channel: it is the one of the subject's last event.
unfoldable pub attributed : Scope → Option ℕ → Text → Database → Option ℕ
attributed relay none subject_hash db = last_event_channel_for_subject subject_hash db
attributed _ channel_id subject_hash db = channel_id

unfoldable pub open_for_join : ℕ → Direction → Scope → Option ℕ → Text → AppState → AppState
unfolding usage_kind attributed
open_for_join now direction scope channel_id subject_hash s =
    let channel = attributed scope channel_id subject_hash s.db in
    let (kind, language) = usage_kind direction scope channel s.db in
    if is_empty_text s.active_join_code then s else record s {
      db = (open_usage_session now s.active_join_code kind subject_hash language channel s.db).1;
    }

unfoldable pub track_by_type :
    EventType → ℕ → Direction → Scope → Option ℕ → Text → AppState → AppState
unfolding open_for_join
track_by_type participant_joined now direction scope channel_id subject_hash s =
    open_for_join now direction scope channel_id subject_hash s
track_by_type participant_left now direction scope channel_id subject_hash s = record s {
  db = (close_usage_session now subject_hash s.db).1;
}
track_by_type _ now direction scope channel_id subject_hash s = s

unfoldable pub track_usage :
    ℕ → Direction → EventType → Scope → Option ℕ → Option Text → AppState → AppState
unfolding track_by_type
track_usage now direction event_type scope channel_id none s = s
track_usage now direction event_type scope channel_id (some []) s = s
track_usage now direction event_type scope channel_id (some (c ∷ h)) s =
    track_by_type event_type now direction scope channel_id (c ∷ h) s

-- What one call of `record_signal_event` names; `subject` is hashed by the parameter `hash`.
pub record Signal : Type 0 where
  pub direction : Direction
  pub event_type : EventType
  pub scope : Scope
  pub channel_id : Option ℕ
  pub generation : Option ℕ
  pub room : Option Text
  pub track_name : Option Text
  pub subject : Text
  pub client_ip : Option Text
  pub source_event_id : Option Text

abbrev pub generation_or : Option ℕ → ℕ → ℕ
generation_or none g = g
generation_or (some n) g = n

-- `sha256(subject).hexdigest()[:16]`
abbrev pub subject_hash : (Text → Text) → Text → Option Text
subject_hash hash [] = none
subject_hash hash (c ∷ t) = some (take 16 (hash (c ∷ t)))

unfoldable pub record_signal_event : (Text → Text) → ℕ → Signal → AppState → Bool × AppState
record_signal_event hash now e s =
    let hashed = subject_hash hash e.subject in
    let (inserted, db) =
      Signals.record_signal_event now e.direction e.event_type e.scope e.channel_id
        (some (generation_or e.generation s.generation)) (clip 128 e.room) (clip 128 e.track_name)
        hashed (clip 64 e.client_ip) (clip 128 e.source_event_id) s.db in
    if inserted
    then (
      true,
      track_usage now e.direction e.event_type e.scope e.channel_id hashed (record s { db = db }),
    )
    else (false, record s { db = db })
