-- ===== src/Database/Rows.antt =====
-- The tables of api/app/db.py. The primary key of a row is the key of its entry; rows with a key
-- that SQLite counts up (AUTOINCREMENT) are listed in the order of their keys.
use ev211_field_server.Base.{ℕ, Bool, true, false, Option, none, List, [], Text}

pub data ChannelState : Type 0 where
  opened closed : ChannelState

pub data Source : Type 0 where
  human ai : Source

abbrev pub is_open : ChannelState → Bool
is_open opened = true
is_open closed = false

abbrev pub is_ai : Source → Bool
is_ai ai = true
is_ai human = false

pub record ChannelRow : Type 0 where
  pub track_name : Text
  pub language : Text
  pub label : Text
  pub state : ChannelState
  pub epoch : ℕ
  pub created_at : ℕ
  pub source : Source
  pub target_language : Option Text
  pub source_channel : Option ℕ

pub record LeaseRow : Type 0 where
  pub identity : Text
  pub epoch : ℕ
  pub generation : ℕ
  pub nonce : Text
  pub expires_at : ℕ
  pub joined_at : Option ℕ

pub record IntercomChannelRow : Type 0 where
  pub name : Text
  pub password_hash : Option Text
  pub created_at : ℕ

pub data Direction : Type 0 where
  send receive both : Direction

pub data Scope : Type 0 where
  relay intercom : Scope

-- The event types that the code compares with; `other` is any other text.
pub data EventType : Type 0 where
  participant_joined participant_left participant_connection_aborted : EventType
  track_published track_unpublished : EventType
  other : Text → EventType

pub record SignalEventRow : Type 0 where
  pub event_id : ℕ
  pub occurred_at : ℕ
  pub direction : Direction
  pub event_type : EventType
  pub scope : Scope
  pub channel_id : Option ℕ
  pub generation : Option ℕ
  pub room : Option Text
  pub track_name : Option Text
  pub subject_hash : Option Text
  pub client_ip : Option Text
  pub source_event_id : Option Text

pub data UsageKind : Type 0 where
  listen send_voice intercom_talk ai_translate : UsageKind

pub record UsageSessionRow : Type 0 where
  pub session_id : ℕ
  pub join_code : Text
  pub kind : UsageKind
  pub language : Option Text
  pub channel_id : Option ℕ
  pub subject_hash : Text
  pub started_at : ℕ
  pub ended_at : Option ℕ
  pub pushed_at : Option ℕ
  pub attempts : ℕ

pub record Database : Type 0 where
  pub generation : Option (ℕ × Text)
  pub channels : List (ℕ × ChannelRow)
  pub leases : List (ℕ × LeaseRow)
  pub processed_webhooks : List (Text × ℕ)
  pub issued_listeners : List (Text × (ℕ × ℕ))
  pub heartbeats : List (Text × (ℕ × ℕ))
  pub subscribe_token_counts : List (ℕ × ℕ)
  pub settings : List (Text × Text)
  pub intercom_channels : List (ℕ × IntercomChannelRow)
  pub signal_events : List SignalEventRow
  pub next_event : ℕ
  pub usage_sessions : List UsageSessionRow
  pub next_session : ℕ

abbrev pub empty_db : Database
empty_db = record {
  generation = none;
  channels = [];
  leases = [];
  processed_webhooks = [];
  issued_listeners = [];
  heartbeats = [];
  subscribe_token_counts = [];
  settings = [];
  intercom_channels = [];
  signal_events = [];
  next_event = 1;
  usage_sessions = [];
  next_session = 1;
}
