-- ===== src/Examples/Fixtures.antt =====
-- A server with one open channel, whose speaker holds its lease.
use ev211_field_server.Base.{true, false, ◌==◌, nat_eq, text_eq, none, some, [], ◌∷◌, Text, codes}
use ev211_field_server.RateLimit.{new_blocklist, new_limiter, FailureLock}
use ev211_field_server.HttpUtil.{Addresses, Request}
use ev211_field_server.OnAir.{new_tracker}
use ev211_field_server.AiChannels.{new_manager}
use ev211_field_server.Identity.{SpeakerIdentity}
use ev211_field_server.Identity.RoundTrip.{ascii_digits}
use ev211_field_server.Database.Rows.{
  Database, ChannelRow, opened, closed, human, LeaseRow, track_published, participant_joined,
  empty_db,
}
use ev211_field_server.State.{AppState}
use ev211_field_server.Events.{Env, removed, refused, WebhookEvent}
use ev211_field_server.Rotation.{LiveKit}
use ev211_field_server.Bootstrap.{Server}
use ev211_field_server.Site.{World, Site, password}

abbrev pub speaker_one : Text
speaker_one = codes "speaker-ch-01-e1-g1-nab"

abbrev pub channel_row : ChannelRow
channel_row = record {
  track_name = codes "ch-01";
  language = codes "ko";
  label = [];
  state = opened;
  epoch = 1;
  created_at = 0;
  source = human;
  target_language = none;
  source_channel = none;
}

abbrev pub lease_row : LeaseRow
lease_row = record {
  identity = speaker_one;
  epoch = 1;
  generation = 1;
  nonce = codes "ab";
  expires_at = 3600000000;
  joined_at = some 5;
}

abbrev pub db_one : Database
db_one = record empty_db {
  generation = some (1, codes "p:a");
  channels = (1, channel_row) ∷ [];
  leases = (1, lease_row) ∷ [];
}

abbrev pub state_one : AppState
state_one = record {
  db = db_one;
  on_air = new_tracker;
  blocklist = new_blocklist 3;
  generation = 1;
  send_password = codes "p";
  admin_password = codes "a";
  active_join_code = codes "J";
  ai_channels = new_manager;
  calls = [];
}

abbrev pub two_passwords : Text → Text → Text
two_passwords p a = codes "hash"

-- LiveKit removes whom it is asked to, and lists no one.
abbrev pub env_one : Env
env_one = record {
  digits = ascii_digits;
  hash = λ t. t;
  lower = λ t. t;
  remove = λ r i. removed;
  participants = λ r. some [];
  meanwhile = λ s. s;
}

-- LiveKit fails to remove.
abbrev pub env_failing : Env
env_failing = record env_one { remove = λ r i. refused (codes "timeout") }

abbrev pub publication : WebhookEvent
publication = record {
  id = codes "e1";
  event = track_published;
  room = codes "field-g1";
  participant = some speaker_one;
  track = some (codes "ch-01");
}

-- A join that no lease covers.
abbrev pub stranger : Text
stranger = codes "someone"

abbrev pub stranger_joins : WebhookEvent
stranger_joins = record publication { event = participant_joined; participant = some stranger }

-- A LiveKit with a room of an old generation.
abbrev pub livekit_one : LiveKit
livekit_one = record {
  creates = λ r. true;
  rooms = some (codes "field-g1" ∷ []);
  deletes = λ r. true;
  ends = λ n. true;
}

abbrev pub server_one : Server
server_one = record {
  digits = ascii_digits;
  livekit = livekit_one;
  participants = λ r. some (record { identity = speaker_one; tracks = 1 } ∷ []);
  removes = λ r i. true;
}

abbrev pub foreign : WebhookEvent
foreign = record publication { room = codes "intercom-g1-c2" }

abbrev pub parsed_one : SpeakerIdentity
parsed_one = record {
  channel_id = 1;
  epoch = 1;
  generation = 1;
  nonce = codes "ab";
  raw = speaker_one;
}

-- The channel is closed, and its lease is left.
abbrev pub closed_state : AppState
closed_state = record state_one {
  db = record db_one { channels = (1, record channel_row { state = closed }) ∷ [] };
}

-- Every text is an address, and a network holds its own text alone.
abbrev pub texts : Addresses
texts = record {
  Address = Text;
  Network = Text;
  ip_address = λ t. some t;
  ip_network = λ t. some t;
  is_member = λ a n. a == n;
  is_space = λ c. c == 32;
  lower = λ t. t;
}

abbrev pub request : Request
request = record {
  client_host = some (codes "10.0.0.1");
  forwarded_for = none;
  forwarded_proto = none;
  scheme = codes "http";
}

-- The sender's password is `p`, the administrator's `a`; nothing happens during the waits.
abbrev pub world_one : World
world_one = record {
  settings = record {
    ws_url = codes "ws://localhost:7880";
    max_channels = 15;
    forwarded_allow_ips = codes "10.0.0.1";
    intercom_max = 8;
    send_auth_mode = password;
    openai_api_key = [];
  };
  env = env_one;
  livekit = livekit_one;
  addresses = texts;
  is_loopback = λ a. false;
  upper = λ t. t;
  call_verify = λ j p. false;
  answered = 0;
  nonce = codes "ab";
  uuid = codes "00ff";
  password_hash = two_passwords;
  meanwhile = λ n s. s;
}

abbrev pub lock_one : FailureLock
lock_one = record { fail_limit = 5; lock_seconds = 60; fails = []; locked_until = [] }

abbrev pub site_one : Site
site_one = record {
  app = state_one;
  subscribe_rl = new_limiter 30;
  heartbeat_rl = new_limiter 30;
  publish_rl = new_limiter 30;
  admin_rl = new_limiter 30;
  publish_lock = lock_one;
  admin_lock = lock_one;
  intercom_pw_lock = lock_one;
  live_cache = [];
}

abbrev pub https_request : Request
https_request = record request { scheme = codes "https" }
