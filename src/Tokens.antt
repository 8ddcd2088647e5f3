-- ===== src/Tokens.antt =====
-- api/app/tokens.py: what the tokens grant, and the bodies of the replies that carry them. A `Token`
-- is what is signed: the signature, the key and the secret are the LiveKit library's. A UUID is a
-- parameter, and `expires_at` counts microseconds.
use ev211_field_server.Base.{
  ℕ, ◌+◌, Bool, true, false, Option, none, some, List, [], ◌∷◌, ◌++◌, Text, codes, take, seconds,
}
use ev211_field_server.Rooms.{room_name, intercom_room_name}
use ev211_field_server.Database.Channels.{track_of}

abbrev pub subscribe_ttl_seconds : ℕ
subscribe_ttl_seconds = 600

abbrev pub publish_ttl_seconds : ℕ
publish_ttl_seconds = 3600

abbrev pub monitor_ttl_seconds : ℕ
monitor_ttl_seconds = 600

abbrev pub intercom_ttl_seconds : ℕ
intercom_ttl_seconds = 3600

-- `timedelta(hours=24)`
abbrev pub recording_ttl_seconds : ℕ
recording_ttl_seconds = 86400

pub record VideoGrants : Type 0 where
  pub room : Text
  pub room_join : Bool
  pub can_subscribe : Bool
  pub can_publish : Bool
  pub can_publish_data : Bool
  -- `none` is an unset list.
  pub can_publish_sources : Option (List Text)
  pub hidden : Bool

pub record Token : Type 0 where
  pub identity : Text
  pub name : Option Text
  pub grants : VideoGrants
  pub ttl_seconds : ℕ

abbrev pub room_or : Option Text → Text → Text
room_or none room = room
room_or (some []) room = room
room_or (some (c ∷ t)) room = c ∷ t

abbrev pub microphone : Option (List Text)
microphone = some (codes "microphone" ∷ [])

abbrev pub name_of : Text → Option Text
name_of [] = none
name_of (c ∷ t) = some (c ∷ t)

unfoldable pub listening : Text → Bool → VideoGrants
listening room hidden = record {
  room = room;
  room_join = true;
  can_subscribe = true;
  can_publish = false;
  can_publish_data = false;
  can_publish_sources = none;
  hidden = hidden;
}

unfoldable pub speaking : Text → Bool → VideoGrants
speaking room can_publish_data = record {
  room = room;
  room_join = true;
  can_subscribe = true;
  can_publish = true;
  can_publish_data = can_publish_data;
  can_publish_sources = microphone;
  hidden = false;
}

unfoldable pub issue_subscribe_token : Text → ℕ → ℕ → Token × Text
unfolding listening
issue_subscribe_token uuid generation channel_id =
    let identity = codes "listener-" ++ uuid in
    (
      record {
        identity = identity;
        name = none;
        grants = listening (room_name generation) false;
        ttl_seconds = subscribe_ttl_seconds;
      },
      identity,
    )

unfoldable pub issue_publish_token : ℕ → Text → Bool → Token
unfolding speaking
issue_publish_token generation identity can_publish_data = record {
  identity = identity;
  name = none;
  grants = speaking (room_name generation) can_publish_data;
  ttl_seconds = publish_ttl_seconds;
}

unfoldable pub issue_monitor_token : Text → ℕ → Option Text → Token × Text
unfolding listening
issue_monitor_token uuid generation target_room =
    let identity = codes "monitor-" ++ uuid in
    (
      record {
        identity = identity;
        name = none;
        grants = listening (room_or target_room (room_name generation)) true;
        ttl_seconds = monitor_ttl_seconds;
      },
      identity,
    )

unfoldable pub issue_recording_token : Text → Text → Token × Text
unfolding listening
issue_recording_token uuid target_room =
    let identity = codes "monitor-recorder-" ++ uuid in
    (
      record {
        identity = identity;
        name = none;
        grants = listening target_room true;
        ttl_seconds = recording_ttl_seconds;
      },
      identity,
    )

unfoldable pub issue_intercom_token : Text → ℕ → Text → Option Text → Token × Text × Text
unfolding speaking
issue_intercom_token uuid generation name room =
    let identity = codes "intercom-" ++ uuid in
    (
      record {
        identity = identity;
        name = name_of name;
        grants = speaking (room_or room (intercom_room_name generation)) false;
        ttl_seconds = intercom_ttl_seconds;
      },
      identity,
      codes "ic-" ++ take 8 uuid,
    )

-- The body of a reply with a token; a key that a kind of token leaves out is `none`.
pub record TokenReply : Type 0 where
  pub token : Token
  pub room : Text
  pub url : Text
  pub listener_id : Option Text
  pub channel_id : Option ℕ
  pub track_name : Option Text
  pub identity : Option Text
  pub epoch : Option ℕ
  pub generation : Option ℕ
  pub ttl_seconds : ℕ
  pub expires_at : ℕ

-- `_expires_at`
unfoldable pub expires_at : ℕ → ℕ → ℕ
expires_at now ttl_seconds = now + seconds ttl_seconds

module _ (now : ℕ) where
  unfoldable pub intercom_response :
      Token → ℕ → Text → Text → Text → Option Text → Option ℕ → TokenReply
  unfolding expires_at
  intercom_response token generation ws_url identity track_name room channel_id = record {
    token = token;
    room = room_or room (intercom_room_name generation);
    url = ws_url;
    listener_id = none;
    channel_id = channel_id;
    track_name = some track_name;
    identity = some identity;
    epoch = none;
    generation = none;
    ttl_seconds = intercom_ttl_seconds;
    expires_at = expires_at now intercom_ttl_seconds;
  }

  unfoldable pub monitor_response : Token → ℕ → Text → Text → Option Text → Option ℕ → TokenReply
  unfolding expires_at
  monitor_response token generation ws_url identity target_room channel_id = record {
    token = token;
    room = room_or target_room (room_name generation);
    url = ws_url;
    listener_id = none;
    channel_id = channel_id;
    track_name = none;
    identity = some identity;
    epoch = none;
    generation = none;
    ttl_seconds = monitor_ttl_seconds;
    expires_at = expires_at now monitor_ttl_seconds;
  }

  unfoldable pub subscribe_response : Token → ℕ → ℕ → Text → Text → TokenReply
  unfolding expires_at
  subscribe_response token generation channel_id ws_url listener_id = record {
    token = token;
    room = room_name generation;
    url = ws_url;
    listener_id = some listener_id;
    channel_id = some channel_id;
    track_name = some (track_of channel_id);
    identity = none;
    epoch = none;
    generation = none;
    ttl_seconds = subscribe_ttl_seconds;
    expires_at = expires_at now subscribe_ttl_seconds;
  }

  unfoldable pub publish_response : Token → ℕ → ℕ → Text → Text → ℕ → TokenReply
  unfolding expires_at
  publish_response token generation channel_id ws_url identity epoch = record {
    token = token;
    room = room_name generation;
    url = ws_url;
    listener_id = none;
    channel_id = some channel_id;
    track_name = some (track_of channel_id);
    identity = some identity;
    epoch = some epoch;
    generation = some generation;
    ttl_seconds = publish_ttl_seconds;
    expires_at = expires_at now publish_ttl_seconds;
  }
