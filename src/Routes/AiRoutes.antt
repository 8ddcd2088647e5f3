-- ===== src/Routes/AiRoutes.antt =====
-- The routes of api/app/main.py for AI channels.
use ev211_field_server.Base.{
  ℕ, Bool, false, ◌&&◌, ◌||◌, not, Option, none, some, ◌++◌, Text, codes, ◌==◌, nat_eq, text_eq,
  if◌then◌else◌, Result, ok, raised,
}
use ev211_field_server.HttpUtil.{Request}
use ev211_field_server.Database.Rows.{
  Database, ChannelRow, ChannelState, Source, ai, is_ai, send, relay,
}
use ev211_field_server.Database.Channels
use ev211_field_server.Database.Channels.{
  get_channel, lowest_free_general_slot, is_open_ai, found_open, track_of, list_open_ai_channels,
  close_channel, ChannelError,
}
use ev211_field_server.State.{AppState, room, is_empty_text}
use ev211_field_server.AiChannels
use ev211_field_server.AiChannels.{AiWorkerParams, AiTranslateChannel, AiChannelManager}
use ev211_field_server.Site.{
  Site, World, Handler, Refusal, error, exception, gets, reply, refuse, refuse_if, found, update,
  ◌>>=◌, ◌>>◌,
}
use ev211_field_server.Routes.Guards.{
  send_guard, resend, wait, ip_of, invalid_password, not_found, max_channels_reached,
}
use ev211_field_server.Routes.Calls.{ensure_room, route_signal, record_signal}
use ev211_field_server.Routes.Publish.{acquire}
use ev211_field_server.Routes.ChannelRoutes.{close_dependents}
use ev211_field_server.Cascade.{floor_channel_id, ai_source_cycle, end_ai_channel}

abbrev pub ai_unavailable : Refusal
ai_unavailable = error (codes "ai_unavailable") 503 none

abbrev pub invalid_source : Refusal
invalid_source = error (codes "invalid_source") 409 none

pub record AiChannelView : Type 0 where
  pub channel_id : ℕ
  pub target_language : Option Text
  pub source : Option Source
  pub state : Option ChannelState
  pub track_name : Text
  pub room : Text
  -- The supervisor whose status is shown.
  pub worker : Option AiTranslateChannel

abbrev pub target_of : Option ChannelRow → Option Text
target_of none = none
target_of (some c) = c.target_language

abbrev pub source_of : Option ChannelRow → Option Source
source_of none = none
source_of (some c) = some c.source

abbrev pub state_of : Option ChannelRow → Option ChannelState
state_of none = none
state_of (some c) = some c.state

-- `_ai_channel_view`
unfoldable pub ai_channel_view : ℕ → AppState → AiChannelView
ai_channel_view channel_id s = record {
  channel_id = channel_id;
  target_language = target_of (get_channel s.db channel_id);
  source = source_of (get_channel s.db channel_id);
  state = state_of (get_channel s.db channel_id);
  track_name = track_of channel_id;
  room = room s;
  worker = AiChannels.get channel_id s.ai_channels;
}

pub record AiChannelCreateBody : Type 0 where
  pub target_language : Text
  pub source_channel : ℕ

-- A view of a new channel, with what the route adds to it.
pub record AiChannelCreated : Type 0 where
  pub view : AiChannelView
  pub identity : Text
  pub source_channel : ℕ
  pub generation : ℕ

abbrev pub found_open_ai : Option ChannelRow → Bool
found_open_ai none = false
found_open_ai (some c) = is_open_ai c

abbrev pub found_ai : Option ChannelRow → Bool
found_ai none = false
found_ai (some c) = is_ai c.source

abbrev pub is_same : Option AiTranslateChannel → AiTranslateChannel → Bool
is_same none c = false
is_same (some d) c = d.serial == c.serial

abbrev pub refuse_cycle : Option Bool → Handler (Unit {0})
refuse_cycle none = refuse exception
refuse_cycle (some b) = refuse_if b invalid_source

module _ (w : World) (now : ℕ) where
  -- The source is another channel, and the floor or an open one.
  unfoldable pub is_bad_source : ℕ → ℕ → Site → Bool
  is_bad_source channel_id source_channel s =
      (source_channel == channel_id)
      || (not (source_channel == floor_channel_id)
          && not (found_open (get_channel s.app.db source_channel)))

  abbrev pub created :
      Result ChannelError (ChannelRow × Database) → AppState → Result Refusal ChannelRow × AppState
  created (raised _) s = (raised max_channels_reached, s)
  created (ok (c, db)) s = (ok c, record s { db = db })

  unfoldable pub add_ai_channel : ℕ → AiChannelCreateBody → Handler ChannelRow
  add_ai_channel channel_id body s =
      let (r, app) =
        created
          (Channels.create_channel now channel_id body.target_language
            (codes "AI: " ++ body.target_language) ai (some body.target_language)
            (some body.source_channel) s.app.db)
          s.app in
      (r, record s { app = app })

  abbrev pub or_rolled_back : ℕ → Result Refusal Text × Site → Result Refusal Text × Site
  or_rolled_back channel_id (ok identity, s) = (ok identity, s)
  or_rolled_back channel_id (raised e, s) =
      (raised e, record s { app = record s.app { db = close_channel now channel_id s.app.db } })

  unfoldable pub acquire_or_close : ℕ → ℕ → Handler Text
  acquire_or_close channel_id epoch s = or_rolled_back channel_id (acquire w now channel_id epoch s)

  abbrev pub params_of : ℕ → Text → ℕ → Text → AppState → AiWorkerParams
  params_of channel_id target_language source_channel identity s = record {
    channel_id = channel_id;
    target_language = target_language;
    token = identity;
    room = room s;
    publish_track = track_of channel_id;
    subscribe_track = track_of source_channel;
  }

  unfoldable pub start_worker : AiWorkerParams → Handler AiTranslateChannel
  start_worker params s =
      let (channel, m) = AiChannels.start params s.app.ai_channels in
      (ok channel, record s { app = record s.app { ai_channels = m } })

  -- The part under both locks: the worker and the reply.
  unfoldable pub create_ai_locked :
      Text → ℕ → AiChannelCreateBody → Handler (AiTranslateChannel × AiChannelCreated)
  unfolding is_bad_source add_ai_channel acquire_or_close start_worker ai_channel_view
  create_ai_locked ip channel_id body = do
    bad ← gets (is_bad_source channel_id body.source_channel)
    refuse_if bad invalid_source
    cycle ← gets (λ s. ai_source_cycle s.app.db channel_id body.source_channel)
    refuse_cycle cycle
    ensure_room w
    c ← add_ai_channel channel_id body
    identity ← acquire_or_close channel_id c.epoch
    params ←
        gets (λ s. params_of channel_id body.target_language body.source_channel identity s.app)
    channel ← start_worker params
    name ← gets (λ s. room s.app)
    record_signal w now (
        route_signal w send (codes "ai_channel_created") relay (some channel_id) name none identity
          ip)
    view ← gets (λ s. ai_channel_view channel_id s.app)
    generation ← gets (λ s. s.app.generation)
    reply (
      channel,
      record {
        view = view;
        identity = identity;
        source_channel = body.source_channel;
        generation = generation;
      },
    )

  -- The worker is still the registered one, and its channel an AI channel.
  unfoldable pub is_still : ℕ → AiTranslateChannel → Site → Bool
  is_still channel_id channel s =
      is_same (AiChannels.get channel_id s.app.ai_channels) channel
      && found_ai (get_channel s.app.db channel_id)

  unfoldable pub roll_back : ℕ → Handler (Unit {0})
  roll_back channel_id = do
    update (end_ai_channel w now channel_id)
    close_dependents w now channel_id

  unfoldable pub not_ready : ℕ → AiTranslateChannel → Handler AiChannelCreated
  unfolding is_still roll_back
  not_ready channel_id channel = do
    wait w 3
    still ← gets (is_still channel_id channel)
    if still then roll_back channel_id else reply tt
    refuse ai_unavailable

  -- `ready` tells whether the worker has connected in time.
  unfoldable pub create_ai_channel :
      Bool → Request → AiChannelCreateBody → Option Text → Handler AiChannelCreated
  unfolding create_ai_locked not_ready
  create_ai_channel ready r body authorization = do
    send_guard w invalid_password now r authorization
    refuse_if (is_empty_text w.settings.openai_api_key) ai_unavailable
    wait w 0
    resend w invalid_password now authorization
    slot ← gets (λ s. lowest_free_general_slot w.settings.max_channels s.app.db)
    channel_id ← found slot max_channels_reached
    wait w 1
    (channel, view) ← create_ai_locked (ip_of w r) channel_id body
    wait w 2
    if ready then reply view else not_ready channel_id channel

  abbrev pub if_open_ai : Option ChannelRow → Handler (Unit {0})
  if_open_ai o = refuse_if (not (found_open_ai o)) not_found

  unfoldable pub delete_ai_channel : Request → ℕ → Option Text → Handler (Unit {0})
  delete_ai_channel r channel_id authorization = do
    send_guard w invalid_password now r authorization
    wait w 0
    resend w invalid_password now authorization
    wait w 1
    c ← gets (λ s. get_channel s.app.db channel_id)
    if_open_ai c
    update (end_ai_channel w now channel_id)
    close_dependents w now channel_id

  unfoldable pub get_ai_channel_status : Request → ℕ → Option Text → Handler AiChannelView
  get_ai_channel_status r channel_id authorization = do
    send_guard w invalid_password now r authorization
    c ← gets (λ s. get_channel s.app.db channel_id)
    refuse_if (not (found_ai c)) not_found
    gets (λ s. ai_channel_view channel_id s.app)
