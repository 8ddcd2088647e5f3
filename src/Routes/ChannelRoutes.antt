-- ===== src/Routes/ChannelRoutes.antt =====
-- The channel routes of api/app/main.py: _channel_view and _channel_full, list_channels,
-- create_channel, get_channel and close_channel.
pub mod Closed
use ev211_field_server.Base.{
  ℕ, Bool, true, false, ◌&&◌, ◌||◌, not, Option, none, some, List, map, Text, ◌==◌, nat_eq, text_eq,
  leb, if◌then◌else◌, Result, ok, raised, codes,
}
use ev211_field_server.Base.Dict
use ev211_field_server.OnAir
use ev211_field_server.HttpUtil.{Request}
use ev211_field_server.Database.Rows.{
  Database, ChannelRow, ChannelState, Source, human, is_open, is_ai,
}
use ev211_field_server.Database.Channels
use ev211_field_server.Database.Channels.{
  list_channels, lowest_free_general_slot, count_open_general_channels, found_open, ChannelError,
}
use ev211_field_server.Database.Leases.{get_lease}
use ev211_field_server.Database.Listeners.{
  count_or_zero, count_heartbeats_by_channel, token_approximation_by_channel,
  has_any_live_heartbeat, purge_expired_heartbeats, purge_expired_issued_listeners,
}
use ev211_field_server.State.{AppState}
use ev211_field_server.Site.{
  Site, World, Handler, Refusal, exception, gets, reply, refuse, refuse_if, found, update, ◌>>=◌,
  ◌>>◌,
}
use ev211_field_server.Routes.Guards.{
  send_guard, https_guard, publish_allowed, count_publish, auth_send, auth_bearer,
  initial_admin_password, wait, ip_of, unauthorized, must_change_password, max_channels_reached,
  not_found,
}
use ev211_field_server.Routes.Publish.{open_channel}
use ev211_field_server.Routes.Takeover.{remove_or_refuse}
use ev211_field_server.Cascade.{
  floor_channel_id, end_ai_channel, close_and_clear, close_dependent_ai_channels,
}

pub record ChannelView : Type 0 where
  pub channel_id : ℕ
  pub track_name : Text
  pub language : Text
  pub label : Text
  pub state : ChannelState
  pub on_air : Bool
  pub listeners : ℕ
  pub source : Source
  pub target_language : Option Text
  -- `none` in a list of channels.
  pub created_at : Option ℕ

unfoldable pub listeners_of : ℕ → ℕ → AppState → ℕ
listeners_of now channel_id s =
    if has_any_live_heartbeat now s.db
    then count_or_zero (Dict.get (count_heartbeats_by_channel now s.db) channel_id)
    else count_or_zero (Dict.get (token_approximation_by_channel s.db) channel_id)

-- `_channel_view`
unfoldable pub channel_view : ℕ → ℕ → ChannelRow → AppState → ChannelView
unfolding listeners_of
channel_view now channel_id c s = record {
  channel_id = channel_id;
  track_name = c.track_name;
  language = c.language;
  label = c.label;
  state = c.state;
  on_air = OnAir.is_on_air s.on_air channel_id;
  listeners = listeners_of now channel_id s;
  source = c.source;
  target_language = c.target_language;
  created_at = none;
}

-- `_channel_full`
unfoldable pub channel_full : ℕ → ℕ → ChannelRow → AppState → ChannelView
channel_full now channel_id c s = record (channel_view now channel_id c s) {
  created_at = some c.created_at;
}

unfoldable pub purged : ℕ → AppState → AppState
purged now s = record s {
  db = purge_expired_issued_listeners now (purge_expired_heartbeats now s.db);
}

pub record ChannelList : Type 0 where
  pub channels : List ChannelView
  pub generation : ℕ
  pub max_channels : ℕ
  -- `listeners_source`, true for "heartbeat"
  pub from_heartbeats : Bool

pub record ChannelCreateBody : Type 0 where
  pub language : Text
  pub label : Text
  pub channel_id : Option ℕ

module _ (w : World) (now : ℕ) where
  abbrev pub views : AppState → List ChannelView
  views s = map (λ (r : ℕ × ChannelRow). channel_view now r.0 r.1 s) (list_channels s.db)

  unfoldable pub list_channels_route : Handler ChannelList
  unfolding purged
  list_channels_route = do
    update (purged now)
    gets (λ s. record {
      channels = views s.app;
      generation = s.app.generation;
      max_channels = w.settings.max_channels;
      from_heartbeats = has_any_live_heartbeat now s.app.db;
    })

  -- The id that the body names, or the lowest free slot.
  unfoldable pub chosen_slot : Option ℕ → Handler ℕ
  chosen_slot (some channel_id) = reply channel_id
  chosen_slot none = do
    slot ← gets (λ s. lowest_free_general_slot w.settings.max_channels s.app.db)
    found slot max_channels_reached

  -- The limit of open channels, beyond which only an open channel is looked at further.
  unfoldable pub is_over_limit : ℕ → Site → Bool
  is_over_limit channel_id s =
      not (channel_id == floor_channel_id)
      && leb w.settings.max_channels (count_open_general_channels s.app.db)
      && not (found_open (Channels.get_channel s.app.db channel_id))

  abbrev pub created :
      Result ChannelError (ChannelRow × Database) → AppState → Result Refusal ChannelRow × AppState
  created (raised _) s = (raised max_channels_reached, s)
  created (ok (c, db)) s = (ok c, record s { db = db })

  unfoldable pub add_channel : ℕ → ChannelCreateBody → Handler ChannelRow
  add_channel channel_id body s =
      let (r, app) =
        created
          (Channels.create_channel now channel_id body.language body.label human none none s.app.db)
          s.app in
      (r, record s { app = app })

  unfoldable pub create_channel : Request → ChannelCreateBody → Option Text → Handler ChannelView
  unfolding chosen_slot is_over_limit add_channel
  create_channel r body authorization = do
    send_guard w unauthorized now r authorization
    channel_id ← chosen_slot body.channel_id
    over ← gets (is_over_limit channel_id)
    refuse_if over max_channels_reached
    c ← add_channel channel_id body
    gets (λ s. channel_full now channel_id c s.app)

  unfoldable pub get_channel : ℕ → Handler ChannelView
  get_channel channel_id = do
    o ← gets (λ s. Channels.get_channel s.app.db channel_id)
    c ← found o not_found
    gets (λ s. channel_full now channel_id c s.app)

  -- By the sender's password, and by the administrator's.
  unfoldable pub either_auth : Option Text → Site → (Bool × Bool) × Site
  either_auth authorization s =
      let (sent, s') = auth_send w now authorization s in
      ((sent, auth_bearer w authorization s'.app.admin_password), s')

  abbrev pub only_initial : Bool → Bool → Site → Bool
  only_initial sent admin s = admin && not sent && (s.app.admin_password == initial_admin_password)

  unfoldable pub close_guard : Request → Option Text → Handler (Unit {0})
  unfolding either_auth
  close_guard r authorization = do
    https_guard w r
    publish_allowed w now (ip_of w r)
    (sent, admin) ← (λ s. let (b, s') = either_auth authorization s in (ok b, s'))
    initial ← gets (only_initial sent admin)
    refuse_if initial must_change_password
    count_publish w now (ip_of w r) unauthorized (sent || admin)

  unfoldable pub close_reauth : Option Text → Handler (Unit {0})
  unfolding either_auth
  close_reauth authorization = do
    (sent, admin) ← (λ s. let (b, s') = either_auth authorization s in (ok b, s'))
    refuse_if (not (sent || admin)) unauthorized
    initial ← gets (only_initial sent admin)
    refuse_if initial must_change_password

  unfoldable pub close_human : ℕ → Handler (Unit {0})
  close_human channel_id = do
    l ← gets (λ s. get_lease s.app.db channel_id)
    remove_or_refuse w now l
    update (close_and_clear w now channel_id)

  abbrev pub close_by_source : ℕ → Source → Handler (Unit {0})
  close_by_source channel_id human = close_human channel_id
  close_by_source channel_id Source.ai = update (end_ai_channel w now channel_id)

  -- The part under both locks.
  unfoldable pub close_locked : ℕ → Handler (Unit {0})
  unfolding close_human
  close_locked channel_id = do c ← open_channel channel_id; close_by_source channel_id c.source

  abbrev pub cascaded : Option (List ℕ × AppState) → Site → Result Refusal (Unit {0}) × Site
  cascaded none s = (raised exception, s)
  cascaded (some (_, app)) s = (ok tt, record s { app = app })

  unfoldable pub close_dependents : ℕ → Handler (Unit {0})
  close_dependents channel_id s = cascaded (close_dependent_ai_channels w now channel_id s.app) s

  unfoldable pub close_channel : Request → ℕ → Option Text → Handler (Unit {0})
  unfolding close_guard close_reauth close_locked close_dependents
  close_channel r channel_id authorization = do
    close_guard r authorization
    open_channel channel_id
    wait w 0
    close_reauth authorization
    wait w 1
    close_locked channel_id
    close_dependents channel_id
