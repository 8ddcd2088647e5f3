-- ===== src/Routes/Listen.antt =====
-- issue_subscribe and heartbeat of api/app/main.py: the listeners' routes, which need no password.
use ev211_field_server.Base.{
  ℕ, Bool, Option, none, some, Text, codes, if◌then◌else◌, Result, ok, raised,
}
use ev211_field_server.RateLimit
use ev211_field_server.HttpUtil.{Request}
use ev211_field_server.Database.Rows.{Database, ChannelRow, is_open, receive, relay}
use ev211_field_server.Database.Channels.{get_channel}
use ev211_field_server.Database.Listeners.{issue_listener, touch_issued_listener, record_heartbeat}
use ev211_field_server.State.{AppState, room}
use ev211_field_server.Tokens.{TokenReply, issue_subscribe_token, subscribe_response}
use ev211_field_server.Site.{
  Site, World, Handler, Refusal, error, exception, gets, reply, refuse, found, update, ◌>>=◌, ◌>>◌,
}
use ev211_field_server.Routes.Guards.{checked, wait, ip_of, not_found}
use ev211_field_server.Routes.Calls.{ensure_room, route_signal, record_signal}

-- LISTENER_HEARTBEAT_TTL_SECONDS
abbrev pub heartbeat_ttl_seconds : ℕ
heartbeat_ttl_seconds = 30

abbrev pub channel_closed : Refusal
channel_closed = error (codes "channel_closed") 409 none

abbrev pub if_listenable : Option ChannelRow → Handler (Unit {0})
if_listenable none = refuse not_found
if_listenable (some c) = if is_open c.state then reply tt else refuse channel_closed

pub record HeartbeatBody : Type 0 where
  pub channel_id : ℕ
  pub listener_id : Text

module _ (w : World) (now : ℕ) where
  unfoldable pub check_subscribe : Text → Handler (Unit {0})
  check_subscribe ip s =
      let (answer, limiter) = RateLimit.check s.subscribe_rl now ip in
      (checked answer, record s { subscribe_rl = limiter })

  abbrev pub issued : Option (Text × Database) → Site → Result Refusal Text × Site
  issued none s = (raised exception, s)
  issued (some (listener_id, db)) s = (ok listener_id, record s { app = record s.app { db = db } })

  -- `listener_id` is the fresh UUID of the ledger.
  unfoldable pub enter_listener : Text → ℕ → Handler Text
  enter_listener listener_id channel_id s =
      issued (issue_listener now listener_id channel_id s.app.db) s

  unfoldable pub issue_subscribe : Request → Text → ℕ → Handler TokenReply
  unfolding check_subscribe enter_listener
  issue_subscribe r fresh channel_id = do
    check_subscribe (ip_of w r)
    c ← gets (λ s. get_channel s.app.db channel_id)
    if_listenable c
    wait w 0
    ensure_room w
    (token, identity) ← gets (λ s. issue_subscribe_token w.uuid s.app.generation channel_id)
    listener_id ← enter_listener fresh channel_id
    name ← gets (λ s. room s.app)
    record_signal w now (
        route_signal w receive (codes "token_issued") relay (some channel_id) name none identity
          (ip_of w r))
    gets (λ s.
        subscribe_response now token s.app.generation channel_id w.settings.ws_url listener_id)

  unfoldable pub check_heartbeat : Text → Handler (Unit {0})
  check_heartbeat listener_id s =
      let (answer, limiter) = RateLimit.check s.heartbeat_rl now listener_id in
      (checked answer, record s { heartbeat_rl = limiter })

  unfoldable pub touch : HeartbeatBody → Handler Bool
  touch body s =
      let (known, db) = touch_issued_listener now body.listener_id body.channel_id s.app.db in
      (ok known, record s { app = record s.app { db = db } })

  abbrev pub beat : HeartbeatBody → AppState → AppState
  beat body s = record s {
    db = record_heartbeat now body.listener_id body.channel_id heartbeat_ttl_seconds s.db;
  }

  unfoldable pub known_heartbeat : HeartbeatBody → Handler (Unit {0})
  unfolding check_heartbeat
  known_heartbeat body = do
    check_heartbeat body.listener_id
    o ← gets (λ s. get_channel s.app.db body.channel_id)
    found o not_found
    update (beat body)

  -- A listener that was not issued on the channel is ignored.
  unfoldable pub heartbeat : HeartbeatBody → Handler (Unit {0})
  unfolding touch known_heartbeat
  heartbeat body = do known ← touch body; if known then known_heartbeat body else reply tt
