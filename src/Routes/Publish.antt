-- ===== src/Routes/Publish.antt =====
-- issue_publish of api/app/main.py: the token of a speaker.
pub mod Licence
use ev211_field_server.Base.{
  ℕ, Bool, true, false, ◌&&◌, not, Option, none, some, Text, codes, if◌then◌else◌, Result, ok,
  raised,
}
use ev211_field_server.HttpUtil.{Request}
use ev211_field_server.Database.Rows.{ChannelRow, LeaseRow, is_open, is_ai, send, relay}
use ev211_field_server.Database.Channels.{get_channel}
use ev211_field_server.Database.Leases.{
  get_lease, acquire_lease, extend_lease_if_identity, release_lease_if_identity,
}
use ev211_field_server.State.{AppState, room}
use ev211_field_server.Tokens.{
  TokenReply, issue_publish_token, publish_response, publish_ttl_seconds,
}
use ev211_field_server.Site.{
  Site, World, Handler, Refusal, gets, reply, refuse, refuse_if, update, ◌>>=◌, ◌>>◌,
}
use ev211_field_server.Routes.Guards.{
  send_guard, resend, wait, ip_of, invalid_password, not_found, channel_busy,
}
use ev211_field_server.Routes.Calls.{ensure_room, publisher_present, route_signal, record_signal}

-- LEASE_JOIN_GRACE_SECONDS
abbrev pub lease_join_grace_seconds : ℕ
lease_join_grace_seconds = 120

-- `if ch is None or ch.state != "open"`
abbrev pub if_open : Option ChannelRow → Handler ChannelRow
if_open none = refuse not_found
if_open (some c) = if is_open c.state then reply c else refuse not_found

unfoldable pub open_channel : ℕ → Handler ChannelRow
open_channel channel_id = do c ← gets (λ s. get_channel s.app.db channel_id); if_open c

module _ (w : World) (now : ℕ) where
  abbrev pub extended : ℕ → Text → AppState → AppState
  extended channel_id identity s = record s {
    db = (extend_lease_if_identity now channel_id identity publish_ttl_seconds s.db).1;
  }

  abbrev pub dropped : ℕ → Text → AppState → AppState
  dropped channel_id identity s = record s {
    db = (release_lease_if_identity channel_id identity s.db).1;
  }

  -- A joined lease is extended where its holder is in the room, and the request refused; it is
  -- released where the holder is not.
  unfoldable pub settle_joined : ℕ → Option LeaseRow → Site → Result Refusal (Unit {0}) × Site
  settle_joined channel_id none s = (ok tt, s)
  settle_joined channel_id (some l) s = elim l.joined_at [
    | none ↦ (ok tt, s)
    | some _ ↦
        if publisher_present w l.identity s.app
        then (raised channel_busy, record s { app = extended channel_id l.identity s.app })
        else (ok tt, record s { app = dropped channel_id l.identity s.app })
  ]

  abbrev pub granted : (Bool × Text) × AppState → Result Refusal Text × AppState
  granted ((true, identity), s) = (ok identity, s)
  granted ((false, _), s) = (raised channel_busy, s)

  unfoldable pub acquire : ℕ → ℕ → Handler Text
  acquire channel_id epoch s =
      let (acquired, db) =
        acquire_lease now channel_id epoch s.app.generation w.nonce publish_ttl_seconds
          lease_join_grace_seconds s.app.db in
      let (r, app) = granted (acquired, record s.app { db = db }) in (r, record s { app = app })

  abbrev pub publish_signalled : ℕ → Text → Text → Handler Bool
  publish_signalled channel_id identity ip s =
      record_signal w now
        (route_signal w send (codes "token_issued") relay (some channel_id) (room s.app) none
          identity ip)
        s

  abbrev pub publish_reply : ℕ → Text → ℕ → Site → TokenReply
  publish_reply channel_id identity epoch s =
      publish_response now (issue_publish_token s.app.generation identity false) s.app.generation
        channel_id w.settings.ws_url identity epoch

  -- The part for an open channel of people.
  unfoldable pub publish_human : Text → ℕ → ChannelRow → Handler TokenReply
  unfolding settle_joined acquire
  publish_human ip channel_id c = do
    ensure_room w
    l ← gets (λ s. get_lease s.app.db channel_id)
    settle_joined channel_id l
    identity ← acquire channel_id c.epoch
    publish_signalled channel_id identity ip
    gets (publish_reply channel_id identity c.epoch)

  -- The part under both locks.
  unfoldable pub publish_locked : Text → ℕ → Handler TokenReply
  unfolding open_channel publish_human
  publish_locked ip channel_id = do
    c ← open_channel channel_id
    refuse_if (is_ai c.source) channel_busy
    publish_human ip channel_id c

  unfoldable pub issue_publish : Request → ℕ → Option Text → Handler TokenReply
  unfolding publish_locked
  issue_publish r channel_id authorization = do
    send_guard w invalid_password now r authorization
    open_channel channel_id
    wait w 0
    resend w invalid_password now authorization
    wait w 1
    publish_locked (ip_of w r) channel_id
