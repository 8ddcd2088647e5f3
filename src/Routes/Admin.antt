-- ===== src/Routes/Admin.antt =====
-- The administrator's routes of api/app/main.py on passwords, monitors and the intercom; the
-- status of the server, and the webhook's route. The bodies are read by Routes.Bodies.
use ev211_field_server.Base.{
  ℕ, ◌+◌, Bool, true, false, Option, none, some, List, [], ◌∷◌, map, Text, codes, Result, ok,
  raised, keep, length,
}
use ev211_field_server.Identity.{is_intercom_identity}
use ev211_field_server.HttpUtil.{Request}
use ev211_field_server.Database.Rows.{ChannelRow, LeaseRow, IntercomChannelRow}
use ev211_field_server.Database.Channels.{list_channels}
use ev211_field_server.Database.Leases.{get_lease}
use ev211_field_server.Database.Listeners.{has_any_live_heartbeat}
use ev211_field_server.Database.Settings.{get_intercom_channel, list_intercom_channels}
use ev211_field_server.State.{AppState}
use ev211_field_server.Webhook
use ev211_field_server.Events.{Participant, WebhookEvent, Outcome, done, failed}
use ev211_field_server.Rotation
use ev211_field_server.Rotation.{Answer, changed, same_password, livekit_failed}
use ev211_field_server.Tokens.{TokenReply, issue_monitor_token, monitor_response}
use ev211_field_server.Site.{
  World, Handler, Refusal, error, exception, gets, refuse, found, update, ◌>>=◌, ◌>>◌,
}
use ev211_field_server.Routes.Guards.{
  admin_guard, readmit, wait, unauthorized, not_found, livekit_error,
}
use ev211_field_server.Routes.Calls.{
  intercom_channel_room, ensure_room, ensure_intercom_channel_room,
}
use ev211_field_server.Routes.ChannelRoutes.{ChannelView, channel_view, views, purged}

abbrev pub bad_password : Refusal
bad_password = error (codes "invalid_password") 400 none

abbrev pub answered : Answer → Result Refusal (Unit {0})
answered changed = ok tt
answered same_password = raised bad_password
answered livekit_failed = raised livekit_error

pub record AdminChannel : Type 0 where
  pub view : ChannelView
  pub publisher_identity : Option Text
  pub publisher_joined_at : Option ℕ
  pub epoch : ℕ
  pub lease_held : Bool
  pub lease_expires_at : Option ℕ

pub record IntercomStatus : Type 0 where
  pub channel_id : ℕ
  pub name : Text
  -- The identities; the participants' names are not modelled.
  pub participants : List Text
  pub participant_count : ℕ
  pub available : Bool

unfoldable pub admin_channel : ChannelView → ChannelRow → Option LeaseRow → AdminChannel
admin_channel view c none = record {
  view = view;
  publisher_identity = none;
  publisher_joined_at = none;
  epoch = c.epoch;
  lease_held = false;
  lease_expires_at = none;
}
admin_channel view c (some l) = record {
  view = view;
  publisher_identity = some l.identity;
  publisher_joined_at = l.joined_at;
  epoch = c.epoch;
  lease_held = true;
  lease_expires_at = some l.expires_at;
}

abbrev pub total_of : List ℕ → ℕ
total_of [] = 0
total_of (n ∷ ns) = n + total_of ns

module _ (w : World) (now : ℕ) where
  unfoldable pub change_admin_password : Request → Text → Option Text → Handler (Unit {0})
  change_admin_password r new_password authorization = do
    admin_guard w true now r authorization
    wait w 0
    readmit w true authorization
    (λ s.
        let (a, app) = Rotation.change_admin_password_locked w.password_hash new_password s.app in
        (answered a, record s { app = app }))

  unfoldable pub change_send_password : Request → Text → Option Text → Handler (Unit {0})
  change_send_password r new_password authorization = do
    admin_guard w false now r authorization
    wait w 0
    readmit w false authorization
    (λ s.
        let (a, app) =
          Rotation.change_send_password_locked w.password_hash w.livekit now new_password s.app in
        (answered a, record s { app = app }))

  unfoldable pub issue_monitor : Request → Option Text → Handler TokenReply
  issue_monitor r authorization = do
    admin_guard w false now r authorization
    wait w 0
    readmit w false authorization
    ensure_room w
    (token, identity) ← gets (λ s. issue_monitor_token w.uuid s.app.generation none)
    gets (λ s. monitor_response now token s.app.generation w.settings.ws_url identity none none)

  unfoldable pub issue_intercom_monitor : Request → ℕ → Option Text → Handler TokenReply
  issue_intercom_monitor r channel_id authorization = do
    admin_guard w false now r authorization
    wait w 0
    readmit w true authorization
    o ← gets (λ s. get_intercom_channel channel_id s.app.db)
    found o not_found
    ensure_intercom_channel_room w exception channel_id
    room ← gets (λ s. intercom_channel_room channel_id s.app)
    (token, identity) ← gets (λ s. issue_monitor_token w.uuid s.app.generation (some room))
    gets (λ s.
        monitor_response now token s.app.generation w.settings.ws_url identity (some room)
          (some channel_id))

  abbrev pub admin_channels : AppState → List AdminChannel
  admin_channels s =
      map
        (λ (r : ℕ × ChannelRow).
          admin_channel (channel_view now r.0 r.1 s) r.1 (get_lease s.db r.0))
        (list_channels s.db)

  abbrev pub total_listeners : AppState → ℕ
  total_listeners s = total_of (map (λ (v : ChannelView). v.listeners) (views w now s))

  -- The generation, the number of listeners and the channels.
  unfoldable pub admin_status : Request → Option Text → Handler (ℕ × ℕ × List AdminChannel)
  admin_status r authorization = do
    admin_guard w true now r authorization
    update (purged now)
    gets (λ s. (s.app.generation, total_listeners s.app, admin_channels s.app))

  -- The generation, the number of listeners, whether it counts heartbeats, and the channels.
  unfoldable pub get_status : Handler (ℕ × ℕ × Bool × List ChannelView)
  get_status = do
    update (purged now)
    gets (λ s. (
      s.app.generation,
      total_listeners s.app,
      has_any_live_heartbeat now s.app.db,
      views w now s.app,
    ))

  abbrev pub intercom_users : List Participant → List Text
  intercom_users ps = keep is_intercom_identity (map (λ (p : Participant). p.identity) ps)

  unfoldable pub channel_status :
      ℕ → IntercomChannelRow → Option (List Participant) → IntercomStatus
  channel_status channel_id row none = record {
    channel_id = channel_id;
    name = row.name;
    participants = [];
    participant_count = 0;
    available = false;
  }
  channel_status channel_id row (some ps) = record {
    channel_id = channel_id;
    name = row.name;
    participants = intercom_users ps;
    participant_count = length (intercom_users ps);
    available = true;
  }

  abbrev pub statuses : AppState → List IntercomStatus
  statuses s =
      map
        (λ (r : ℕ × IntercomChannelRow).
          channel_status r.0 r.1 (w.env.participants (intercom_channel_room r.0 s)))
        (list_intercom_channels s.db)

  -- The channels, the generation and the number of participants.
  unfoldable pub admin_intercom_status :
      Request → Option Text → Handler (List IntercomStatus × ℕ × ℕ)
  unfolding channel_status
  admin_intercom_status r authorization = do
    admin_guard w false now r authorization
    gets (λ s. (
      statuses s.app,
      s.app.generation,
      total_of (map (λ (c : IntercomStatus). c.participant_count) (statuses s.app)),
    ))

  abbrev pub processed : Outcome → Result Refusal (Unit {0})
  processed done = ok tt
  processed failed = raised (error (codes "webhook_processing_failed") 503 none)

  abbrev pub handled : Option WebhookEvent → Handler (Unit {0})
  handled none s = (raised unauthorized, s)
  handled (some e) s =
      let (o, app) = Webhook.handle w.env now e s.app in (processed o, record s { app = app })

  -- `verified` is what the LiveKit library makes of the body and its signature, `none` where that
  -- raises.
  unfoldable pub livekit_webhook : Option WebhookEvent → Option Text → Handler (Unit {0})
  livekit_webhook verified none = refuse unauthorized
  livekit_webhook verified (some []) = refuse unauthorized
  livekit_webhook verified (some (c ∷ t)) = handled verified
