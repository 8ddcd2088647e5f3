-- ===== src/Routes/Takeover.antt =====
-- takeover of api/app/main.py: an administrator takes a channel from its speaker.
pub mod Supersedes
use ev211_field_server.Base.{
  ℕ, Bool, true, false, Option, none, some, Text, codes, if◌then◌else◌, Result, ok, raised,
}
use ev211_field_server.OnAir
use ev211_field_server.HttpUtil.{Request}
use ev211_field_server.Database.Rows.{Database, LeaseRow, is_ai, send, relay}
use ev211_field_server.Database.Channels.{bump_channel_epoch}
use ev211_field_server.Database.Leases.{get_lease, force_acquire_lease}
use ev211_field_server.State.{AppState}
use ev211_field_server.Tokens.{TokenReply, publish_ttl_seconds}
use ev211_field_server.Site.{
  Site, World, Handler, Refusal, exception, gets, refuse_if, update, ◌>>=◌, ◌>>◌,
}
use ev211_field_server.Routes.Guards.{
  admin_guard, readmit, wait, ip_of, channel_busy, livekit_error,
}
use ev211_field_server.Routes.Calls.{ensure_room, try_remove}
use ev211_field_server.Routes.Publish.{open_channel, publish_signalled, publish_reply}

module _ (w : World) (now : ℕ) where
  abbrev pub if_removed : Bool × AppState → Result Refusal (Unit {0}) × AppState
  if_removed (true, s) = (ok tt, s)
  if_removed (false, s) = (raised livekit_error, s)

  -- The holder of a lease is removed, or the request refused.
  unfoldable pub remove_or_refuse : Option LeaseRow → Handler (Unit {0})
  remove_or_refuse none s = (ok tt, s)
  remove_or_refuse (some l) s =
      let (r, app) = if_removed (try_remove w l.identity s.app) in (r, record s { app = app })

  abbrev pub bumped : Option ℕ × Database → AppState → Result Refusal ℕ × AppState
  bumped (none, db) s = (raised exception, record s { db = db })
  bumped (some epoch, db) s = (ok epoch, record s { db = db })

  unfoldable pub bump_epoch : ℕ → Handler ℕ
  bump_epoch channel_id s =
      let (r, app) = bumped (bump_channel_epoch channel_id s.app.db) s.app in
      (r, record s { app = app })

  -- The new lease, and the channel off air.
  unfoldable pub seize : ℕ → ℕ → Handler Text
  seize channel_id epoch s =
      let (identity, db) =
        force_acquire_lease now channel_id epoch s.app.generation w.nonce publish_ttl_seconds
          s.app.db in
      (
        ok identity,
        record s {
          app = record s.app { db = db; on_air = OnAir.clear_channel channel_id s.app.on_air };
        },
      )

  -- The part for an open channel of people.
  unfoldable pub takeover_human : Text → ℕ → Handler TokenReply
  unfolding remove_or_refuse bump_epoch seize
  takeover_human ip channel_id = do
    ensure_room w
    l ← gets (λ s. get_lease s.app.db channel_id)
    remove_or_refuse l
    epoch ← bump_epoch channel_id
    identity ← seize channel_id epoch
    publish_signalled w now channel_id identity ip
    gets (publish_reply w now channel_id identity epoch)

  -- The part under both locks.
  unfoldable pub takeover_locked : Text → ℕ → Handler TokenReply
  unfolding open_channel takeover_human
  takeover_locked ip channel_id = do
    c ← open_channel channel_id
    refuse_if (is_ai c.source) channel_busy
    takeover_human ip channel_id

  unfoldable pub takeover : Request → ℕ → Option Text → Handler TokenReply
  unfolding takeover_locked
  takeover r channel_id authorization = do
    admin_guard w false now r authorization
    open_channel channel_id
    wait w 0
    readmit w false authorization
    wait w 1
    takeover_locked (ip_of w r) channel_id
