-- ===== src/Routes/Intercom.antt =====
-- The intercom routes of api/app/main.py: issue_intercom, list_intercom_channels,
-- create_intercom_channel and enter_intercom_channel.
use ev211_field_server.Base.{
  ℕ, Bool, true, false, ◌||◌, not, Option, none, some, List, [], ◌∷◌, ◌++◌, map, Text, codes, ◌==◌,
  nat_eq, text_eq, leb, Result, ok, raised,
}
use ev211_field_server.Base.Decimal.{decimal}
use ev211_field_server.RateLimit
use ev211_field_server.HttpUtil.{Request}
use ev211_field_server.Database.Rows.{Database, IntercomChannelRow, both, intercom}
use ev211_field_server.Database.Channels.{ChannelError}
use ev211_field_server.Database.Settings
use ev211_field_server.Database.Settings.{get_intercom_channel, lowest_free_intercom_slot}
use ev211_field_server.ChannelPassword.{Scrypt, channel_password_hash, channel_password_matches}
use ev211_field_server.State.{AppState}
use ev211_field_server.Tokens.{TokenReply, issue_intercom_token, intercom_response}
use ev211_field_server.Site.{
  Site, World, Handler, Refusal, error, gets, reply, refuse_if, found, ◌>>=◌, ◌>>◌,
}
use ev211_field_server.Routes.Guards.{
  send_guard, resend, check_lock, wait, ip_of, invalid_password, not_found, livekit_error,
  max_channels_reached,
}
use ev211_field_server.Routes.Calls.{
  intercom_room, intercom_channel_room, intercom_user_count, ensure_intercom_room,
  ensure_intercom_channel_room, participants_of, route_signal, record_signal,
}

-- INTERCOM_MAX_CHANNELS
abbrev pub intercom_max_channels : ℕ
intercom_max_channels = 8

abbrev pub intercom_full : Refusal
intercom_full = error (codes "intercom_full") 409 none

abbrev pub channel_changed : Refusal
channel_changed = error (codes "channel_changed") 409 none

abbrev pub invalid_channel_password : Refusal
invalid_channel_password = error (codes "invalid_channel_password") 401 none

pub record IntercomChannelView : Type 0 where
  pub channel_id : ℕ
  pub name : Text
  pub has_password : Bool

pub record IntercomChannelList : Type 0 where
  pub channels : List IntercomChannelView
  pub generation : ℕ
  pub max_channels : ℕ

abbrev pub is_some : Option Text → Bool
is_some none = false
is_some (some _) = true

-- `_intercom_channel_view`
unfoldable pub intercom_channel_view : ℕ → IntercomChannelRow → IntercomChannelView
intercom_channel_view channel_id row = record {
  channel_id = channel_id;
  name = row.name;
  has_password = is_some row.password_hash;
}

abbrev pub same_hash : Option Text → Option Text → Bool
same_hash none none = true
same_hash (some a) (some b) = a == b
same_hash _ _ = false

module _ (w : World) (now : ℕ) where
  -- The room is counted and the token issued, under the rotation lock.
  unfoldable pub issue_for_room : Text → Text → Text → Option Text → Option ℕ → Handler TokenReply
  issue_for_room ip name room target channel_id = do
    ps ← participants_of w livekit_error room
    refuse_if (leb w.settings.intercom_max (intercom_user_count ps)) intercom_full
    (token, identity, track) ← gets (λ s. issue_intercom_token w.uuid s.app.generation name target)
    record_signal w now (
        route_signal w both (codes "token_issued") intercom channel_id room (some track) identity
          ip)
    gets (λ s.
        intercom_response now token s.app.generation w.settings.ws_url identity track target
          channel_id)

  unfoldable pub issue_intercom : Request → Text → Option Text → Handler TokenReply
  unfolding issue_for_room
  issue_intercom r name authorization = do
    send_guard w invalid_password now r authorization
    wait w 0
    resend w invalid_password now authorization
    ensure_intercom_room w livekit_error
    room ← gets (λ s. intercom_room s.app)
    issue_for_room (ip_of w r) name room none none

  abbrev pub intercom_views : AppState → List IntercomChannelView
  intercom_views s =
      map (λ (r : ℕ × IntercomChannelRow). intercom_channel_view r.0 r.1)
        (Settings.list_intercom_channels s.db)

  unfoldable pub list_intercom_channels : Request → Option Text → Handler IntercomChannelList
  list_intercom_channels r authorization = do
    send_guard w invalid_password now r authorization
    gets (λ s. record {
      channels = intercom_views s.app;
      generation = s.app.generation;
      max_channels = intercom_max_channels;
    })

  abbrev pub created :
      ℕ
      → Result ChannelError (IntercomChannelRow × Database)
      → AppState
      → Result Refusal IntercomChannelView × AppState
  created channel_id (raised _) s = (raised max_channels_reached, s)
  created channel_id (ok (row, db)) s =
      (ok (intercom_channel_view channel_id row), record s { db = db })

  unfoldable pub add_intercom_channel : ℕ → Text → Option Text → Handler IntercomChannelView
  add_intercom_channel channel_id name password_hash s =
      let (r, app) =
        created channel_id
          (Settings.create_intercom_channel now channel_id name password_hash s.app.db) s.app in
      (r, record s { app = app })

  module _ (h : Scrypt) where
    -- `None` and the empty text are no password.
    abbrev pub hash_of : Option Text → Option Text
    hash_of none = none
    hash_of (some []) = none
    hash_of (some (c ∷ t)) = some (channel_password_hash h (c ∷ t))

    unfoldable pub create_intercom_channel :
        Request → Text → Option Text → Option Text → Handler IntercomChannelView
    unfolding add_intercom_channel
    create_intercom_channel r channel_name password authorization = do
      send_guard w invalid_password now r authorization
      wait w 0
      resend w invalid_password now authorization
      slot ← gets (λ s. lowest_free_intercom_slot intercom_max_channels s.app.db)
      channel_id ← found slot max_channels_reached
      ensure_intercom_channel_room w livekit_error channel_id
      add_intercom_channel channel_id channel_name (hash_of password)

    unfoldable pub pw_key : Text → ℕ → Text
    pw_key ip channel_id = ip ++ b':' ∷ decimal channel_id

    abbrev pub opens : Text → Text → Bool
    opens [] stored = false
    opens (c ∷ t) stored = channel_password_matches h (c ∷ t) stored

    -- The password's answer, counted by the lock of the key.
    unfoldable pub count_channel_password : Text → Bool → Handler (Unit {0})
    count_channel_password key true s =
        (ok tt, record s { intercom_pw_lock = RateLimit.record_success s.intercom_pw_lock key })
    count_channel_password key false s = (
      raised invalid_channel_password,
      record s { intercom_pw_lock = RateLimit.record_failure s.intercom_pw_lock now key },
    )

    abbrev pub check_channel_password : Text → Text → Option Text → Handler (Unit {0})
    check_channel_password key password none = reply tt
    check_channel_password key password (some stored) =
        count_channel_password key (opens password stored)

    -- The password of the channel, under the lock of the key: the generation and the hash that were
    -- checked.
    unfoldable pub verify_channel : Text → ℕ → Text → Handler (ℕ × Option Text)
    unfolding count_channel_password
    verify_channel key channel_id password = do
      l ← gets (λ s. s.intercom_pw_lock)
      check_lock w now key l
      o ← gets (λ s. get_intercom_channel channel_id s.app.db)
      row ← found o not_found
      generation ← gets (λ s. s.app.generation)
      check_channel_password key password row.password_hash
      reply (generation, row.password_hash)

    abbrev pub is_changed : ℕ × Option Text → Option Text → Site → Bool
    is_changed (generation, checked_hash) stored s =
        not (s.app.generation == generation) || not (same_hash stored checked_hash)

    -- The part under the rotation lock.
    unfoldable pub enter_locked : Text → ℕ → Text → ℕ × Option Text → Handler TokenReply
    unfolding issue_for_room
    enter_locked ip channel_id name verified = do
      o ← gets (λ s. get_intercom_channel channel_id s.app.db)
      row ← found o not_found
      changed ← gets (is_changed verified row.password_hash)
      refuse_if changed channel_changed
      room ← gets (λ s. intercom_channel_room channel_id s.app)
      ensure_intercom_channel_room w livekit_error channel_id
      issue_for_room ip name room (some room) (some channel_id)

    unfoldable pub enter_intercom_channel :
        Request → ℕ → Text → Text → Option Text → Handler TokenReply
    unfolding pw_key verify_channel enter_locked
    enter_intercom_channel r channel_id name password authorization = do
      send_guard w invalid_password now r authorization
      wait w 0
      verified ← verify_channel (pw_key (ip_of w r) channel_id) channel_id password
      wait w 1
      resend w invalid_password now authorization
      enter_locked (ip_of w r) channel_id name verified
