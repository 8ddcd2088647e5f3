-- ===== src/Routes/Guards.antt =====
-- The guards of api/app/main.py that stand before a route: https, the lock after failed passwords,
-- the limiter and the password; and note_active_join_code of api/app/state.py.
pub mod Refused
use ev211_field_server.Base.{
  ℕ, Bool, true, false, ◌&&◌, ◌||◌, not, Option, none, some, List, [], ◌∷◌, Text, codes, ◌==◌,
  text_eq, if◌then◌else◌, Result, ok, raised,
}
use ev211_field_server.RateLimit
use ev211_field_server.RateLimit.{RateLimiter, FailureLock}
use ev211_field_server.Identity.{starts_with}
use ev211_field_server.HttpUtil.{Request, client_ip, is_https}
use ev211_field_server.LiveAuth.{split_bearer, stripped, verify}
use ev211_field_server.Database.Settings.{set_setting}
use ev211_field_server.State.{AppState, is_empty_text}
use ev211_field_server.Site.{
  Site, World, SendAuthMode, password, callback, both, Refusal, error, exception, Handler, gets,
  reply, refuse_if, ◌>>=◌, ◌>>◌,
}

abbrev pub initial_admin_password : Text
initial_admin_password = codes "0000"

abbrev pub active_join_code_key : Text
active_join_code_key = codes "active_join_code"

-- `s[7:]`
abbrev pub behind_seven : Text → Text
behind_seven (_ ∷ _ ∷ _ ∷ _ ∷ _ ∷ _ ∷ _ ∷ t) = t
behind_seven _ = []

-- `_err`
abbrev pub locked_out : ℕ → Refusal
locked_out retry = error (codes "locked") 423 (some retry)

abbrev pub rate_limited : ℕ → Refusal
rate_limited retry = error (codes "rate_limited") 429 (some retry)

abbrev pub https_required : Refusal
https_required = error (codes "https_required") 403 none

abbrev pub invalid_password : Refusal
invalid_password = error (codes "invalid_password") 401 none

abbrev pub unauthorized : Refusal
unauthorized = error (codes "unauthorized") 401 none

abbrev pub must_change_password : Refusal
must_change_password = error (codes "must_change_password") 403 none

abbrev pub not_found : Refusal
not_found = error (codes "not_found") 404 none

abbrev pub channel_busy : Refusal
channel_busy = error (codes "channel_busy") 409 none

abbrev pub livekit_error : Refusal
livekit_error = error (codes "livekit_error") 502 none

abbrev pub max_channels_reached : Refusal
max_channels_reached = error (codes "max_channels_reached") 409 none

abbrev pub checked : Option (Bool × ℕ) → Result Refusal (Unit {0})
checked none = raised exception
checked (some (true, _)) = ok tt
checked (some (false, retry)) = raised (rate_limited retry)

module _ (w : World) where
  abbrev pub bearer_of : Text → Option Text
  bearer_of a =
      if starts_with (codes "bearer ") (w.addresses.lower a)
      then some (stripped w.addresses.is_space w.upper (behind_seven a))
      else none

  -- `_bearer`
  unfoldable pub bearer : Option Text → Option Text
  bearer none = none
  bearer (some a) = if is_empty_text a then none else bearer_of a

  abbrev pub is_token : Option Text → Text → Bool
  is_token none expected = false
  is_token (some token) expected = token == expected

  -- `_auth_bearer`
  unfoldable pub auth_bearer : Option Text → Text → Bool
  unfolding bearer
  auth_bearer authorization expected = is_token (bearer authorization) expected

  abbrev pub by_password : SendAuthMode → Bool
  by_password password = true
  by_password callback = false
  by_password both = true

  abbrev pub by_callback : SendAuthMode → Bool
  by_callback password = false
  by_callback callback = true
  by_callback both = true

  unfoldable pub note_active_join_code : Text → AppState → AppState
  note_active_join_code join_code s =
      let code = w.upper (stripped w.addresses.is_space w.upper join_code) in
      if is_empty_text code || (code == s.active_join_code)
      then s
      else record s { active_join_code = code; db = set_setting active_join_code_key code s.db }

  abbrev pub noted : Bool → Option (Text × Text) → AppState → AppState
  noted true (some (join_code, _)) s = note_active_join_code join_code s
  noted _ _ s = s

  unfoldable pub auth_live : ℕ → Option Text → Site → Bool × Site
  unfolding note_active_join_code
  auth_live now authorization s =
      let token = bearer authorization in
      let (passed, cache) =
        verify w.addresses.is_space w.upper w.call_verify now w.answered token s.live_cache in
      (
        passed,
        record s {
          app = noted passed (split_bearer w.addresses.is_space w.upper token) s.app;
          live_cache = cache;
        },
      )

  -- `_auth_send`; the live verifier exists in the modes with a callback.
  unfoldable pub auth_send : ℕ → Option Text → Site → Bool × Site
  unfolding auth_bearer auth_live
  auth_send now authorization s =
      if by_password w.settings.send_auth_mode && auth_bearer authorization s.app.send_password
      then (true, s)
      else if by_callback w.settings.send_auth_mode
      then auth_live now authorization s
      else (false, s)

  abbrev pub loopback : Option w.addresses.Address → Bool
  loopback none = false
  loopback (some a) = w.is_loopback a

  -- `_is_loopback`
  unfoldable pub is_loopback : Text → Bool
  is_loopback ip = loopback (w.addresses.ip_address ip)

  -- `_ip`
  unfoldable pub ip_of : Request → Text
  ip_of r = client_ip w.addresses r w.settings.forwarded_allow_ips

  -- `_https_guard`
  unfoldable pub https_guard : Request → Handler (Unit {0})
  unfolding is_loopback
  https_guard r =
      refuse_if
        (not (is_https w.addresses r w.settings.forwarded_allow_ips) && not (is_loopback (ip_of r)))
        https_required

  module _ (now : ℕ) (ip : Text) where
    -- The lock of `key` in one of the locks.
    unfoldable pub check_lock : FailureLock → Handler (Unit {0})
    check_lock l =
        let (locked, retry) = RateLimit.is_locked l now ip in refuse_if locked (locked_out retry)

    unfoldable pub check_publish : Handler (Unit {0})
    check_publish s =
        let (answer, limiter) = RateLimit.check s.publish_rl now ip in
        (checked answer, record s { publish_rl = limiter })

    unfoldable pub check_admin : Handler (Unit {0})
    check_admin s =
        let (answer, limiter) = RateLimit.check s.admin_rl now ip in
        (checked answer, record s { admin_rl = limiter })

    -- The password's answer, counted by the lock.
    unfoldable pub count_publish : Refusal → Bool → Handler (Unit {0})
    count_publish denial true s =
        (ok tt, record s { publish_lock = RateLimit.record_success s.publish_lock ip })
    count_publish denial false s =
        (raised denial, record s { publish_lock = RateLimit.record_failure s.publish_lock now ip })

    unfoldable pub count_admin : Bool → Handler (Unit {0})
    count_admin true s = (ok tt, record s { admin_lock = RateLimit.record_success s.admin_lock ip })
    count_admin false s = (
      raised unauthorized,
      record s { admin_lock = RateLimit.record_failure s.admin_lock now ip },
    )

    unfoldable pub publish_allowed : Handler (Unit {0})
    unfolding check_publish check_lock
    publish_allowed = do l ← gets (λ s. s.publish_lock); check_lock l; check_publish

    unfoldable pub admin_allowed : Handler (Unit {0})
    unfolding check_admin check_lock
    admin_allowed = do l ← gets (λ s. s.admin_lock); check_lock l; check_admin

  -- `_intercom_auth`, and the same guard in front of the other routes of senders, with their denial.
  unfoldable pub send_guard : Refusal → ℕ → Request → Option Text → Handler (Unit {0})
  unfolding https_guard publish_allowed count_publish
  send_guard denial now r authorization = do
    https_guard r
    publish_allowed now (ip_of r)
    passed ← (λ s. let (b, s') = auth_send now authorization s in (ok b, s'))
    count_publish now (ip_of r) denial passed

  unfoldable pub is_initial : Bool → Site → Bool
  is_initial allow_initial s = not allow_initial && (s.app.admin_password == initial_admin_password)

  -- `_admin_guard`, and the same guard in front of the other routes of administrators.
  unfoldable pub admin_guard : Bool → ℕ → Request → Option Text → Handler (Unit {0})
  unfolding https_guard admin_allowed count_admin
  admin_guard allow_initial now r authorization = do
    https_guard r
    admin_allowed now (ip_of r)
    passed ← gets (λ s. auth_bearer authorization s.app.admin_password)
    count_admin now (ip_of r) passed
    initial ← gets (is_initial allow_initial)
    refuse_if initial must_change_password

  -- The second check of the password, behind the wait for the rotation lock.
  unfoldable pub resend : Refusal → ℕ → Option Text → Handler (Unit {0})
  resend denial now authorization = do
    passed ← (λ s. let (b, s') = auth_send now authorization s in (ok b, s'))
    refuse_if (not passed) denial

  unfoldable pub readmit : Bool → Option Text → Handler (Unit {0})
  unfolding is_initial
  readmit allow_initial authorization = do
    passed ← gets (λ s. auth_bearer authorization s.app.admin_password)
    refuse_if (not passed) unauthorized
    initial ← gets (is_initial allow_initial)
    refuse_if initial must_change_password

  -- The wait for a lock or a worker.
  unfoldable pub wait : ℕ → Handler (Unit {0})
  wait n s = (ok tt, w.meanwhile n s)
