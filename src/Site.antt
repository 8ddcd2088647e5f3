-- ===== src/Site.antt =====
-- What the routes of api/app/main.py work on: the state with its limiters and locks, the settings,
-- and what the libraries and LiveKit answer to one request (`World`). A route is a `Handler`: it
-- answers a reply or a refusal, and the state behind either. What a route does between two waits
-- for a lock is one step.
pub mod Steps
use ev211_field_server.Base.{
  ℕ, Bool, true, false, Option, none, some, List, Text, Result, ok, raised,
}
use ev211_field_server.RateLimit.{RateLimiter, FailureLock}
use ev211_field_server.HttpUtil.{Addresses}
use ev211_field_server.LiveAuth.{Entry}
use ev211_field_server.State.{AppState}
use ev211_field_server.Events.{Env}
use ev211_field_server.Rotation.{LiveKit}

pub record Site : Type 0 where
  pub app : AppState
  pub subscribe_rl : RateLimiter
  pub heartbeat_rl : RateLimiter
  pub publish_rl : RateLimiter
  pub admin_rl : RateLimiter
  pub publish_lock : FailureLock
  pub admin_lock : FailureLock
  pub intercom_pw_lock : FailureLock
  -- The cache of `live_verifier`.
  pub live_cache : List Entry

pub data SendAuthMode : Type 0 where
  password callback both : SendAuthMode

pub record Settings : Type 0 where
  pub ws_url : Text
  pub max_channels : ℕ
  pub forwarded_allow_ips : Text
  pub intercom_max : ℕ
  pub send_auth_mode : SendAuthMode
  pub openai_api_key : Text

-- The answers that one request meets. Calls in one request of the same arguments are answered alike.
pub record World : Type 1 where
  pub settings : Settings
  pub env : Env
  pub livekit : LiveKit
  pub addresses : Addresses
  pub is_loopback : addresses.Address → Bool
  pub upper : Text → Text
  -- The callback of `live_verifier`, and the time of its answer.
  pub call_verify : Text → Text → Bool
  pub answered : ℕ
  pub nonce : Text
  pub uuid : Text
  pub password_hash : Text → Text → Text
  -- What the other requests do while this one waits for the nth time: for a lock or a worker.
  pub meanwhile : ℕ → Site → Site

-- `error` is the code, the status and the Retry-After of `_err`; `exception` is what the framework
-- answers to an exception that the route does not catch.
pub data Refusal : Type 0 where
  error : Text → ℕ → Option ℕ → Refusal
  exception : Refusal

abbrev pub Handler : Type 0 → Type 0
Handler A = Site → Result Refusal A × Site

module _ {A : Type 0} where
  abbrev pub reply : A → Handler A
  reply a s = (ok a, s)

  abbrev pub refuse : Refusal → Handler A
  refuse r s = (raised r, s)

  abbrev pub gets : (Site → A) → Handler A
  gets f s = (ok (f s), s)

  abbrev pub found : Option A → Refusal → Handler A
  found none r = refuse r
  found (some a) r = reply a

abbrev pub bound :
    {A B : Type 0} → (A → Handler B) → Result Refusal A × Site → Result Refusal B × Site
bound f (ok a, s) = f a s
bound f (raised e, s) = (raised e, s)

infixl 5 ◌>>=◌ ◌>>◌
abbrev pub ◌>>=◌ : {A B : Type 0} → Handler A → (A → Handler B) → Handler B
◌>>=◌ m f s = bound f (m s)

abbrev pub ◌>>◌ : {A B : Type 0} → Handler A → Handler B → Handler B
m >> k = m >>= λ _. k

abbrev pub refuse_if : Bool → Refusal → Handler (Unit {0})
refuse_if true r = refuse r
refuse_if false r = reply tt

abbrev pub update : (AppState → AppState) → Handler (Unit {0})
update f s = (ok tt, record s { app = f s.app })

-- A call on the state that answers a value.
abbrev pub call : {A : Type 0} → (AppState → A × AppState) → Handler A
call f s = let (a, app) = f s.app in (ok a, record s { app = app })
