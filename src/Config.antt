-- ===== src/Config.antt =====
-- load_settings of api/app/config.py: the settings that the environment gives, or the reason why the
-- server does not start. `strip`, `lower` and the reading of an int are the parameters of `Reading`.
pub mod Safe
use ev211_field_server.Base.{
  ℕ, ◌≡◌, Bool, true, false, ◌&&◌, ◌||◌, not, Option, none, some, List, [], ◌∷◌, ◌++◌, Text, codes,
  ◌==◌, text_eq, nat_eq, leb, if◌then◌else◌, any,
}
use ev211_field_server.State.{is_empty_text}
use ev211_field_server.Site.{SendAuthMode, password, callback, both}

-- What `int` makes of a text.
pub data Integer : Type 0 where
  negative : Integer
  natural : ℕ → Integer

pub record Reading : Type 0 where
  pub strip : Text → Text
  pub lower : Text → Text
  -- `none` is a ValueError.
  pub int : Text → Option Integer

pub data ConfigError : Type 0 where
  send_password_default admin_password_default same_passwords : ConfigError
  no_api_key : ConfigError
  max_channels_invalid intercom_max_invalid : ConfigError
  send_auth_mode_invalid no_callback : ConfigError

-- `Settings` of the environment.
pub record Loaded : Type 0 where
  pub livekit_api_key : Text
  pub livekit_api_secret : Text
  pub livekit_host : Text
  pub livekit_rtc_url : Text
  pub ws_url : Text
  pub send_password : Text
  pub admin_password : Text
  pub db_path : Text
  pub recordings_path : Text
  pub max_channels : ℕ
  pub forwarded_allow_ips : Text
  pub openai_api_key : Text
  pub intercom_max : ℕ
  pub send_auth_mode : SendAuthMode
  pub ev211_api_base : Text
  pub field_callback_secret : Text

pub data Loading (A : Type 0) : Type 0 where
  loaded : A → Loading A
  stopped : ConfigError → Loading A

infixl 5 ◌>>=◌ ◌>>◌
abbrev pub ◌>>=◌ : {A B : Type 0} → Loading A → (A → Loading B) → Loading B
loaded a >>= f = f a
stopped e >>= f = stopped e

abbrev pub ◌>>◌ : {B : Type 0} → Loading (Unit {0}) → Loading B → Loading B
m >> k = m >>= λ _. k

abbrev pub stop_if : Bool → ConfigError → Loading (Unit {0})
stop_if true e = stopped e
stop_if false e = loaded tt

-- MAX_CHANNELS_CAP and INTERCOM_MAX_PARTICIPANTS_CAP
abbrev pub max_channels_cap : ℕ
max_channels_cap = 15

abbrev pub intercom_max_default : ℕ
intercom_max_default = 8

abbrev pub intercom_max_cap : ℕ
intercom_max_cap = 100

abbrev pub default_passwords : List Text
default_passwords =
    codes "change-me" ∷ codes "changeme" ∷ [] ∷ codes "password" ∷ codes "default" ∷ []

-- `e.get(key) or default`
abbrev pub or_default : Option Text → Text → Text
or_default none d = d
or_default (some []) d = d
or_default (some (c ∷ t)) d = c ∷ t

abbrev pub in_range : ℕ → ℕ → ConfigError → Option Integer → Loading ℕ
in_range lo hi e none = stopped e
in_range lo hi e (some negative) = stopped e
in_range lo hi e (some (natural n)) = if leb lo n && leb n hi then loaded n else stopped e

-- `int(e.get(key) or default)` with its range
abbrev pub number_of : Reading → ℕ → ℕ → ℕ → ConfigError → Option Text → Loading ℕ
number_of u lo hi d e none = loaded d
number_of u lo hi d e (some []) = loaded d
number_of u lo hi d e (some (c ∷ t)) = in_range lo hi e (u.int (c ∷ t))

abbrev pub mode_of : Text → Loading SendAuthMode
mode_of t =
    if t == codes "password"
    then loaded password
    else if t == codes "callback"
    then loaded callback
    else if t == codes "both"
    then loaded both
    else stopped send_auth_mode_invalid

abbrev pub needs_callback : SendAuthMode → Bool
needs_callback password = false
needs_callback callback = true
needs_callback both = true

module _ (u : Reading) (env : Text → Option Text) where
  abbrev pub value : Text → Text → Text
  value key d = u.strip (or_default (env key) d)

  -- An unset password, or one of the placeholders.
  unfoldable pub is_default : Text → Bool
  is_default pw = is_empty_text pw || any (λ d. d == u.lower pw) default_passwords

  abbrev pub send_pw : Text
  send_pw = value (codes "FIELD_SEND_PASSWORD") []

  abbrev pub admin_pw : Text
  admin_pw = value (codes "FIELD_ADMIN_PASSWORD") []

  abbrev pub api_key : Text
  api_key = value (codes "LIVEKIT_API_KEY") []

  abbrev pub api_secret : Text
  api_secret = value (codes "LIVEKIT_API_SECRET") []

  abbrev pub node_ip : Text
  node_ip = value (codes "FIELD_NODE_IP") (codes "127.0.0.1")

  abbrev pub api_base : Text
  api_base = value (codes "EV211_API_BASE") []

  abbrev pub secret : Text
  secret = value (codes "FIELD_CALLBACK_SECRET") []

  abbrev pub mode_text : Text
  mode_text = u.lower (value (codes "FIELD_SEND_AUTH_MODE") (codes "password"))

  unfoldable pub load_settings : Loading Loaded
  unfolding is_default
  load_settings = do
    stop_if (is_default send_pw) send_password_default
    stop_if (is_default admin_pw) admin_password_default
    stop_if (send_pw == admin_pw) same_passwords
    stop_if (is_empty_text api_key || is_empty_text api_secret) no_api_key
    max_channels ←
        number_of u 1 max_channels_cap max_channels_cap max_channels_invalid
          (env (codes "MAX_CHANNELS"))
    intercom_max ←
        number_of u 2 intercom_max_cap intercom_max_default intercom_max_invalid
          (env (codes "FIELD_INTERCOM_MAX"))
    mode ← mode_of mode_text
    stop_if (needs_callback mode && (is_empty_text api_base || is_empty_text secret)) no_callback
    loaded (record {
      livekit_api_key = api_key;
      livekit_api_secret = api_secret;
      livekit_host = value (codes "LIVEKIT_HOST") (codes "http://livekit:7880");
      livekit_rtc_url = value (codes "LIVEKIT_RTC_URL") (codes "ws://livekit:7880");
      ws_url = value (codes "FIELD_WS_URL") (codes "ws://" ++ (node_ip ++ codes ":7880"));
      send_password = send_pw;
      admin_password = admin_pw;
      db_path = value (codes "FIELD_DB_PATH") (codes "/data/field.db");
      recordings_path = value (codes "FIELD_RECORDINGS_PATH") (codes "/data/recordings");
      max_channels = max_channels;
      forwarded_allow_ips =
          value (codes "FIELD_FORWARDED_ALLOW_IPS")
            (codes "127.0.0.1,::1,10.0.0.0/8,172.16.0.0/12,192.168.0.0/16");
      openai_api_key = value (codes "OPENAI_API_KEY") [];
      intercom_max = intercom_max;
      send_auth_mode = mode;
      ev211_api_base = api_base;
      field_callback_secret = secret;
    })
