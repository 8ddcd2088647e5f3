-- ===== src/Lib.antt =====
-- EV211 field server (api/app): the server that hands out LiveKit tokens for the audio channels of
-- an event, and keeps who may speak on them.
--
-- The parts. api/app/db.py is the ledger: channels, the leases that give a channel to one speaker,
-- listeners, the log of signal events, usage sessions, settings and the generation. api/app/main.py
-- has the routes: behind their guards (https, the locks and limiters of api/app/rate_limit.py, the
-- passwords, api/app/live_auth.py) they change the ledger, ask LiveKit to make rooms and to remove
-- speakers, and answer tokens (api/app/tokens.py). api/app/webhook.py handles the events that LiveKit
-- reports and enforces the ledger: whoever joins or publishes without a lease is struck and removed.
-- It writes to the tracker of the channels on air (api/app/monitor.py), to the block list and, by way
-- of api/app/state.py, to the event log and the usage sessions, which api/app/usage_reporter.py
-- reports. api/app/state.py also changes the passwords, which may begin a new generation and so revokes
-- every token, and starts the server with the settings of api/app/config.py.
-- api/app/translate_worker.py translates a channel into an AI channel; the routes start and end its
-- workers, and a channel that closes closes the AI channels that translate it.
--
-- Which file models which part, a function under the name it has in the source where not said
-- otherwise:
--   Identity         api/app/identity.py, and the identity that acquire_lease prints
--   RateLimit        api/app/rate_limit.py, the three classes as records with one function a method
--   OnAir            api/app/monitor.py
--   Rooms            the room names of api/app/tokens.py and the patterns of api/app/webhook.py
--   Tokens           the tokens and the bodies of replies of api/app/tokens.py
--   Database         api/app/db.py: Rows holds the tables, and Channels, Leases, Webhooks, Signals,
--                    Usage, Listeners and Settings hold the methods on them
--   State            api/app/state.py: AppState, record_signal_event, and the accounting of usage
--                    (_usage_kind is usage_kind, _track_usage is track_usage)
--   Events           the events of api/app/webhook.py, and its strikes and removals
--   EventLog         _record_signal_event of api/app/webhook.py, as record_event
--   Webhook          api/app/webhook.py: handle and the handlers (on_joined is _on_joined, and so on),
--                    their parts split at the early returns
--   Rotation         change_admin_password_locked and change_send_password_locked of
--                    api/app/state.py
--   Bootstrap        bootstrap of api/app/state.py, with restore_ai_channels of Routes/AiWorkers at its end
--   Site             what the routes of api/app/main.py share: their state (Site), what one request
--                    meets (World), and Handler, the routes' way to answer or refuse
--   Routes           api/app/main.py: Guards and Calls hold what the routes share, Publish, Takeover,
--                    ChannelRoutes, Listen, Intercom, Admin and AiRoutes the routes, AiWorkers the
--                    tokens and the restoration of AI channels and the sweep of idle ones, and Bodies
--                    the limits of the requests' bodies
--   Cascade          _ai_source_cycle and _close_dependent_ai_channels of api/app/main.py
--   ChannelPassword  _channel_password_hash and _channel_password_matches of api/app/main.py
--   Config           load_settings of api/app/config.py
--   AiChannels       AiChannelManager of api/app/translate_worker.py
--   Supervisor       _supervise of api/app/translate_worker.py
--   SilenceGate      SilenceGate of api/app/translate_worker.py
--   Utterances       ends_utterance and UtteranceTracker of api/app/translate_worker.py
--   UsageReporter    api/app/usage_reporter.py
--   HttpUtil         api/app/http_util.py
--   LiveAuth         api/app/live_auth.py
--   Base             shared names: tests, lists, dicts as association lists, sorting, times, decimals
--   Examples         concrete runs
--
-- State and failure. A method takes the state and gives its answer with the new state. Each method
-- of the ledger is one transaction, and each handler, rotation or start one step, but for the wait
-- of a publication. A route is a Handler: it runs in steps with waits between, for a lock or for a
-- worker, and World.meanwhile says what other requests do during each wait, so that a theorem
-- about a route holds for whatever they do there. An exception is a value: `failed` of a webhook,
-- `raised` of a creation or a route, `none` of a refusal that cannot be computed, an answer other
-- than `changed` of a rotation, false of a start. The calls to LiveKit are listed in
-- AppState.calls; what LiveKit answers (Env, LiveKit, Server), the posting of a report, hashes,
-- scrypt, UUIDs, nonces, the decimal digits of Unicode, white space, upper and lower case, the
-- loudness of a chunk and how the run of a worker ends are parameters. Env.meanwhile says what
-- other requests do while a publication waits for the listing of participants; the theorems on the
-- webhooks name what they ask of it.
--
-- Bounds. Numbers are natural numbers without a bound, as Python's are. Times, floats of seconds in
-- the source, are whole microseconds; differences that could be negative are written on the other
-- side of the comparison. A decimal is printed with as many rounds as its number plus one, which is
-- more than it has digits, and a slot search looks at each slot once. The cascade and the search for a
-- cycle run on one round more than the ledger has channels, and are proved to end within them, since
-- each round takes a channel that none took before; every other recursion is on a list.
--
-- Not modelled: recording (api/app/recording.py) and its routes, which handle audio files; the
-- page, the application factory and its loops, which only schedule the modelled sweeps; the
-- signing of tokens; the clients of LiveKit and OpenAI and the sessions of the workers, which are
-- streams of audio; healthz; the names of the intercom's participants; failures of SQLite; what
-- other requests do while a removal, another call to LiveKit or the callback of live passwords is
-- waited for, and between the channels of one cascade (_close_dependent_ai_channels waits for a
-- lock and a worker for each), which is one step here; the choice of the passwords at a start,
-- where those that the database stores come before those of load_settings; and the limit of int()
-- on very long numerals. The several readings of the clock in one handling or request are one
-- time.
pub mod Base
pub mod RateLimit
pub mod Identity
pub mod Database
pub mod UsageReporter
pub mod OnAir
pub mod Rooms
pub mod Routes
pub mod Site
pub mod Tokens
pub mod Cascade
pub mod AiChannels
pub mod ChannelPassword
pub mod Config
pub mod Supervisor
pub mod State
pub mod Events
pub mod EventLog
pub mod Webhook
pub mod SilenceGate
pub mod Utterances
pub mod Rotation
pub mod Bootstrap
pub mod Examples
pub mod HttpUtil
pub mod LiveAuth
