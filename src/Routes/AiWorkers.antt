-- ===== src/Routes/AiWorkers.antt =====
-- The workers of AI channels: ai_token_provider and restore_ai_channels of api/app/state.py, and
-- _ai_idle_sweep of api/app/main.py.
use ev211_field_server.Base.{
  ℕ, Bool, true, false, ◌&&◌, Option, none, some, List, [], ◌∷◌, Text, codes, ◌==◌, nat_eq, text_eq,
  leb, if◌then◌else◌,
}
use ev211_field_server.Database.Rows.{ChannelRow, LeaseRow, send, relay}
use ev211_field_server.Database.Channels.{
  get_channel, is_open_ai, list_open_ai_channels, close_channel,
}
use ev211_field_server.Database.Leases.{get_lease, force_acquire_lease}
use ev211_field_server.State.{AppState, room, record_signal_event}
use ev211_field_server.AiChannels
use ev211_field_server.AiChannels.{AiWorkerParams, AiTranslateChannel, AiChannelManager}
use ev211_field_server.Tokens.{Token, issue_publish_token, publish_ttl_seconds}
use ev211_field_server.Site.{World}
use ev211_field_server.Routes.Calls.{route_signal}
use ev211_field_server.Cascade.{floor_channel_id, end_ai_channel, close_dependent_ai_channels}
use ev211_field_server.Routes.AiRoutes.{params_of, found_open_ai}

-- AI_IDLE_CLOSE_SECONDS
abbrev pub ai_idle_close_seconds : ℕ
ai_idle_close_seconds = 600

module _ (w : World) (now : ℕ) where
  -- The token for a channel's next connection, with its new lease; `none` is a channel that is not
  -- an open AI channel.
  unfoldable pub provide_token : ℕ → Option ChannelRow → AppState → Option (Token × AppState)
  provide_token channel_id none s = none
  provide_token channel_id (some c) s =
      let (identity, db) =
        force_acquire_lease now channel_id c.epoch s.generation w.nonce publish_ttl_seconds s.db in
      if is_open_ai c
      then some (issue_publish_token s.generation identity true, record s { db = db })
      else none

  unfoldable pub ai_token_provider : ℕ → AppState → Option (Token × AppState)
  unfolding provide_token
  ai_token_provider channel_id s = provide_token channel_id (get_channel s.db channel_id) s

  abbrev pub text_or_empty : Option Text → Text
  text_or_empty none = []
  text_or_empty (some t) = t

  -- AI_MODEL_LANGUAGE_MAP
  unfoldable pub model_language : Text → Text
  model_language t = if t == codes "zh-CN" then codes "zh" else t

  abbrev pub or_floor : Option ℕ → ℕ
  or_floor none = floor_channel_id
  or_floor (some k) = k

  abbrev pub restored : ℕ → ChannelRow → Option (Token × AppState) → AppState → Bool × AppState
  restored channel_id c none s = (false, record s { db = close_channel now channel_id s.db })
  restored channel_id c (some (token, s')) s = (
    true,
    record s' {
      ai_channels =
          (AiChannels.start
            (params_of w now channel_id (model_language (text_or_empty c.target_language))
              (or_floor c.source_channel) token.identity s')
            s'.ai_channels).1;
    },
  )

  -- The channels restored; the others are closed.
  unfoldable pub restore_each : List (ℕ × ChannelRow) → AppState → List ℕ × AppState
  unfolding ai_token_provider
  restore_each [] s = ([], s)
  restore_each ((k, c) ∷ rows) s =
      let (started, s₁) = restored k c (ai_token_provider k s) s in
      let (ids, s₂) = restore_each rows s₁ in if started then (k ∷ ids, s₂) else (ids, s₂)

  unfoldable pub restore_ai_channels : AppState → List ℕ × AppState
  unfolding restore_each
  restore_ai_channels s = restore_each (list_open_ai_channels s.db) s

  abbrev pub holder : Option LeaseRow → Text
  holder none = []
  holder (some l) = l.identity

  unfoldable pub close_idle : ℕ → AppState → Option AppState
  close_idle channel_id s =
      let ended = end_ai_channel w now channel_id s in
      let (_, signalled) =
        record_signal_event w.env.hash now
          (route_signal w send (codes "ai_channel_idle_closed") relay (some channel_id) (room ended)
            none (holder (get_lease s.db channel_id)) [])
          ended in
      elim (close_dependent_ai_channels w now channel_id signalled) [
        | none ↦ none
        | some (_, s') ↦ some s'
      ]

  -- `floor_idle` is the time for which the source of a worker has been silent, in seconds.
  abbrev pub is_idle : (ℕ → ℕ) → ℕ → AppState → Bool
  is_idle floor_idle channel_id s =
      AiChannels.has channel_id s.ai_channels && leb ai_idle_close_seconds (floor_idle channel_id)

  unfoldable pub idle_sweep :
      (ℕ → ℕ) → List (ℕ × ChannelRow) → AppState → Option (List ℕ × AppState)
  unfolding close_idle
  idle_sweep floor_idle [] s = some ([], s)
  idle_sweep floor_idle ((k, _) ∷ rows) s =
      elim (is_idle floor_idle k s && found_open_ai (get_channel s.db k)) [
        | false ↦ idle_sweep floor_idle rows s
        | true ↦ elim (close_idle k s) [
          | none ↦ none
          | some s' ↦ elim (idle_sweep floor_idle rows s') [
            | none ↦ none
            | some (ids, s'') ↦ some (k ∷ ids, s'')
          ]
        ]
      ]

  -- `_ai_idle_sweep`
  unfoldable pub ai_idle_sweep : (ℕ → ℕ) → AppState → Option (List ℕ × AppState)
  unfolding idle_sweep
  ai_idle_sweep floor_idle s = idle_sweep floor_idle (list_open_ai_channels s.db) s
