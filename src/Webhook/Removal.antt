-- ===== src/Webhook/Removal.antt =====
-- The participants that a join or a publication gets removed.
use ev211_field_server.Base.{◌≡◌, ◌≢◌, ◌<◌, Option, none, some, [], ◌∷◌, ◌++◌, Text, text_eq}
use ev211_field_server.RateLimit
use ev211_field_server.Identity.{SpeakerIdentity}
use ev211_field_server.Database.Rows.{ChannelRow, LeaseRow, closed}
use ev211_field_server.Database.Channels.{get_channel, track_of}
use ev211_field_server.Database.Leases.{get_lease}
use ev211_field_server.State.{AppState, room, remove_participant}
use ev211_field_server.Events.{Env, Outcome, remove_outcome, remove}

-- Why the speaker `p`, who joined as `identity`, has no right to its channel.
pub data Breach (s : AppState) (p : SpeakerIdentity) (identity : Text) : Type 0 where
  no_channel : get_channel s.db p.channel_id ≡ none → Breach s p identity
  other_generation : p.generation ≢ s.generation → Breach s p identity
  old_epoch :
      {c : ChannelRow}
      → get_channel s.db p.channel_id ≡ some c
      → p.epoch < c.epoch
      → Breach s p identity
  no_lease : get_lease s.db p.channel_id ≡ none → Breach s p identity
  other_holder :
      {l : LeaseRow}
      → get_lease s.db p.channel_id ≡ some l
      → l.identity ≢ identity
      → Breach s p identity

-- Why a track that it publishes is not allowed.
pub data Misuse (s : AppState) (p : SpeakerIdentity) (identity : Text) (track : Option Text)
    : Type 0 where
  breach : Breach s p identity → Misuse s p identity track
  shut :
      {c : ChannelRow}
      → get_channel s.db p.channel_id ≡ some c
      → c.state ≡ closed
      → Misuse s p identity track
  other_track : track ≢ some (track_of p.channel_id) → Misuse s p identity track

-- The request to LiveKit, behind the earlier ones.
abbrev pub AskedToRemove : Text → AppState → AppState → Type 0
AskedToRemove identity s t = t.calls ≡ s.calls ++ remove_participant (room s) identity ∷ []

-- The identity is struck and its removal asked for, the database and the channels on air stay as
-- they were, and the event fails exactly as the removal does.
pub record IsRemoval (env : Env) (identity : Text) (s : AppState) (r : Outcome × AppState)
    : Type 0 where
  pub asked : AskedToRemove identity s r.1
  pub struck_once : r.1.blocklist ≡ RateLimit.strike s.blocklist identity
  pub kept : r.1.db ≡ s.db
  pub silent : r.1.on_air ≡ s.on_air
  pub answered : r.0 ≡ remove_outcome env (env.remove (room s) identity)
