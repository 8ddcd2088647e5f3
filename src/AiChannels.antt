-- ===== src/AiChannels.antt =====
-- AiChannelManager of api/app/translate_worker.py: the registry of the supervisors of AI channels.
-- A supervisor is an object with its own task, so it has a serial number here. Whether a task that
-- was asked to stop has ended by the deadline is the parameter `ends`.
use ev211_field_server.Base.{
  ℕ, ◌+◌, Bool, true, false, not, Option, none, some, List, [], ◌∷◌, map, Text, ◌==◌, nat_eq,
  if◌then◌else◌, any, keep,
}
use ev211_field_server.Base.Dict

pub record AiWorkerParams : Type 0 where
  pub channel_id : ℕ
  pub target_language : Text
  -- The identity that the token is issued to.
  pub token : Text
  pub room : Text
  pub publish_track : Text
  pub subscribe_track : Text

-- `AiTranslateChannel`, as far as the registry reads it.
pub record AiTranslateChannel : Type 0 where
  pub serial : ℕ
  pub params : AiWorkerParams

pub record AiChannelManager : Type 0 where
  pub channels : List (ℕ × AiTranslateChannel)
  pub leaked : List AiTranslateChannel
  pub next_serial : ℕ

abbrev pub new_manager : AiChannelManager
new_manager = record { channels = []; leaked = []; next_serial = 0 }

unfoldable pub start : AiWorkerParams → AiChannelManager → AiTranslateChannel × AiChannelManager
start params m =
    let channel : AiTranslateChannel = record { serial = m.next_serial; params = params } in
    (
      channel,
      record m {
        channels = Dict.put m.channels params.channel_id channel;
        next_serial = m.next_serial + 1;
      },
    )

unfoldable pub get : ℕ → AiChannelManager → Option AiTranslateChannel
get channel_id m = Dict.get m.channels channel_id

unfoldable pub has : ℕ → AiChannelManager → Bool
unfolding Dict.has
has channel_id m = Dict.has m.channels channel_id

abbrev pub is_channel : AiTranslateChannel → AiTranslateChannel → Bool
is_channel c d = c.serial == d.serial

-- `set.discard` and `set.add`, by the identity of the object
abbrev pub discard : AiTranslateChannel → List AiTranslateChannel → List AiTranslateChannel
discard c cs = keep (λ d. not (is_channel c d)) cs

abbrev pub add : AiTranslateChannel → List AiTranslateChannel → List AiTranslateChannel
add c cs = if any (is_channel c) cs then cs else c ∷ cs

module _ (ends : ℕ → Bool) where
  abbrev pub tracked : AiTranslateChannel → List AiTranslateChannel → List AiTranslateChannel
  tracked c cs = if ends c.serial then discard c cs else add c cs

  abbrev pub stop_found : ℕ → Option AiTranslateChannel → AiChannelManager → Bool × AiChannelManager
  stop_found channel_id none m = (false, m)
  stop_found channel_id (some c) m =
      (true, record m { channels = Dict.remove m.channels channel_id; leaked = tracked c m.leaked })

  unfoldable pub stop : ℕ → AiChannelManager → Bool × AiChannelManager
  stop channel_id m = stop_found channel_id (Dict.get m.channels channel_id) m

  -- The supervisors that have not ended are tracked on.
  unfoldable pub reap_leaked : AiChannelManager → AiChannelManager
  reap_leaked m = record m {
    leaked = keep (λ (c : AiTranslateChannel). not (ends c.serial)) m.leaked;
  }

  unfoldable pub stop_all : List ℕ → AiChannelManager → AiChannelManager
  unfolding stop
  stop_all [] m = m
  stop_all (k ∷ ks) m = stop_all ks (stop k m).1

  unfoldable pub close : AiChannelManager → AiChannelManager
  unfolding stop_all reap_leaked
  close m = reap_leaked (stop_all (map (λ (r : ℕ × AiTranslateChannel). r.0) m.channels) m)
