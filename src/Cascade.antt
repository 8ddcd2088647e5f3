-- ===== src/Cascade.antt =====
-- The graph of AI channels and their sources in api/app/main.py: _ai_source_cycle, and the cascade
-- _close_dependent_ai_channels over it, a breadth-first search of the channels that translate a
-- closed one. Each takes as many rounds as there are rows, and one more. The cascade is one step: what
-- other requests do while it waits for the lock and the worker of a channel is left out.
pub mod Levels
pub mod Candidates
pub mod Completes
pub mod Exact
pub mod Chains
use ev211_field_server.Base.{
  ℕ, zero, suc, ◌+◌, Bool, true, false, ◌&&◌, ◌||◌, not, Option, none, some, List, [], ◌∷◌, ◌++◌,
  Text, ◌==◌, nat_eq, if◌then◌else◌, any, keep, length, order_by,
}
use ev211_field_server.OnAir
use ev211_field_server.AiChannels
use ev211_field_server.Database.Rows.{Database, ChannelRow, LeaseRow}
use ev211_field_server.Database.Channels.{
  get_channel, is_open_ai, close_channel, list_open_ai_channels_by_source,
}
use ev211_field_server.Database.Leases.{get_lease}
use ev211_field_server.State.{AppState}
use ev211_field_server.Site.{World}
use ev211_field_server.Routes.Calls.{try_remove}

-- FLOOR_CHANNEL_ID
abbrev pub floor_channel_id : ℕ
floor_channel_id = 0

abbrev pub is_in : List ℕ → ℕ → Bool
is_in ks k = any (λ j. j == k) ks

unfoldable pub source_cycle : ℕ → Database → ℕ → List ℕ → Option ℕ → Option Bool
source_cycle zero db output_cid seen cur = none
source_cycle (suc fuel) db output_cid seen none = some false
source_cycle (suc fuel) db output_cid seen (some cur) = elim (cur == floor_channel_id) [
  | true ↦ some false
  | false ↦ elim (cur == output_cid || is_in seen cur) [
    | true ↦ some true
    | false ↦ elim (get_channel db cur) [
      | none ↦ some false
      | some c ↦ elim (is_open_ai c) [
        | true ↦ source_cycle fuel db output_cid (cur ∷ seen) c.source_channel
        | false ↦ some false
      ]
    ]
  ]
]

-- `_ai_source_cycle`
unfoldable pub ai_source_cycle : Database → ℕ → ℕ → Option Bool
unfolding source_cycle
ai_source_cycle db output_cid source_channel =
    source_cycle (suc (length db.channels)) db output_cid [] (some source_channel)

abbrev pub from_any : List ℕ → Option ℕ → Bool
from_any frontier none = false
from_any frontier (some k) = is_in frontier k

-- An open AI channel whose source is in the frontier.
abbrev pub is_dependent : List ℕ → Option ChannelRow → Bool
is_dependent frontier none = false
is_dependent frontier (some c) = is_open_ai c && from_any frontier c.source_channel

-- A set of ids as a list without repetitions.
unfoldable pub distinct : List ℕ → List ℕ
distinct [] = []
distinct (k ∷ ks) = let rest = distinct ks in if is_in rest k then rest else k ∷ rest

unfoldable pub by_sources : List ℕ → Database → List ℕ
by_sources [] db = []
by_sources (k ∷ ks) db = list_open_ai_channels_by_source k db ++ by_sources ks db

-- `sorted({cid for src in frontier for cid in ... if cid not in seen})`
unfoldable pub candidates : List ℕ → List ℕ → Database → List ℕ
unfolding distinct by_sources
candidates frontier seen db =
    order_by (λ (k : ℕ). k) (distinct (keep (λ k. not (is_in seen k)) (by_sources frontier db)))

module _ (w : World) (now : ℕ) where
  unfoldable pub stop_worker : ℕ → AppState → AppState
  stop_worker channel_id s = record s {
    ai_channels = (AiChannels.stop w.livekit.ends channel_id s.ai_channels).1;
  }

  abbrev pub remove_holder : Option LeaseRow → AppState → AppState
  remove_holder none s = s
  remove_holder (some l) s = (try_remove w l.identity s).1

  unfoldable pub close_and_clear : ℕ → AppState → AppState
  close_and_clear channel_id s = record s {
    db = close_channel now channel_id s.db;
    on_air = OnAir.clear_channel channel_id s.on_air;
  }

  -- The end of an AI channel, however the removal of its participant ends.
  unfoldable pub end_ai_channel : ℕ → AppState → AppState
  unfolding stop_worker close_and_clear
  end_ai_channel channel_id s =
      let stopped = stop_worker channel_id s in
      close_and_clear channel_id (remove_holder (get_lease stopped.db channel_id) stopped)

  -- One level: each candidate that still depends on the frontier.
  unfoldable pub close_level : List ℕ → List ℕ → AppState → List ℕ × AppState
  close_level frontier [] s = ([], s)
  close_level frontier (k ∷ ks) s = elim (is_dependent frontier (get_channel s.db k)) [
    | true ↦ let (closed, s') = close_level frontier ks (end_ai_channel k s) in (k ∷ closed, s')
    | false ↦ close_level frontier ks s
  ]

  -- `closed` and `seen` have the same ids.
  unfoldable pub cascade : ℕ → List ℕ → List ℕ → AppState → Option (List ℕ × AppState)
  unfolding candidates close_level
  cascade fuel [] closed s = some (closed, s)
  cascade zero (k ∷ ks) closed s = none
  cascade (suc fuel) (k ∷ ks) closed s =
      let (next, s') = close_level (k ∷ ks) (candidates (k ∷ ks) closed s.db) s in
      cascade fuel next (closed ++ next) s'

  -- `_close_dependent_ai_channels`
  unfoldable pub close_dependent_ai_channels : ℕ → AppState → Option (List ℕ × AppState)
  unfolding cascade
  close_dependent_ai_channels source_id s =
      cascade (suc (length s.db.channels)) (source_id ∷ []) [] s
