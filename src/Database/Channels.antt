-- ===== src/Database/Channels.antt =====
-- Channels of api/app/db.py: the slots, their opening and closing.
pub mod Slots
pub mod Lifecycle
use ev211_field_server.Base.{
  ℕ, zero, suc, ◌+◌, Bool, true, false, ◌&&◌, ◌||◌, not, Option, none, some, List, [], ◌∷◌, ◌++◌,
  map, Text, codes, ◌==◌, nat_eq, if◌then◌else◌, any, keep, count_of, order_by, Result, ok, raised,
}
use ev211_field_server.Base.Decimal.{two_digits}
use ev211_field_server.Base.Dict
use ev211_field_server.Database.Rows.{
  Database, ChannelRow, ChannelState, opened, closed, Source, is_open, is_ai,
}
use ev211_field_server.Database.Usage.{is_open_on, end_where}

pub data ChannelError : Type 0 where
  channel_exists : ℕ → ChannelError

unfoldable pub list_channels : Database → List (ℕ × ChannelRow)
list_channels db = order_by (λ (r : ℕ × ChannelRow). r.0) db.channels

unfoldable pub get_channel : Database → ℕ → Option ChannelRow
get_channel db channel_id = Dict.get db.channels channel_id

abbrev pub is_open_row : ℕ × ChannelRow → Bool
is_open_row r = is_open r.1.state

abbrev pub is_open_ai : ChannelRow → Bool
is_open_ai c = is_ai c.source && is_open c.state

unfoldable pub count_open_general_channels : Database → ℕ
count_open_general_channels db =
    count_of (λ (r : ℕ × ChannelRow). is_open_row r && not (r.0 == 0)) db.channels

-- `for cid in range(cid, cid + rounds): if cid not in used: return cid`
unfoldable pub first_free : List ℕ → ℕ → ℕ → Option ℕ
first_free used cid zero = none
first_free used cid (suc rounds) =
    let later = first_free used (cid + 1) rounds in
    if any (λ k. k == cid) used then later else some cid

unfoldable pub lowest_free_general_slot : ℕ → Database → Option ℕ
unfolding first_free
lowest_free_general_slot max_channels db =
    first_free (map (λ (r : ℕ × ChannelRow). r.0) (keep is_open_row db.channels)) 1 max_channels

-- f"ch-{channel_id:02d}"
unfoldable pub track_of : ℕ → Text
track_of channel_id = codes "ch-" ++ two_digits channel_id

-- A closed row is opened again: it keeps its track name and its epoch.
unfoldable pub opened_row :
    Option ChannelRow → ℕ → ℕ → Text → Text → Source → Option Text → Option ℕ → ChannelRow
unfolding track_of
opened_row none now channel_id language label source target_language source_channel = record {
  track_name = track_of channel_id;
  language = language;
  label = label;
  state = opened;
  epoch = 1;
  created_at = now;
  source = source;
  target_language = target_language;
  source_channel = source_channel;
}
opened_row (some c) now channel_id language label source target_language source_channel = record c {
  language = language;
  label = label;
  state = opened;
  created_at = now;
  source = source;
  target_language = target_language;
  source_channel = source_channel;
}

abbrev pub found_open : Option ChannelRow → Bool
found_open none = false
found_open (some c) = is_open c.state

unfoldable pub create_channel :
    ℕ
    → ℕ
    → Text
    → Text
    → Source
    → Option Text
    → Option ℕ
    → Database
    → Result ChannelError (ChannelRow × Database)
unfolding opened_row
create_channel now channel_id language label source target_language source_channel db =
    let existing = Dict.get db.channels channel_id in
    let row =
      opened_row existing now channel_id language label source target_language source_channel in
    if found_open existing
    then raised (channel_exists channel_id)
    else ok (row, record db { channels = Dict.put db.channels channel_id row })

unfoldable pub close_row : ChannelRow → ChannelRow
close_row c = record c { state = closed }

unfoldable pub close_channel : ℕ → ℕ → Database → Database
unfolding close_row end_where
close_channel now channel_id db = record db {
  channels = Dict.modify db.channels channel_id close_row;
  leases = Dict.remove db.leases channel_id;
  usage_sessions = end_where (is_open_on channel_id) (λ _. now) db.usage_sessions;
}

unfoldable pub close_if_ai : ℕ → ChannelRow → ChannelRow
unfolding close_row
close_if_ai channel_id c = if is_open_ai c then close_row c else c

-- The ids of the open AI channels, in no particular order.
unfoldable pub open_ai_ids : Database → List ℕ
open_ai_ids db =
    map (λ (r : ℕ × ChannelRow). r.0) (keep (λ (r : ℕ × ChannelRow). is_open_ai r.1) db.channels)

abbrev pub end_on_all : List ℕ → ℕ → Database → Database
end_on_all [] now db = db
end_on_all (k ∷ ks) now db =
    end_on_all ks now
      (record db { usage_sessions = end_where (is_open_on k) (λ _. now) db.usage_sessions })

unfoldable pub close_open_ai_channels : ℕ → Database → List ℕ × Database
unfolding close_if_ai open_ai_ids end_where
close_open_ai_channels now db =
    let ids = open_ai_ids db in
    (
      ids,
      end_on_all ids now (record db {
        channels = Dict.map_rows close_if_ai db.channels;
        leases = Dict.remove_all db.leases ids;
      }),
    )

unfoldable pub list_open_ai_channels : Database → List (ℕ × ChannelRow)
list_open_ai_channels db =
    order_by (λ (r : ℕ × ChannelRow). r.0)
      (keep (λ (r : ℕ × ChannelRow). is_open_ai r.1) db.channels)

abbrev pub has_source : ℕ → ChannelRow → Bool
has_source k c = elim c.source_channel [ none ↦ false | some s ↦ s == k ]

unfoldable pub list_open_ai_channels_by_source : ℕ → Database → List ℕ
list_open_ai_channels_by_source source_channel db =
    map (λ (r : ℕ × ChannelRow). r.0)
      (keep (λ (r : ℕ × ChannelRow). is_open_ai r.1 && has_source source_channel r.1) db.channels)

-- `none` is the TypeError of `r["epoch"]` on a missing row, raised after the transaction.
unfoldable pub bump_channel_epoch : ℕ → Database → Option ℕ × Database
bump_channel_epoch channel_id db =
    let channels = Dict.modify db.channels channel_id (λ c. record c { epoch = c.epoch + 1 }) in
    (
      elim (Dict.get channels channel_id) [ none ↦ none | some c ↦ some c.epoch ],
      record db { channels = channels },
    )
