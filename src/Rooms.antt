-- ===== src/Rooms.antt =====
-- The room names of api/app/tokens.py, and the patterns by which api/app/webhook.py reads them.
use ev211_field_server.Base.{ℕ, false, Option, none, some, ◌++◌, Text, codes, if◌then◌else◌, ◌>>=◌}
use ev211_field_server.Base.Decimal.{decimal}
use ev211_field_server.Identity.{Digits, strip, number, at_end}

unfoldable pub room_name : ℕ → Text
room_name generation = codes "field-g" ++ decimal generation

unfoldable pub intercom_room_name : ℕ → Text
intercom_room_name generation = codes "intercom-g" ++ decimal generation

unfoldable pub intercom_channel_room_name : ℕ → ℕ → Text
intercom_channel_room_name generation channel_id =
    codes "intercom-g" ++ (decimal generation ++ (codes "-c" ++ decimal channel_id))

pub record IntercomRoom : Type 0 where
  pub generation : ℕ
  pub channel : Option ℕ

module _ (u : Digits) where
  -- `^field-g(?P<generation>\d+)$`
  unfoldable pub relay_room : Text → Option ℕ
  unfolding at_end
  relay_room name = do
    s ← strip (codes "field-g") name
    (generation, rest) ← number u 0 false s
    if at_end rest then some generation else none

  unfoldable pub channel_part : ℕ → Text → Option IntercomRoom
  channel_part generation s = do
    t ← strip (codes "-c") s
    (channel, rest) ← number u 0 false t
    if at_end rest then some (record { generation = generation; channel = some channel }) else none

  -- `^intercom-g(?P<generation>\d+)(?:-c(?P<channel>\d+))?$`
  unfoldable pub intercom_room : Text → Option IntercomRoom
  unfolding channel_part at_end
  intercom_room name = do
    s ← strip (codes "intercom-g") name
    (generation, rest) ← number u 0 false s
    if at_end rest
        then some (record { generation = generation; channel = none })
        else channel_part generation rest
