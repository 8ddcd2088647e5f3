-- ===== src/Database/Settings.antt =====
-- Settings, the generation and the intercom channels of api/app/db.py.
use ev211_field_server.Base.{
  ℕ, Option, some, List, [], map, Text, codes, text_eq, nat_eq, if◌then◌else◌, order_by, Result, ok,
  raised,
}
use ev211_field_server.Base.Dict
use ev211_field_server.Database.Rows.{Database, IntercomChannelRow}
use ev211_field_server.Database.Channels.{first_free, ChannelError, channel_exists}

unfoldable pub get_setting : Text → Database → Option Text
get_setting key db = Dict.get db.settings key

unfoldable pub set_setting : Text → Text → Database → Database
set_setting key value db = record db { settings = Dict.put db.settings key value }

abbrev pub send_password_key : Text
send_password_key = codes "send_password"

abbrev pub admin_password_key : Text
admin_password_key = codes "admin_password"

unfoldable pub set_password_and_generation : Text → Text → ℕ → Text → Database → Database
set_password_and_generation key password gen password_hash db = record db {
  settings = Dict.put db.settings key password;
  generation = some (gen, password_hash);
}

unfoldable pub set_admin_password_and_generation : Text → ℕ → Text → Database → Database
unfolding set_password_and_generation
set_admin_password_and_generation = set_password_and_generation admin_password_key

-- One transaction: the password, the generation, all leases and all intercom channels.
unfoldable pub rotate_send_password : Text → ℕ → Text → Database → Database
rotate_send_password password gen password_hash db = record db {
  settings = Dict.put db.settings send_password_key password;
  generation = some (gen, password_hash);
  leases = [];
  intercom_channels = [];
}

unfoldable pub get_generation : Database → Option (ℕ × Text)
get_generation db = db.generation

unfoldable pub set_generation : ℕ → Text → Database → Database
set_generation value password_hash db = record db { generation = some (value, password_hash) }

unfoldable pub list_intercom_channels : Database → List (ℕ × IntercomChannelRow)
list_intercom_channels db = order_by (λ (r : ℕ × IntercomChannelRow). r.0) db.intercom_channels

unfoldable pub get_intercom_channel : ℕ → Database → Option IntercomChannelRow
get_intercom_channel channel_id db = Dict.get db.intercom_channels channel_id

unfoldable pub lowest_free_intercom_slot : ℕ → Database → Option ℕ
unfolding first_free
lowest_free_intercom_slot max_channels db =
    first_free (map (λ (r : ℕ × IntercomChannelRow). r.0) db.intercom_channels) 0 max_channels

unfoldable pub create_intercom_channel :
    ℕ → ℕ → Text → Option Text → Database → Result ChannelError (IntercomChannelRow × Database)
unfolding Dict.has
create_intercom_channel now channel_id name password_hash db =
    let row : IntercomChannelRow = record {
      name = name;
      password_hash = password_hash;
      created_at = now;
    } in
    if Dict.has db.intercom_channels channel_id
    then raised (channel_exists channel_id)
    else ok (row, record db { intercom_channels = Dict.put db.intercom_channels channel_id row })

unfoldable pub clear_intercom_channels : Database → Database
clear_intercom_channels db = record db { intercom_channels = [] }
