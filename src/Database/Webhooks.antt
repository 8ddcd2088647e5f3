-- ===== src/Database/Webhooks.antt =====
-- The ledger of processed webhooks of api/app/db.py.
use ev211_field_server.Base.{ℕ, Bool, true, false, Text, text_eq, if◌then◌else◌}
use ev211_field_server.Base.Dict
use ev211_field_server.Database.Rows.{Database}

unfoldable pub is_webhook_processed : Text → Database → Bool
unfolding Dict.has
is_webhook_processed event_id db = Dict.has db.processed_webhooks event_id

-- The primary key refuses a second row.
unfoldable pub mark_webhook_processed : ℕ → Text → Database → Bool × Database
unfolding is_webhook_processed
mark_webhook_processed now event_id db =
    if is_webhook_processed event_id db
    then (false, db)
    else (true, record db { processed_webhooks = Dict.put db.processed_webhooks event_id now })
