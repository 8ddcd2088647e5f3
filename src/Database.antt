-- ===== src/Database.antt =====
-- api/app/db.py: the SQLite ledger. Its tables are fields of one record, and each method is one
-- step on it: a transaction under the object's lock. What `_now()` returns is the argument `now`.
pub mod Rows
pub mod Channels
pub mod Leases
pub mod Webhooks
pub mod Signals
pub mod Usage
pub mod Listeners
pub mod Settings
