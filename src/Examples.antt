-- ===== src/Examples.antt =====
-- The tests: concrete inputs of the handlers, the ledger, the limiters and the workers.
mod Program
mod Fixtures
mod Webhooks
mod Rotations
mod Leases
mod Channels
mod Limits
mod Sessions
mod Workers
mod Requests
mod LivePasswords
mod Sites
mod Cascades
