-- ===== src/Routes.antt =====
-- The routes of api/app/main.py.
pub mod Guards
pub mod Calls
pub mod Publish
pub mod Takeover
pub mod ChannelRoutes
pub mod Listen
pub mod Intercom
pub mod Admin
pub mod AiRoutes
pub mod AiWorkers
pub mod Bodies
pub mod Refusals
