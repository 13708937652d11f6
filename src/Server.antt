-- ===== src/Server.antt =====
-- The relay server (src/backend).
pub mod Session
pub mod Store
pub mod Events
pub mod Create
pub mod Cleanup
pub mod Presence
pub mod RateLimit
pub mod Relay
pub mod Schemas
pub mod Security
pub mod Transport
pub mod Routes
