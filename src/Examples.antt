-- ===== src/Examples.antt =====
-- Runs at concrete inputs: each theorem at a case that exercises the code, and tests of whole handlers.
pub mod Values
pub mod Membership
pub mod Stores
pub mod Relays
pub mod Joins
pub mod Transports
pub mod Routes
pub mod Crypto
pub mod Channels
pub mod Conversations
pub mod Clients
pub mod Settings
pub mod Texts
pub mod Ratchets
