-- ===== src/Client.antt =====
-- The client's logic on frames and files (src).
pub mod SendQueue
pub mod P2pPolicy
pub mod Padding
pub mod FileStream
pub mod Mailbox
pub mod Ratchet
pub mod Noise
pub mod Outbox
pub mod Network
pub mod Contacts
pub mod Conversation
pub mod ChannelBasics
pub mod PeerChannels
