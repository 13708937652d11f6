-- ===== src/Server/Events.antt =====
-- src/shared/contracts/v1/envelope.ts and events.ts: what crosses the wire, and the domain events
-- with the payloads that the code emits.
use quantum_bunker.Base.{ℕ, String}

pub data EnvelopeType : Type 0 where
  plaintext noise_message signaling ping pong ack read edit delete file : EnvelopeType

pub record RelayEnvelope : Type 0 where
  pub session_id : String
  pub from : String
  pub type : EnvelopeType
  pub timestamp : ℕ
  pub nonce : String
  pub payload : String

pub data ExpiryReason : Type 0 where
  ttl_expired inactivity_timeout : ExpiryReason

-- `envelope_rejected` carries a whole envelope, only the sender's id, or nothing.
pub data RawEnvelope : Type 0 where
  whole : RelayEnvelope → RawEnvelope
  sender : String → RawEnvelope
  no_envelope : RawEnvelope

pub data DomainEvent : Type 0 where
  session_created : (session_id : String) (at expires_at : ℕ) → DomainEvent
  session_expired :
      (session_id : String) (at : ℕ) (reason : ExpiryReason) (last_activity_at : ℕ) → DomainEvent
  message_relayed :
      (session_id : String) (at : ℕ) (type : EnvelopeType) (byte_size : ℕ) (from : String)
      → DomainEvent
  envelope_rejected :
      (session_id : String) (at : ℕ) (reason : String) (raw : RawEnvelope) → DomainEvent
  peer_disconnected : (session_id : String) (at : ℕ) (peer_id : String) → DomainEvent
